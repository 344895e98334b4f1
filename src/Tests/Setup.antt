-- ===== src/Tests/Setup.antt =====
-- Runs of the configuration, of the worker infos and of the SDK workers.
use roadrunner_temporal.Base.{
  ℕ, str_eq, ◌==◌, ◌≡◌, ◌↔◌, true, false, if◌then◌else◌, none, some, List, [], ◌∷◌,
}
use roadrunner_temporal.Base.Int.{pos}
use roadrunner_temporal.Errors.{ok}
use roadrunner_temporal.Codec.{Wire, ProtoMessage, WorkerInfo}
use roadrunner_temporal.Workflow.{PoolCall, Reply, replied}
use roadrunner_temporal.Config.{ConfigLib, Config, init_default}
use roadrunner_temporal.Config.Given.{Respects, init_default-Respects}
use roadrunner_temporal.Config.Filled.{IsFilled, Readable, init_default-IsFilled}
use roadrunner_temporal.Info.Asked.{wire_services, Offered, worker_info-Offers}
use roadrunner_temporal.Info.{worker_info, workflows_info, activities_info}
use roadrunner_temporal.Info.Last.{last_named, all_workflows, all_activities, infos-last}
use roadrunner_temporal.Workers.{WorkerLib, Options, temporal_workers}
use roadrunner_temporal.Workers.Prepared.{Registered, temporal_workers-Registered}
use roadrunner_temporal.Tests.{demo_vendor}

-- A pool configuration is the number of its workers here, and one file is missing.
abbrev pub demo_config_lib : ConfigLib demo_vendor
demo_config_lib = record {
  PoolConfig = ℕ;
  no_pool_config = 0;
  init_defaults = λ n. if n == 0 then 4 else n;
  stat = λ path. if str_eq path "missing.pem" then some 2 else none;
  is_not_exist = λ f. true;
}

abbrev pub demo_config : Config demo_config_lib
demo_config = record {
  metrics = some (record { driver = ""; prometheus = none; statsd = none });
  activities = none;
  tls = some (record {
    key = "client.key";
    cert = "client.crt";
    root_ca = "missing.pem";
    server_name = "temporal";
    auth_type = "require_any_client_cert";
    auth = 0;
  });
  address = "127.0.0.1:7233";
  namespace = "";
  cache_size = pos 0;
}

init_default-Respects_example :
    Respects demo_config_lib demo_config (init_default demo_config_lib demo_config).1
init_default-Respects_example = init_default-Respects demo_config_lib demo_config

init_default-IsFilled_example :
    IsFilled demo_config_lib (init_default demo_config_lib demo_config).1
    × (((init_default demo_config_lib demo_config).0 ≡ none)
        ↔ Readable demo_config_lib demo_config.tls)
init_default-IsFilled_example = init_default-IsFilled demo_config_lib demo_config

abbrev pub demo_worker_lib : WorkerLib demo_vendor
demo_worker_lib = record {
  Rest = ℕ;
  Interceptor = ℕ;
  default_namespace = "default";
  header_interceptor = 1;
  uuid = λ i. "uuid";
  walked = λ i. 2 ∷ 3 ∷ [];
  workflow_panic = λ w name. none;
  activity_panic = λ w name. none;
}

abbrev pub demo_info : WorkerInfo (Options demo_worker_lib)
demo_info = record {
  task_queue = "";
  options = record {
    worker_stop_timeout = pos 9;
    build_id = "b1";
    use_build_id_for_versioning = false;
    identity = "";
    interceptors = [];
    rest = 0;
  };
  php_sdk_version = "2.6.0";
  workflows =
      record { name = "order"; queries = "state" ∷ []; signals = [] }
      ∷ record { name = "order"; queries = []; signals = "cancel" ∷ [] }
      ∷ [];
  activities = record { name = "pay" } ∷ [];
}

abbrev pub demo_infos : List (WorkerInfo (Options demo_worker_lib))
demo_infos = demo_info ∷ []

infos-last_example :
    (workflows_info demo_infos "order"
      ≡ last_named (λ e. e.name) "order" (all_workflows demo_infos))
    × (activities_info demo_infos "order"
        ≡ last_named (λ e. e.name) "order" (all_activities demo_infos))
infos-last_example = infos-last demo_infos "order"

temporal_workers-Registered_example :
    Registered demo_worker_lib 0 demo_infos (temporal_workers demo_worker_lib demo_infos)
temporal_workers-Registered_example = temporal_workers-Registered demo_worker_lib demo_infos

abbrev answer_frame : ProtoMessage demo_vendor
answer_frame = record {
  id = 0;
  command = "";
  options = [];
  payloads = some (5 ∷ []);
  failure = none;
  header = none;
  history_length = 0;
  run_id = "";
}

-- A worker process with the infos above behind each of its payloads.
abbrev pub info_wire : Wire demo_vendor (Options demo_worker_lib)
info_wire = record {
  show = λ d. "?";
  marshal_command = λ d. ok (1 ∷ []);
  marshal_context = λ ctx. ([], none);
  marshal_frame = λ frames. (6 ∷ [], none);
  unmarshal_frame = λ bytes. ok (answer_frame ∷ []);
  unmarshal_command = λ bytes d. ok none;
  from_payload = λ p. ok demo_info;
}

abbrev pub info_exec : List PoolCall → Reply demo_vendor
info_exec log = replied (record { codec = 1; context = []; body = 7 ∷ []; flags = 0 })

worker_info-Offers_example :
    Offered info_wire info_exec
      (λ flags. false)
      "2023.1"
      []
      (worker_info (wire_services info_wire info_exec (λ flags. false)) "2023.1" [])
worker_info-Offers_example = worker_info-Offers info_wire info_exec (λ flags. false) "2023.1" []
