-- ===== src/Tests/Plugins.antt =====
-- Runs of the plugin in a world where nothing fails.
use roadrunner_temporal.Base.{
  ℕ, ◌≡◌, ◌==◌, if◌then◌else◌, str_eq, refl, true, false, none, some, List, [], ◌∷◌,
}
use roadrunner_temporal.Errors.{ok, err, str}
use roadrunner_temporal.Exec.{returns}
use roadrunner_temporal.Plugin.States.{Processes, Reports, worker_states, worker_states-Reports}
use roadrunner_temporal.Exec.Triple.{Triple}
use roadrunner_temporal.Info.Asked.{wire_services}
use roadrunner_temporal.Plugin.{World, Plugin, serve, reset, reset_ap, stop_plugin}
use roadrunner_temporal.Plugin.Runs.{Known, Lost, Fresh}
use roadrunner_temporal.Plugin.Restart.{Busy, Stopped, operations-Refine}
use roadrunner_temporal.Plugin.Loop.{Input, worker_stopped, stop_signal}
use roadrunner_temporal.Tests.{demo_vendor}
use roadrunner_temporal.Tests.Setup.{
  demo_config_lib, demo_config, demo_worker_lib, info_wire, info_exec,
}

abbrev demo_world : World demo_vendor
demo_world = record {
  Pool = ℕ;
  Client = ℕ;
  config_lib = demo_config_lib;
  worker_lib = demo_worker_lib;
  created = λ calls. ok 3;
  was_reset = λ calls pool. none;
  connected = λ calls. ok 4;
  was_started = λ calls. none;
  subscribed = λ calls. none;
  metrics_closed = λ calls. none;
  pids = λ calls pool. 77 ∷ [];
  info_services = λ pool. wire_services info_wire info_exec (λ flags. false);
  contains = str_eq;
  itoa = λ n. "77";
}

abbrev served_plugin : Plugin demo_world
served_plugin = record {
  config = demo_config;
  rr_version = "2023.1";
  ww_pid = 77;
  act_p = some 3;
  wf_p = some 3;
  rr_workflow_def = some 3;
  rr_activity_def = some 3;
  workflows = λ name. none;
  activities = λ name. none;
  client = some 4;
  workers = [];
  has_bus = true;
  has_metrics = false;
  calls = [];
  info_calls = [];
}

operations-Refine_example :
    Triple (Fresh demo_world []) (serve demo_world) (λ _. Known demo_world) (Lost demo_world)
    × Triple (Known demo_world) (reset demo_world) (λ _. Known demo_world) (Lost demo_world)
    × Triple (Known demo_world) (reset_ap demo_world) (λ _. Known demo_world) (Known demo_world)
    × Triple
        (Busy demo_world)
        (stop_plugin demo_world)
        (λ _. Stopped demo_world)
        (Stopped demo_world)
operations-Refine_example = operations-Refine demo_world

abbrev demo_inputs : List Input
demo_inputs = worker_stopped "12" ∷ worker_stopped "77" ∷ stop_signal ∷ worker_stopped "77" ∷ []

-- The workflow pool and the activity pool have two processes each, and one of each is gone.
abbrev demo_processes : Processes demo_world
demo_processes = record {
  Process = ℕ;
  State = ℕ;
  processes = λ pool. 0 ∷ 12 ∷ [];
  process_state = λ n. if n == 0 then err (str "no such process") else ok n;
}

worker_states-Reports_example :
    (states : List ℕ) × (worker_states demo_world demo_processes served_plugin ≡ returns states)
    × Reports demo_world demo_processes (0 ∷ 12 ∷ 0 ∷ 12 ∷ []) states
worker_states-Reports_example =
    worker_states-Reports demo_world demo_processes served_plugin 3 3 refl refl
