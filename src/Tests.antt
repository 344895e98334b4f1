-- ===== src/Tests.antt =====
-- A small SDK, codec, worker and environment, on which the modules below run the development.
mod Wire
mod Bus
mod Activities
mod Secured
mod Running
mod Setup
mod Calls
mod Plugins
mod Converted
mod Ended
use roadrunner_temporal.Base.{
  ℕ, String, Bool, true, false, Option, none, some, List, [], ◌∷◌, ◌++◌, if◌then◌else◌, ◌==◌,
  length,
}
use roadrunner_temporal.Base.Int.{ℤ, pos}
use roadrunner_temporal.Vendor.{Vendor}
use roadrunner_temporal.Errors.{GoError, Result, ok, err}
use roadrunner_temporal.Payload.{Payload}
use roadrunner_temporal.Protocol.{
  Message, Dynamic, pointer, Command, complete_workflow, new_timer, empty_message,
}
use roadrunner_temporal.Workflow.{
  Workflow, Services, Environment, Codec, Reply, replied, PoolCall, Outcome, UpdateRequest,
}
use roadrunner_temporal.Workflow.Lifecycle.{new_workflow_definition}

-- Payloads, headers, failures and handles are numbers here.
abbrev pub demo_vendor : Vendor
demo_vendor = record {
  Payload = ℕ;
  Header = ℕ;
  Failure = ℕ;
  Fault = ℕ;
  ActivityRest = Unit;
  ChildRest = Unit;
  InfoRest = Unit;
  Float64 = ℕ;
  SearchAttributes = ℕ;
  no_activity_rest = tt;
  no_child_rest = tt;
  no_info_rest = tt;
  no_attributes = 0;
  ActivityId = ℕ;
  LocalActivityId = ℕ;
  TimerId = ℕ;
  Version = ℕ;
  Execution = ℕ;
  failure_message = λ f. "";
  failure_to_error = λ f. f;
  nil_failure_error = none;
  error_to_failure = λ e. e;
}

abbrev pub command_message : ℕ → Command demo_vendor → Message demo_vendor
command_message id c = record {
  id = id;
  command = some (pointer c);
  failure = none;
  payloads = some (11 ∷ []);
  header = none;
}

-- The first exchange brings a timer and the end of the workflow, each later one a response.
abbrev pub demo_decode : ℕ → List (Message demo_vendor)
demo_decode n =
    if n == 1
    then command_message 7 (new_timer (pos 250)) ∷ command_message 8 complete_workflow ∷ []
    else empty_message demo_vendor ∷ []

abbrev pub demo_environment : Environment demo_vendor
demo_environment = record {
  info = λ l. record { task_queue_name = "default"; run_id = "run"; history_length = 3; rest = tt };
  now = λ l. "now";
  is_replaying = λ l. false;
  activity_id = λ l. length l;
  local_activity_id = λ l. length l;
  timer_id = λ l. some (length l);
  version = λ l. 1;
  upsert_error = λ l. none;
  events = λ l. [];
  updates = λ l. [];
  last_completion = some (5 ∷ []);
  to_payloads = λ x. ok (9 ∷ []);
  text_of = λ p. ok "trace";
}

abbrev pub demo_services : Services demo_vendor
demo_services = record {
  codec = record {
    encode = λ ctx p ms. (record p { codec = 1 }, none);
    decode = λ p acc. (acc ++ demo_decode p.codec, none);
  };
  env = demo_environment;
  exec = λ l. replied (record { codec = length l; context = []; body = []; flags = 0 });
  is_stream = λ f. false;
  itoa = λ n. "1";
}

-- A workflow whose first message waits in the queue, and one that waits for command 7.
abbrev pub idle_workflow : Workflow demo_vendor
idle_workflow = new_workflow_definition "workflow" 40

abbrev pub queued_workflow : Workflow demo_vendor
queued_workflow = record idle_workflow {
  mq = record { counter = 41; queue = record (empty_message demo_vendor) { id = 41 } ∷ [] };
}

abbrev pub demo_update : UpdateRequest demo_vendor
demo_update = record {
  run_id = "run";
  update_id = "u1";
  name = "rename";
  input = none;
  header = none;
}
