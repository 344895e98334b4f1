-- ===== src/Workflow.antt =====
-- aggregatedpool/workflow.go: the object behind one running workflow, and what it works with. The
-- methods are in the modules below: Exchange, Callbacks and Handle for aggregatedpool/handler.go,
-- Update for its updates, Lifecycle and Task for the rest of workflow.go.
pub mod Frame
pub mod Exchange
pub mod Callbacks
pub mod Handle
pub mod Update
pub mod Task
pub mod Lifecycle
use roadrunner_temporal.Base.{ℕ, String, Bool, Option, none, some, List, [], ◌∷◌, ◌++◌, Map}
use roadrunner_temporal.Base.Int.{ℤ}
use roadrunner_temporal.Vendor.{Vendor}
use roadrunner_temporal.Errors.{GoError, Result}
use roadrunner_temporal.Payload.{Payload}
use roadrunner_temporal.Protocol.{Payloads, Context, Message, WorkflowInfo, SignalExternalWorkflow}
use roadrunner_temporal.Protocol.Params.{ActivityParams, LocalActivityParams, ChildParams}
use roadrunner_temporal.Queue.{MessageQueue}
use roadrunner_temporal.Registry.{IdRegistry}

-- `(result, err)` of a result handler.
pub record Outcome (v : Vendor) : Type 0 where
  pub result : Option (Payloads v)
  pub err : Option v.Fault

-- `(r, e)` of the handler of a started child workflow.
pub record Started (v : Vendor) : Type 0 where
  pub execution : v.Execution
  pub err : Option v.Fault

pub record ContinueAsNewError (v : Vendor) : Type 0 where
  pub workflow_type : String
  pub input : Option (Payloads v)
  pub header : Option v.Header
  pub task_queue_name : String
  pub workflow_run_timeout : ℤ
  pub workflow_task_timeout : ℤ

pub data CompleteError (v : Vendor) : Type 0 where
  of_fault : v.Fault → CompleteError v
  of_continue : ContinueAsNewError v → CompleteError v

-- The closure that `handleUpdate` queues: the variables that it captures.
pub record UpdateRequest (v : Vendor) : Type 0 where
  pub run_id : String
  pub update_id : String
  pub name : String
  pub input : Option (Payloads v)
  pub header : Option v.Header

-- A call of the SDK's workflow environment, or of the callbacks that came with an update. Where
-- the call takes a result handler, the number is the id of the message that the handler answers.
pub data EnvCall (v : Vendor) : Type 0 where
  execute_activity : ActivityParams v → ℕ → EnvCall v
  request_cancel_activity : v.ActivityId → EnvCall v
  execute_local_activity : LocalActivityParams v → ℕ → EnvCall v
  request_cancel_local_activity : v.LocalActivityId → EnvCall v
  execute_child_workflow : ChildParams v → ℕ → EnvCall v
  request_cancel_child_workflow : (namespace workflow_id : String) → EnvCall v
  new_timer : ℤ → ℕ → EnvCall v
  request_cancel_timer : v.TimerId → EnvCall v
  get_version : (change_id : String) (min_supported max_supported : ℤ) → EnvCall v
  side_effect : Option (Payloads v) → ℕ → EnvCall v
  complete : Option (Payloads v) → Option (CompleteError v) → EnvCall v
  upsert_search_attributes : v.SearchAttributes → EnvCall v
  signal_external_workflow :
      SignalExternalWorkflow → Option (Payloads v) → Option v.Header → ℕ → EnvCall v
  request_cancel_external_workflow : (namespace workflow_id run_id : String) → ℕ → EnvCall v
  register_handlers : EnvCall v
  queue_update : String → UpdateRequest v → EnvCall v
  handle_queued_updates : String → EnvCall v
  drain_unhandled_updates : EnvCall v
  reject_update : String → GoError v → EnvCall v
  accept_update : String → EnvCall v
  complete_update : String → Option (Payloads v) → Option (GoError v) → EnvCall v

-- A handler that the environment calls before it returns from a call: the closures that
-- `createCallback`, `createLocalActivityCallback` and `createContinuableCallback` make for a
-- message id, and the one that `handleMessage` makes for a started child. The closures of updates,
-- which the environment runs in `HandleQueuedUpdates` and `DrainUnhandledUpdates`, are the requests
-- that `updates` of the environment gives: Workflow.Update runs them after such a call.
pub data Event (v : Vendor) : Type 0 where
  result : ℕ → Outcome v → Event v
  local_result : ℕ → Outcome v → Event v
  continuable_result : ℕ → Outcome v → Event v
  child_started : ℕ → Started v → Event v

-- A value that goes through the data converter.
pub data Value (v : Vendor) : Type 0 where
  of_version : v.Version → Value v
  of_execution : v.Execution → Value v
  of_string : String → Value v

-- The workflow environment. What it answers is any function of the calls made to it so far, the
-- newest last.
pub record Environment (v : Vendor) : Type 0 where
  pub info : List (EnvCall v) → WorkflowInfo v
  pub now : List (EnvCall v) → String
  pub is_replaying : List (EnvCall v) → Bool
  pub activity_id : List (EnvCall v) → v.ActivityId
  pub local_activity_id : List (EnvCall v) → v.LocalActivityId
  pub timer_id : List (EnvCall v) → Option v.TimerId
  pub version : List (EnvCall v) → v.Version
  pub upsert_error : List (EnvCall v) → Option v.Fault
  pub events : List (EnvCall v) → List (Event v)
  pub updates : List (EnvCall v) → List (UpdateRequest v)
  pub last_completion : Option (Payloads v)
  pub to_payloads : Value v → Result v (Payloads v)
  pub text_of : v.Payload → Result v String

-- What `Exec` of a worker pool gives back: an error, nothing on the channel, or one item of it.
pub data Reply (v : Vendor) : Type 0 where
  refused : v.Fault → Reply v
  no_reply : Reply v
  failed : v.Fault → Reply v
  replied : Payload → Reply v

pub data PoolCall : Type 0 where
  sent : Payload → PoolCall
  stop_stream : PoolCall

-- The codec (common/interfaces.go), as its callers see it.
pub record Codec (v : Vendor) : Type 0 where
  pub encode : Context → Payload → List (Message v) → Payload × Option (GoError v)
  pub decode : Payload → List (Message v) → List (Message v) × Option (GoError v)

-- A reply of the pool is a function of the calls made to it so far; `is_stream` tests the flag
-- `frame.STREAM`, and `itoa` is `strconv.Itoa`.
pub record Services (v : Vendor) : Type 0 where
  pub codec : Codec v
  pub env : Environment v
  pub exec : List PoolCall → Reply v
  pub is_stream : ℕ → Bool
  pub itoa : ℕ → String

-- The closures that `handleMessage` registers with the canceller.
pub data Cancellable (v : Vendor) : Type 0 where
  of_activity : v.ActivityId → Cancellable v
  of_local_activity : v.LocalActivityId → Cancellable v
  of_child : (namespace workflow_id : String) → Cancellable v
  of_timer : Option v.TimerId → Cancellable v

-- `type Workflow struct`. A `Callback` waiting in `callbacks` is the message id and the outcome
-- that its closure captures; a listener in `ids` is the id of the message to answer. `mq` holds
-- the package's sequence counter. `lent` counts the payloads taken from `pldPool` and not put back.
-- `env_log` and `pool_log` are the calls made to the environment and the pool.
pub record Workflow (v : Vendor) : Type 0 where
  pub rr_id : String
  pub header : Option v.Header
  pub mq : MessageQueue v ℕ
  pub ids : IdRegistry (Started v) ℕ
  pub seq_id : ℕ
  pub pipeline : List (Message v)
  pub updates_queue : List String
  pub callbacks : List (ℕ × Outcome v)
  pub canceller : Map (Cancellable v)
  pub in_loop : Bool
  pub lent : ℕ
  pub env_log : List (EnvCall v)
  pub pool_log : List PoolCall
