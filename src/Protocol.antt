-- ===== src/Protocol.antt =====
-- internal/protocol.go: the commands exchanged with the PHP worker, and the message around them.
-- A command's struct is a record with the struct's name; `Command` is the set of all of them.
pub mod Names
pub mod Params
use roadrunner_temporal.Base.{ℕ, String, Bool, true, false, Option, none, some, List, [], str_eq}
use roadrunner_temporal.Base.Int.{ℤ}
use roadrunner_temporal.Vendor.{Vendor}

-- `*commonpb.Payloads` without the pointer: its list of payloads.
abbrev pub Payloads : Vendor → Type 0
Payloads v = List v.Payload

pub record Context : Type 0 where
  pub task_queue : String
  pub tick_time : String
  pub replay : Bool
  pub history_len : ℕ
  pub rr_id : String

-- `workflow.Info` and `activity.Info`, by the fields that the program reads.
pub record WorkflowInfo (v : Vendor) : Type 0 where
  pub task_queue_name : String
  pub run_id : String
  pub history_length : ℕ
  pub rest : v.InfoRest

pub record ActivityInfo (v : Vendor) : Type 0 where
  pub activity_type : String
  pub task_queue : String
  pub task_token : String
  pub rest : v.InfoRest

-- `bindings.ExecuteActivityOptions` and `bindings.WorkflowOptions`, likewise.
pub record ActivityOptions (v : Vendor) : Type 0 where
  pub task_queue_name : String
  pub rest : v.ActivityRest

-- `commonpb.RetryPolicy`: an interval is a pointer, of which `AsDuration` is kept.
pub record RetryPolicy (v : Vendor) : Type 0 where
  pub initial_interval : Option ℤ
  pub backoff_coefficient : v.Float64
  pub maximum_interval : Option ℤ
  pub maximum_attempts : ℤ
  pub non_retryable_error_types : List String

pub record LocalActivityOptions (v : Vendor) : Type 0 where
  pub schedule_to_close_timeout : ℤ
  pub start_to_close_timeout : ℤ
  pub retry_policy : Option (RetryPolicy v)

pub record ChildOptions (v : Vendor) : Type 0 where
  pub task_queue_name : String
  pub workflow_id : String
  pub namespace : String
  pub rest : v.ChildRest

pub record ContinueOptions : Type 0 where
  pub task_queue_name : String
  pub workflow_run_timeout : ℤ
  pub workflow_task_timeout : ℤ

pub record InvokeUpdate : Type 0 where
  pub update_id : String
  pub run_id : String
  pub name : String
  pub type : String

pub record SignalExternalWorkflow : Type 0 where
  pub namespace : String
  pub workflow_id : String
  pub run_id : String
  pub signal : String
  pub child_workflow_only : Bool

pub data Command (v : Vendor) : Type 0 where
  get_worker_info : (rr_version : String) → Command v
  invoke_activity : (name : String) (info : ActivityInfo v) (heartbeat_details : ℕ) → Command v
  invoke_local_activity : (name : String) (info : ActivityInfo v) → Command v
  start_workflow : (info : Option (WorkflowInfo v)) (last_completion : ℕ) → Command v
  invoke_signal : (run_id name : String) → Command v
  invoke_query : (run_id name : String) → Command v
  invoke_update : InvokeUpdate → Command v
  cancel_workflow : (run_id : String) → Command v
  destroy_workflow : (run_id : String) → Command v
  get_stack_trace : (run_id : String) → Command v
  execute_activity : (name : String) (options : ActivityOptions v) → Command v
  execute_local_activity : (name : String) (options : LocalActivityOptions v) → Command v
  execute_child_workflow : (name : String) (options : ChildOptions v) → Command v
  get_child_workflow_execution : (id : ℕ) → Command v
  new_timer : (milliseconds : ℤ) → Command v
  side_effect : Command v
  get_version : (change_id : String) (min_supported max_supported : ℤ) → Command v
  complete_workflow : Command v
  continue_as_new : (name : String) (options : ContinueOptions) → Command v
  upsert_workflow_search_attributes : v.SearchAttributes → Command v
  signal_external_workflow : SignalExternalWorkflow → Command v
  cancel_external_workflow : (namespace workflow_id run_id : String) → Command v
  undefined_response : (message : String) → Command v
  cancel : (command_ids : List ℕ) → Command v
  panic : (message : String) → Command v

-- The dynamic type of a non-nil `any`: a command struct, a pointer to one, or some other type,
-- shown by its `%s`.
pub data Dynamic (v : Vendor) : Type 0 where
  value : Command v → Dynamic v
  pointer : Command v → Dynamic v
  foreign : String → Dynamic v

pub record Message (v : Vendor) : Type 0 where
  pub id : ℕ
  pub command : Option (Dynamic v)
  pub failure : Option v.Failure
  pub payloads : Option (Payloads v)
  pub header : Option v.Header

-- `&internal.Message{}`, and what `Reset` makes of a message.
abbrev pub empty_message : (v : Vendor) → Message v
empty_message v = record { id = 0; command = none; failure = none; payloads = none; header = none }

unfoldable pub is_empty : Context → Bool
is_empty ctx = str_eq ctx.task_queue ""

unfoldable pub is_command : {v : Vendor} → Message v → Bool
is_command msg = elim msg.command [ none ↦ false | some c ↦ true ]

abbrev pub is_undefined : {v : Vendor} → Option (Dynamic v) → Bool
is_undefined (some (pointer (undefined_response m))) = true
is_undefined _ = false

-- `UndefinedResponse()`.
unfoldable pub undefined_response? : {v : Vendor} → Message v → Bool
undefined_response? msg = is_undefined msg.command
