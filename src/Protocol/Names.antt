-- ===== src/Protocol/Names.antt =====
-- `CommandName` and `InitCommand` of internal/protocol.go.
pub mod Laws
use roadrunner_temporal.Base.{
  ℕ, String, Bool, true, false, Option, none, some, List, [], ◌∷◌, switch, zero,
}
use roadrunner_temporal.Base.Int.{ℤ, pos}
use roadrunner_temporal.Vendor.{Vendor}
use roadrunner_temporal.Errors.{GoError, Result, ok, err, errorf, wrap}
use roadrunner_temporal.Protocol.{
  Command, get_worker_info, invoke_activity, invoke_local_activity, start_workflow, invoke_signal,
  invoke_query, invoke_update, cancel_workflow, destroy_workflow, get_stack_trace, execute_activity,
  execute_local_activity, execute_child_workflow, get_child_workflow_execution, new_timer,
  side_effect, get_version, complete_workflow, continue_as_new, upsert_workflow_search_attributes,
  signal_external_workflow, cancel_external_workflow, undefined_response, cancel, panic, Dynamic,
  value, pointer, foreign,
}

-- The names of the `switch` in `CommandName`; `none` is its default case.
unfoldable pub name_of : {v : Vendor} → Command v → Option String
name_of (get_worker_info _) = some "GetWorkerInfo"
name_of (start_workflow _ _) = some "StartWorkflow"
name_of (invoke_signal _ _) = some "InvokeSignal"
name_of (invoke_query _ _) = some "InvokeQuery"
name_of (destroy_workflow _) = some "DestroyWorkflow"
name_of (cancel_workflow _) = some "CancelWorkflow"
name_of (get_stack_trace _) = some "StackTrace"
name_of (invoke_activity _ _ _) = some "InvokeActivity"
name_of (execute_activity _ _) = some "ExecuteActivity"
name_of (invoke_local_activity _ _) = some "InvokeLocalActivity"
name_of (execute_local_activity _ _) = some "ExecuteLocalActivity"
name_of (execute_child_workflow _ _) = some "ExecuteChildWorkflow"
name_of (get_child_workflow_execution _) = some "GetChildWorkflowExecution"
name_of (new_timer _) = some "NewTimer"
name_of (get_version _ _ _) = some "GetVersion"
name_of side_effect = some "SideEffect"
name_of complete_workflow = some "CompleteWorkflow"
name_of (continue_as_new _ _) = some "ContinueAsNew"
name_of (upsert_workflow_search_attributes _) = some "UpsertWorkflowSearchAttributes"
name_of (signal_external_workflow _) = some "SignalExternalWorkflow"
name_of (cancel_external_workflow _ _ _) = some "CancelExternalWorkflow"
name_of (cancel _) = some "Cancel"
name_of (panic _) = some "Panic"
name_of (invoke_update _) = some "InvokeUpdate"
name_of (undefined_response _) = none

abbrev pub named : {v : Vendor} → Option String → String → Result v String
named (some name) shown = ok name
named none shown = err (wrap "command_name" (errorf "undefined command type: %s" shown))

-- `show` is the text that `%s` makes of a command.
unfoldable pub command_name : {v : Vendor} → (Dynamic v → String) → Dynamic v → Result v String
unfolding name_of
command_name show (value c) = named (name_of c) (show (value c))
command_name show (pointer c) = named (name_of c) (show (pointer c))
command_name show (foreign t) = named none (show (foreign t))

-- The zero values of the structs, by the names of the `switch` in `InitCommand`.
module _ (v : Vendor) where
  unfoldable pub zero_commands : List (String × Command v)
  zero_commands =
      ("GetWorkerInfo", get_worker_info "")
      ∷ ("StartWorkflow", start_workflow none 0)
      ∷ ("InvokeSignal", invoke_signal "" "")
      ∷ ("InvokeQuery", invoke_query "" "")
      ∷ ("DestroyWorkflow", destroy_workflow "")
      ∷ ("CancelWorkflow", cancel_workflow "")
      ∷ ("StackTrace", get_stack_trace "")
      ∷ (
        "InvokeActivity",
        invoke_activity ""
            (record { activity_type = ""; task_queue = ""; task_token = ""; rest = v.no_info_rest })
            0,
      )
      ∷ (
        "ExecuteActivity",
        execute_activity "" (record { task_queue_name = ""; rest = v.no_activity_rest }),
      )
      ∷ (
        "ExecuteLocalActivity",
        execute_local_activity "" (record {
          schedule_to_close_timeout = pos 0;
          start_to_close_timeout = pos 0;
          retry_policy = none;
        }),
      )
      ∷ (
        "ExecuteChildWorkflow",
        execute_child_workflow "" (record {
          task_queue_name = "";
          workflow_id = "";
          namespace = "";
          rest = v.no_child_rest;
        }),
      )
      ∷ ("GetChildWorkflowExecution", get_child_workflow_execution 0)
      ∷ ("NewTimer", new_timer (pos 0))
      ∷ ("GetVersion", get_version "" (pos 0) (pos 0))
      ∷ ("SideEffect", side_effect)
      ∷ ("CompleteWorkflow", complete_workflow)
      ∷ (
        "ContinueAsNew",
        continue_as_new "" (record {
          task_queue_name = "";
          workflow_run_timeout = pos 0;
          workflow_task_timeout = pos 0;
        }),
      )
      ∷ ("UpsertWorkflowSearchAttributes", upsert_workflow_search_attributes v.no_attributes)
      ∷ (
        "SignalExternalWorkflow",
        signal_external_workflow (record {
          namespace = "";
          workflow_id = "";
          run_id = "";
          signal = "";
          child_workflow_only = false;
        }),
      )
      ∷ ("CancelExternalWorkflow", cancel_external_workflow "" "" "")
      ∷ ("Cancel", cancel [])
      ∷ ("Panic", panic "")
      ∷ ("UndefinedResponse", undefined_response "")
      ∷ (
        "InvokeUpdate",
        invoke_update (record { update_id = ""; run_id = ""; name = ""; type = "" }),
      )
      ∷ []

  abbrev pub init_error : String → GoError v
  init_error name =
      wrap "init_command"
        (errorf "undefined command name: %s, possible outdated RoadRunner version" name)

  unfoldable pub init_command : String → Result v (Dynamic v)
  unfolding zero_commands
  init_command name = elim (switch name zero_commands) [
    | none ↦ err (init_error name)
    | some c ↦ ok (pointer c)
  ]
