-- ===== src/Workflow/Handle.antt =====
-- `handleMessage` of aggregatedpool/handler.go: the commands that the worker sends to the workflow.
-- The debug logging is left out.
pub mod Cancelling
pub mod Moves
pub mod Logging
pub mod Calls
pub mod Cancelled
use Prim.Native.String.{◌++◌ as str_append}
use roadrunner_temporal.Base.{
  ℕ, String, ◌+◌, ◌%◌, Bool, true, false, Option, none, some, List, [], ◌∷◌, ◌++◌, Map,
  if◌then◌else◌, str_eq,
}
use roadrunner_temporal.Vendor.{Vendor}
use roadrunner_temporal.Errors.{GoError, Result, ok, err, fault, str, wrap}
use roadrunner_temporal.Protocol.{
  Payloads, Message, Command, execute_activity, execute_local_activity, execute_child_workflow,
  get_child_workflow_execution, new_timer, get_version, side_effect, complete_workflow,
  continue_as_new, upsert_workflow_search_attributes, signal_external_workflow,
  cancel_external_workflow, cancel, panic, ActivityOptions, LocalActivityOptions, ChildOptions,
  ContinueOptions, Dynamic, value, pointer, foreign,
}
use roadrunner_temporal.Protocol.Params.{
  ChildParams, activity_params, local_activity_params, workflow_params, to_duration,
}
use roadrunner_temporal.Queue
use roadrunner_temporal.Canceller
use roadrunner_temporal.Canceller.{Host}
use roadrunner_temporal.Registry
use roadrunner_temporal.Exec.{
  Exit, returns, stops, Stop, error, Exec, pure, fail, gets, modify, lift, or_stop, ◌>>=◌, ◌>>◌,
  wrapping,
}
use roadrunner_temporal.Workflow.{
  Workflow, Services, Environment, Outcome, Started, CompleteError, of_fault, of_continue,
  ContinueAsNewError, EnvCall, Value, of_version, of_string, Cancellable, of_activity,
  of_local_activity, of_child, of_timer,
}
use roadrunner_temporal.Workflow.Exchange.{Method, flush_queue}
use roadrunner_temporal.Workflow.Callbacks.{call, notify}

-- `const completed`.
abbrev pub completed : String
completed = "completed"

module _ {v : Vendor} where
  abbrev pub register : ℕ → Cancellable v → Workflow v → Workflow v
  register id c w = record w { canceller = Canceller.register id c w.canceller }

  abbrev pub respond : ℕ → Option (Payloads v) → Workflow v → Workflow v
  respond id p w = record w { mq = Queue.push_response id p w.mq }

  -- `result, _ := m`.
  abbrev pub ignoring : {A : Type 0} → Result v A → Option A
  ignoring (ok a) = some a
  ignoring (err e) = none

module _ {v : Vendor} (s : Services v) where
  -- The closures registered with the canceller; those of this program return no error.
  unfoldable pub run_cancellable : Cancellable v → Method v (Unit {0})
  run_cancellable (of_activity a) = call s (EnvCall.request_cancel_activity a)
  run_cancellable (of_local_activity a) = call s (EnvCall.request_cancel_local_activity a)
  run_cancellable (of_child namespace workflow_id) =
      call s (EnvCall.request_cancel_child_workflow namespace workflow_id)
  run_cancellable (of_timer none) = pure tt
  run_cancellable (of_timer (some t)) = call s (EnvCall.request_cancel_timer t)

  abbrev pub stopped : Exit v (Unit {0}) → Option (Stop v)
  stopped (returns a) = none
  stopped (stops x) = some x

  -- The workflow as the place where its canceller lives.
  unfoldable pub host : Host (Cancellable v) (Stop v) (Workflow v)
  host = record {
    ids = λ w. w.canceller;
    with_ids = λ ids w. record w { canceller = ids };
    call = λ c w. let (r, w') = run_cancellable c w in (stopped r, w');
  }

  handle_activity : String → ActivityOptions v → Message v → Method v (Unit {0})
  handle_activity name options msg = do
    info ← gets (λ w. s.env.info w.env_log)
    call s (
        EnvCall.execute_activity (activity_params info name options msg.payloads msg.header) msg.id)
    modify (λ w. register msg.id (of_activity (s.env.activity_id w.env_log)) w)

  handle_local_activity : String → LocalActivityOptions v → Message v → Method v (Unit {0})
  handle_local_activity name options msg = do
    info ← gets (λ w. s.env.info w.env_log)
    call s (
        EnvCall.execute_local_activity
          (local_activity_params info name options msg.payloads msg.header) msg.id)
    modify (λ w. register msg.id (of_local_activity (s.env.local_activity_id w.env_log)) w)

  -- A child with no workflow id gets the run id and the next number of the workflow.
  unfoldable pub child_id : ChildParams v → Workflow v → ChildParams v × Workflow v
  child_id params w =
      if str_eq params.options.workflow_id ""
      then (let n = (w.seq_id + 1) % 18446744073709551616 in
          let run = (s.env.info w.env_log).run_id in
          (
            record params {
              options = record params.options {
                workflow_id = str_append run (str_append "_" (s.itoa n));
              };
            },
            record w { seq_id = n },
          ))
      else (params, w)

  handle_child : String → ChildOptions v → Message v → Method v (Unit {0})
  unfolding child_id
  handle_child name options msg = do
    info ← gets (λ w. s.env.info w.env_log)
    params ← λ w.
        (let (p, w') = child_id (workflow_params info name options msg.payloads msg.header) w in
          (returns p, w'))
    call s (EnvCall.execute_child_workflow params msg.id)
    modify (register msg.id (of_child params.options.namespace params.options.workflow_id))

  handle_get_child : ℕ → Message v → Method v (Unit {0})
  handle_get_child id msg w =
      let (notice, ids) = Registry.listen id msg.id w.ids in
      notify s notice (record w { ids = ids })

  handle_version : EnvCall v → Message v → Method v (Unit {0})
  handle_version c msg = do
    call s c
    version ← gets (λ w. s.env.version w.env_log)
    p ← lift (s.env.to_payloads (of_version version))
    modify (respond msg.id (some p))
    flush_queue s

  -- The response to a command that needs no answer of its own.
  abbrev pub complete_response : Message v → Workflow v → Workflow v
  complete_response msg = respond msg.id (ignoring (s.env.to_payloads (of_string completed)))

  abbrev pub completion : Message v → Option v.Failure → EnvCall v
  completion msg none = EnvCall.complete msg.payloads none
  completion msg (some f) = EnvCall.complete none (some (of_fault (v.failure_to_error f)))

  abbrev pub continuation : String → ContinueOptions → Message v → EnvCall v
  continuation name options msg = EnvCall.complete none (
      some (
        of_continue (record {
          workflow_type = name;
          input = msg.payloads;
          header = msg.header;
          task_queue_name = options.task_queue_name;
          workflow_run_timeout = options.workflow_run_timeout;
          workflow_task_timeout = options.workflow_task_timeout;
        })))

  handle_cancel : List ℕ → Message v → Method v (Unit {0})
  unfolding host
  handle_cancel ids msg = do
    λ w. or_stop (Canceller.cancel host ids w)
    modify (complete_response msg)
    flush_queue s

  abbrev pub upsert_result : Option v.Fault → Method v (Unit {0})
  upsert_result none = pure tt
  upsert_result (some f) = fail (wrap "handleMessage" (fault f))

  abbrev pub fault_or_nil : Option v.Fault → Method v (Unit {0})
  fault_or_nil none = pure tt
  fault_or_nil (some f) = fail (fault f)

  -- `return FailureToError(msg.Failure)`, not wrapped.
  abbrev pub panic_error : Option v.Failure → Method v (Unit {0})
  panic_error none = fault_or_nil v.nil_failure_error
  panic_error (some f) = fail (fault (v.failure_to_error f))

  handle_pointer : Command v → Message v → Method v (Unit {0})
  unfolding handle_activity handle_local_activity handle_child handle_get_child handle_version
      handle_cancel
  handle_pointer (execute_activity name options) msg = handle_activity name options msg
  handle_pointer (execute_local_activity name options) msg = handle_local_activity name options msg
  handle_pointer (execute_child_workflow name options) msg = handle_child name options msg
  handle_pointer (get_child_workflow_execution id) msg = handle_get_child id msg
  handle_pointer (new_timer ms) msg = do
    call s (EnvCall.new_timer (to_duration ms) msg.id)
    modify (λ w. register msg.id (of_timer (s.env.timer_id w.env_log)) w)
  handle_pointer (get_version change_id min max) msg =
      wrapping "handleMessage" (handle_version (EnvCall.get_version change_id min max) msg)
  handle_pointer side_effect msg = call s (EnvCall.side_effect msg.payloads msg.id)
  handle_pointer complete_workflow msg = do
    modify (complete_response msg)
    call s (completion msg msg.failure)
  handle_pointer (continue_as_new name options) msg = do
    modify (complete_response msg)
    call s (continuation name options msg)
  handle_pointer (upsert_workflow_search_attributes attributes) msg = do
    call s (EnvCall.upsert_search_attributes attributes)
    λ w. upsert_result (s.env.upsert_error w.env_log) w
  handle_pointer (signal_external_workflow c) msg =
      call s (EnvCall.signal_external_workflow c msg.payloads msg.header msg.id)
  handle_pointer (cancel_external_workflow namespace workflow_id run_id) msg =
      call s (EnvCall.request_cancel_external_workflow namespace workflow_id run_id msg.id)
  handle_pointer (cancel ids) msg = wrapping "handleMessage" (handle_cancel ids msg)
  handle_pointer (panic message) msg = panic_error msg.failure
  handle_pointer _ msg = fail (wrap "handleMessage" (str "undefined command"))

  handle_dynamic : Option (Dynamic v) → Message v → Method v (Unit {0})
  unfolding handle_pointer
  handle_dynamic (some (pointer c)) msg = handle_pointer c msg
  handle_dynamic _ msg = fail (wrap "handleMessage" (str "undefined command"))

  unfoldable pub handle_message : Message v → Method v (Unit {0})
  unfolding handle_dynamic
  handle_message msg = handle_dynamic msg.command msg
