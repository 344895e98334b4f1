-- ===== src/Workflow/Lifecycle.antt =====
-- The rest of the workflow's methods: `Execute`, `StackTrace` and `Close` of
-- aggregatedpool/workflow.go, and the handlers that `Execute` registers, from
-- aggregatedpool/handler.go.
pub mod Laws
pub mod Asked
pub mod Closing
use roadrunner_temporal.Base.{
  ℕ, String, Bool, true, false, Option, none, some, List, [], ◌∷◌, ◌++◌, empty_map, length,
}
use roadrunner_temporal.Vendor.{Vendor}
use roadrunner_temporal.Errors.{GoError, Result, ok, err, fault, wrap}
use roadrunner_temporal.Protocol.{
  Payloads, Message, WorkflowInfo, cancel_workflow, invoke_signal, invoke_query, get_stack_trace,
  destroy_workflow, start_workflow, Dynamic, value,
}
use roadrunner_temporal.Queue
use roadrunner_temporal.Queue.{new_message_queue, push_command, seq}
use roadrunner_temporal.Registry.{new_registry}
use roadrunner_temporal.Exec.{
  Exec, Exit, returns, stops, pure, fail, gets, modify, ◌>>=◌, ◌>>◌, wrapping, catch,
}
use roadrunner_temporal.Workflow.{
  Workflow, Services, Environment, EnvCall, register_handlers, drain_unhandled_updates,
}
use roadrunner_temporal.Workflow.Exchange.{Method, run_command}
use roadrunner_temporal.Workflow.Callbacks.{call}
use roadrunner_temporal.Workflow.Update.{updating}

module _ {A : Type 0} where
  -- The input with the last completion's payloads behind it, and their number.
  abbrev pub or_empty : Option (List A) → List A
  or_empty none = []
  or_empty (some p) = p

  unfoldable pub with_last : Option (List A) → Option (List A) → Option (List A) × ℕ
  with_last none input = (input, 0)
  with_last (some []) input = (input, 0)
  with_last (some (p ∷ ps)) input = (some (or_empty input ++ p ∷ ps), length (p ∷ ps))

module _ {v : Vendor} where
  -- `&Workflow{...}` by `NewWorkflowDefinition`, with the package's counter and no calls made.
  unfoldable pub new_workflow_definition : String → ℕ → Workflow v
  new_workflow_definition rr_id counter = record {
    rr_id = rr_id;
    header = none;
    mq = new_message_queue counter;
    ids = new_registry;
    seq_id = 0;
    pipeline = [];
    updates_queue = [];
    callbacks = [];
    canceller = empty_map;
    in_loop = false;
    lent = 0;
    env_log = [];
    pool_log = [];
  }

  abbrev pub push : Dynamic v → Option (Payloads v) → Option v.Header → Workflow v → Workflow v
  push c payloads header w = record w { mq = push_command seq c payloads header w.mq }

module _ {v : Vendor} (s : Services v) where
  unfoldable pub execute : Option v.Header → Option (Payloads v) → Method v (Unit {0})
  unfolding with_last
  execute header input = do
    modify (λ w. record w {
      header = header;
      seq_id = 0;
      updates_queue = [];
      canceller = empty_map;
      mq = new_message_queue w.mq.counter;
      ids = new_registry;
    })
    call s register_handlers
    modify (λ w.
        let (input', offset) = with_last s.env.last_completion input in
        push (value (start_workflow (some (s.env.info w.env_log)) offset)) input' w.header w)

  unfoldable pub handle_cancel_request : Method v (Unit {0})
  handle_cancel_request =
      modify (λ w. push (value (cancel_workflow (s.env.info w.env_log).run_id)) none w.header w)

  unfoldable pub handle_signal :
      String → Option (Payloads v) → Option v.Header → Method v (Unit {0})
  handle_signal name input header =
      modify (λ w. push (value (invoke_signal (s.env.info w.env_log).run_id name)) input header w)

  abbrev pub query_result : Option v.Failure → Option (Payloads v) → Method v (Option (Payloads v))
  query_result (some f) payloads =
      fail (wrap "workflow_process_handle_query" (fault (v.failure_to_error f)))
  query_result none payloads = pure payloads

  unfoldable pub handle_query :
      String → Option (Payloads v) → Option v.Header → Method v (Option (Payloads v))
  handle_query query_type args header = do
    rid ← gets (λ w. (s.env.info w.env_log).run_id)
    result ←
        wrapping "workflow_process_handle_query"
          (run_command s (value (invoke_query rid query_type)) args header)
    query_result result.failure result.payloads

  -- The text of a stack trace, or the error whose text `StackTrace` returns in its place.
  pub data Trace : Type 0 where
    text : String → Trace
    error_text : GoError v → Trace

  abbrev pub converted : Result v String → Trace
  converted (ok t) = text t
  converted (err e) = error_text e

  abbrev pub trace_of : Option (Payloads v) → Trace
  trace_of none = text ""
  trace_of (some []) = text ""
  trace_of (some (p ∷ ps)) = converted (s.env.text_of p)

  unfoldable pub stack_trace : Method v Trace
  stack_trace w =
      catch (run_command s (value (get_stack_trace (s.env.info w.env_log).run_id)) none w.header)
        (λ result. pure (trace_of result.payloads)) (λ e. pure (error_text e)) w

  -- `DrainUnhandledUpdates`: the closures of all updates that still wait are run.
  unfoldable pub drain_updates : Method v (Unit {0})
  drain_updates = updating s drain_unhandled_updates

  unfoldable pub close : Method v (Unit {0})
  unfolding drain_updates
  close = do
    drain_updates
    λ w.
        catch (run_command s (value (destroy_workflow (s.env.info w.env_log).run_id)) none w.header)
          (λ result. pure tt) (λ e. pure tt) w
    modify (λ w. record w { mq = Queue.flush w.mq })
