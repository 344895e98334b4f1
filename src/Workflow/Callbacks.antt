-- ===== src/Workflow/Callbacks.antt =====
-- The callbacks of aggregatedpool/handler.go, and the calls of the environment that run them.
pub mod Moves
pub mod Laws
use roadrunner_temporal.Base.{
  ℕ, String, Bool, true, false, Option, none, some, List, [], ◌∷◌, ◌++◌, if◌then◌else◌,
}
use roadrunner_temporal.Vendor.{Vendor}
use roadrunner_temporal.Errors.{GoError, Result, ok, err}
use roadrunner_temporal.Protocol.{Payloads}
use roadrunner_temporal.Queue
use roadrunner_temporal.Queue.{MessageQueue}
use roadrunner_temporal.Canceller
use roadrunner_temporal.Registry
use roadrunner_temporal.Registry.{IdRegistry}
use roadrunner_temporal.Exec.{
  Exit, returns, stops, Stop, error, panics, of_error, Exec, pure, stop, modify, ◌>>=◌, ◌>>◌,
  or_panic,
}
use roadrunner_temporal.Workflow.{
  Workflow, Services, Environment, Outcome, Started, EnvCall, Event, result, local_result,
  continuable_result, child_started, Value, of_execution,
}
use roadrunner_temporal.Workflow.Exchange.{Method, flush_queue}

module _ {v : Vendor} where
  abbrev pub answer : ℕ → Option v.Fault → Option (Payloads v) → MessageQueue v ℕ → MessageQueue v ℕ
  answer id (some e) payloads = Queue.push_error id (some (v.error_to_failure e))
  answer id none payloads = Queue.push_response id payloads

  -- The `callback` inside `createCallback` and `createLocalActivityCallback`.
  unfoldable pub run_callback : ℕ → Outcome v → Workflow v → Workflow v
  run_callback id o w = record w {
    canceller = Canceller.discard id w.canceller;
    mq = answer id o.err o.result w.mq;
  }

  -- What `createCallback` returns: inside the loop it runs, outside it waits.
  unfoldable pub callback : ℕ → Outcome v → Workflow v → Workflow v
  unfolding run_callback
  callback id o w =
      if w.in_loop
      then run_callback id o w
      else record w { callbacks = w.callbacks ++ (id, o) ∷ [] }

  -- What `createLocalActivityCallback` returns; `lar.Err` and `lar.Result` are the outcome.
  unfoldable pub local_activity_callback : ℕ → Outcome v → Workflow v → Workflow v
  unfolding run_callback
  local_activity_callback id o w =
      if w.in_loop
      then run_callback id o w
      else record w { callbacks = w.callbacks ++ (id, o) ∷ [] }

module _ {v : Vendor} (s : Services v) where
  abbrev pub after_error : Option v.Fault → Method v (Unit {0})
  after_error (some e) = pure tt
  after_error none = or_panic (flush_queue s)

  -- What `createContinuableCallback` returns: a response is sent at once.
  unfoldable pub continuable_callback : ℕ → Outcome v → Method v (Unit {0})
  unfolding run_callback
  continuable_callback id o = modify (run_callback id o) >> after_error o.err

  abbrev pub converted : ℕ → Result v (Payloads v) → Method v (Unit {0})
  converted id (ok p) = modify (callback id (record { result = some p; err = none }))
  converted id (err e) = stop (panics (of_error e))

  abbrev pub tell : ℕ → Option v.Fault → v.Execution → Method v (Unit {0})
  tell id (some e) x = modify (callback id (record { result = none; err = some e }))
  tell id none x = converted id (s.env.to_payloads (of_execution x))

  -- The listener that `handleMessage` makes for `GetChildWorkflowExecution`, if one is to be called.
  unfoldable pub notify : Option (ℕ × Started v) → Method v (Unit {0})
  unfolding callback
  notify none = pure tt
  notify (some (id, started)) = tell id started.err started.execution

  -- `wp.ids.Push(msg.ID, r, e)`, when a child has started.
  unfoldable pub push_started : ℕ → Started v → Method v (Unit {0})
  unfolding notify
  push_started id started w =
      let (notice, ids) = Registry.push id started w.ids in notify notice (record w { ids = ids })

  unfoldable pub handle_event : Event v → Method v (Unit {0})
  unfolding callback local_activity_callback continuable_callback push_started
  handle_event (result id o) = modify (callback id o)
  handle_event (local_result id o) = modify (local_activity_callback id o)
  handle_event (continuable_result id o) = continuable_callback id o
  handle_event (child_started id started) = push_started id started

  unfoldable pub handle_events : List (Event v) → Method v (Unit {0})
  handle_events [] = pure tt
  handle_events (e ∷ es) = let rest = handle_events es in handle_event e >> rest

  -- A call of the environment: it is logged, and the handlers that it runs are run. The calls that run
  -- the closures of updates too are made by `updating` of Workflow.Update.
  unfoldable pub call : EnvCall v → Method v (Unit {0})
  call c w =
      let w' = record w { env_log = w.env_log ++ c ∷ [] } in
      handle_events (s.env.events w'.env_log) w'
