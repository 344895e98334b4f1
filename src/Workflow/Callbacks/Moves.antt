-- ===== src/Workflow/Callbacks/Moves.antt =====
-- What holds of every handler that the environment of aggregatedpool/handler.go runs, if it holds
-- of an exchange, of an answer, of a callback put off, and of a change of the registry.
use roadrunner_temporal.Base.{
  ℕ, ◌≡◌, refl, Bool, true, false, Option, none, some, List, [], ◌∷◌, ◌++◌, if◌then◌else◌,
}
use roadrunner_temporal.Vendor.{Vendor}
use roadrunner_temporal.Errors.{Result, ok, err}
use roadrunner_temporal.Protocol.{Payloads}
use roadrunner_temporal.Registry
use roadrunner_temporal.Registry.{IdRegistry}
use roadrunner_temporal.Exec.{modify}
use roadrunner_temporal.Exec.Steps.{
  IsPreorder, Steps, Steps-pure, Steps-stop, Steps-modify, Steps-bind, Steps-or_panic,
}
use roadrunner_temporal.Workflow.{
  Workflow, Services, Outcome, Started, EnvCall, Event, result, local_result, continuable_result,
  child_started, of_execution,
}
use roadrunner_temporal.Workflow.Exchange.{flush_queue}
use roadrunner_temporal.Workflow.Callbacks.{
  run_callback, callback, local_activity_callback, after_error, continuable_callback, converted,
  tell, notify, push_started, handle_event, handle_events, call,
}

pub record Answering {v : Vendor} (s : Services v) (R : Workflow v → Workflow v → Type 0)
    : Type 0 where
  pub preorder : IsPreorder R
  pub flushes : Steps R (flush_queue s)
  pub answers : (id : ℕ) (o : Outcome v) (w : Workflow v) → R w (run_callback id o w)
  pub defers :
      (id : ℕ) (o : Outcome v) (w : Workflow v)
      → w.in_loop ≡ false
      → R w (record w { callbacks = w.callbacks ++ (id, o) ∷ [] })
  pub rebinds : (w : Workflow v) (ids : IdRegistry (Started v) ℕ) → R w (record w { ids = ids })

-- A coarser relation.
pub Answering_map :
    {v : Vendor} (s : Services v) {R R' : Workflow v → Workflow v → Type 0}
    → IsPreorder R'
    → ((w w' : Workflow v) → R w w' → R' w w')
    → Answering s R
    → Answering s R'
Answering_map s p f k = record {
  preorder = p;
  flushes = record { at = λ w. f w _ (k.flushes.at w) };
  answers = λ id o w. f w _ (k.answers id o w);
  defers = λ id o w e. f w _ (k.defers id o w e);
  rebinds = λ w ids. f w _ (k.rebinds w ids);
}

module _ {v : Vendor} (s : Services v) {R : Workflow v → Workflow v → Type 0}
    (k : Answering s R) where
  -- A callback runs inside the loop and waits outside it.
  deferral :
      (id : ℕ) (o : Outcome v) (w : Workflow v) (b : Bool)
      → w.in_loop ≡ b
      → R w
          (if b then run_callback id o w else record w { callbacks = w.callbacks ++ (id, o) ∷ [] })
  deferral id o w true e = k.answers id o w
  deferral id o w false e = k.defers id o w e

  callback_moves : (id : ℕ) (o : Outcome v) (w : Workflow v) → R w (callback id o w)
  unfolding callback
  callback_moves id o w = deferral id o w w.in_loop refl

  local_activity_callback_moves :
      (id : ℕ) (o : Outcome v) (w : Workflow v) → R w (local_activity_callback id o w)
  unfolding local_activity_callback
  local_activity_callback_moves id o w = deferral id o w w.in_loop refl

  after_error_moves : (e : Option v.Fault) → Steps R (after_error s e)
  after_error_moves none = Steps-or_panic k.preorder (flush_queue s) k.flushes
  after_error_moves (some e) = Steps-pure k.preorder tt

  continuable_callback_moves : (id : ℕ) (o : Outcome v) → Steps R (continuable_callback s id o)
  unfolding continuable_callback
  continuable_callback_moves id o =
      Steps-bind k.preorder (modify (run_callback id o)) (λ _. after_error s o.err)
        (Steps-modify k.preorder (run_callback id o) (k.answers id o))
        (λ _. after_error_moves o.err)

  converted_moves : (id : ℕ) (r : Result v (Payloads v)) → Steps R (converted s id r)
  converted_moves id (ok p) = Steps-modify k.preorder _ (callback_moves id _)
  converted_moves id (err e) = Steps-stop k.preorder _

  tell_moves : (id : ℕ) (e : Option v.Fault) (x : v.Execution) → Steps R (tell s id e x)
  tell_moves id (some e) x = Steps-modify k.preorder _ (callback_moves id _)
  tell_moves id none x = converted_moves id (s.env.to_payloads (of_execution x))

  pub notify_moves : (n : Option (ℕ × Started v)) → Steps R (notify s n)
  unfolding notify
  notify_moves none = Steps-pure k.preorder tt
  notify_moves (some (id, started)) = tell_moves id started.err started.execution

  -- A new registry, and then what it says is to be told.
  pub rebound_moves :
      (notice : Option (ℕ × Started v)) (ids : IdRegistry (Started v) ℕ) (w : Workflow v)
      → R w (notify s notice (record w { ids = ids })).1
  rebound_moves notice ids w =
      k.preorder.both w (record w { ids = ids }) _ (k.rebinds w ids)
        ((notify_moves notice).at (record w { ids = ids }))

  push_started_moves : (id : ℕ) (started : Started v) → Steps R (push_started s id started)
  unfolding push_started
  push_started_moves id started = record {
    at = λ w. let (notice, ids) = Registry.push id started w.ids in rebound_moves notice ids w;
  }

  handle_event_moves : (e : Event v) → Steps R (handle_event s e)
  unfolding handle_event
  handle_event_moves (result id o) = Steps-modify k.preorder _ (callback_moves id o)
  handle_event_moves (local_result id o) =
      Steps-modify k.preorder _ (local_activity_callback_moves id o)
  handle_event_moves (continuable_result id o) = continuable_callback_moves id o
  handle_event_moves (child_started id started) = push_started_moves id started

  pub handle_events_moves : (es : List (Event v)) → Steps R (handle_events s es)
  unfolding handle_events
  handle_events_moves [] = Steps-pure k.preorder tt
  handle_events_moves (e ∷ es) =
      Steps-bind k.preorder (handle_event s e) (λ _. handle_events s es) (handle_event_moves e)
        (λ _. handle_events_moves es)

  -- A call moves along the relation if the log may grow along it.
  pub call_moves :
      ((c : EnvCall v) (w : Workflow v) → R w (record w { env_log = w.env_log ++ c ∷ [] }))
      → (c : EnvCall v) → Steps R (call s c)
  unfolding call
  call_moves logs c = record {
    at = λ w.
        let w' = record w { env_log = w.env_log ++ c ∷ [] } in
        k.preorder.both w w' _ (logs c w) ((handle_events_moves (s.env.events w'.env_log)).at w');
  }
