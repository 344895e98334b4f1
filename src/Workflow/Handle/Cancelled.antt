-- ===== src/Workflow/Handle/Cancelled.antt =====
-- What the command `Cancel` leaves behind (aggregatedpool/handler.go).
use roadrunner_temporal.Base.{ℕ, ◌≡◌, refl, sym, Option, none, some, List, [], ◌∷◌, All, subst}
use roadrunner_temporal.Vendor.{Vendor}
use roadrunner_temporal.Protocol.{Message, cancel, Dynamic, pointer}
use roadrunner_temporal.Exec.{
  Exit, returns, modify, ◌>>◌, continue, or_stop, wrap_exit, Stop, error, panics,
}
use roadrunner_temporal.Workflow.{Workflow, Services}
use roadrunner_temporal.Workflow.Exchange.{Method, flush_queue}
use roadrunner_temporal.Workflow.Callbacks.Laws.{flush_queue-Keeps}
use roadrunner_temporal.Workflow.Handle.{
  complete_response, handle_cancel, handle_pointer, handle_dynamic, handle_message, host,
}
use roadrunner_temporal.Workflow.Handle.Cancelling.{host-IsQuiet}
use roadrunner_temporal.Canceller.{cancel as cancel_ids}
use roadrunner_temporal.Canceller.Laws.{cancel-removes}

module _ {v : Vendor} (s : Services v) where
  -- What follows the canceller in the answer to `Cancel`.
  abbrev answered : Message v → Method v (Unit {0})
  answered msg = modify (complete_response s msg) >> flush_queue s

  abbrev answer_cancel : Message v → Option (Stop v) × Workflow v → Exit v (Unit {0}) × Workflow v
  answer_cancel msg r = let (e, w) = or_stop r in continue e (λ _. answered msg) w

  gone :
      (ids : List ℕ) (w w' : Workflow v)
      → ((id : ℕ) → w.canceller id ≡ none → w'.canceller id ≡ none)
      → All (λ id. w.canceller id ≡ none) ids
      → All (λ id. w'.canceller id ≡ none) ids
  gone [] w w' k a = tt
  gone (id ∷ ids) w w' k a = (k id a.0, gone ids w w' k a.1)

  -- If the command `Cancel` is handled with no error, then none of the ids that it names has a
  -- cancellable any more.
  pub handle_message-cancels :
      (msg : Message v) (ids : List ℕ)
      → msg.command ≡ some (pointer (cancel ids))
      → (w : Workflow v) → (handle_message s msg w).0 ≡ returns tt
      → All (λ id. (handle_message s msg w).1.canceller id ≡ none) ids
  unfolding handle_message handle_dynamic handle_pointer handle_cancel host
  handle_message-cancels msg ids e w =
      subst
        (λ (o : Option (Dynamic v)).
          (handle_dynamic s o msg w).0 ≡ returns tt
          → All (λ id. (handle_dynamic s o msg w).1.canceller id ≡ none) ids)
        (sym e) (fine (cancel_ids (host s) ids w) (cancel-removes (host s) (host-IsQuiet s) ids w))
    where
      fine :
          (r : Option (Stop v) × Workflow v)
          → (r.0 ≡ none → All (λ id. (host s).ids r.1 id ≡ none) ids)
          → wrap_exit "handleMessage" (answer_cancel msg r).0 ≡ returns tt
          → All (λ id. (answer_cancel msg r).1.canceller id ≡ none) ids
      fine (none, w') a h =
          gone ids w' (answered msg w').1
            ((flush_queue-Keeps s).at (complete_response s msg w')).loses.canceller (a refl)
      fine (some (error e), w') a h = cc
      fine (some (panics p), w') a h = cc
