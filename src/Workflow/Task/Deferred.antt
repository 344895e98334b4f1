-- ===== src/Workflow/Task/Deferred.antt =====
-- Results that reach aggregatedpool/handler.go between two tasks, and their answers in the next.
use roadrunner_temporal.Base.{
  ℕ, ◌≡◌, refl, sym, ap, ◌∙◌, false, Option, none, some, List, [], ◌∷◌, ◌++◌, map, All, arith,
  append-nil, append_assoc, if_false,
}
use roadrunner_temporal.Vendor.{Vendor}
use roadrunner_temporal.Protocol.{Message}
use roadrunner_temporal.Queue.{push_response, push_error}
use roadrunner_temporal.Canceller.{discard}
use roadrunner_temporal.Workflow.{Workflow, Outcome}
use roadrunner_temporal.Workflow.Callbacks.{answer, run_callback, callback}
use roadrunner_temporal.Workflow.Task.{run_callbacks}

module _ {v : Vendor} where
  -- The message that answers the command `id` with an outcome: its error, or else its result.
  abbrev pub answer_of : ℕ → Option v.Fault → Outcome v → Message v
  answer_of id (some e) o = record {
    id = id;
    command = none;
    failure = some (v.error_to_failure e);
    payloads = none;
    header = none;
  }
  answer_of id none o = record {
    id = id;
    command = none;
    failure = none;
    payloads = o.result;
    header = none;
  }

  abbrev pub answer_to : ℕ × Outcome v → Message v
  answer_to (id, o) = answer_of id o.err o

  -- The results arrive one by one.
  abbrev pub arrive : List (ℕ × Outcome v) → Workflow v → Workflow v
  arrive [] w = w
  arrive ((id, o) ∷ os) w = arrive os (callback id o w)

  callback_outside :
      (id : ℕ) (o : Outcome v) (w : Workflow v)
      → w.in_loop ≡ false
      → callback id o w ≡ record w { callbacks = w.callbacks ++ (id, o) ∷ [] }
  unfolding callback
  callback_outside id o w e = if_false _ _ e

  arrive_outside :
      (os : List (ℕ × Outcome v)) (w : Workflow v)
      → w.in_loop ≡ false
      → arrive os w ≡ record w { callbacks = w.callbacks ++ os }
  arrive_outside [] w e = λ i. record w { callbacks = sym (append-nil w.callbacks) i }
  arrive_outside ((id, o) ∷ os) w e =
      ap (arrive os) (callback_outside id o w e)
      ∙ arrive_outside os (record w { callbacks = w.callbacks ++ (id, o) ∷ [] }) e
      ∙ λ i. record w { callbacks = append_assoc w.callbacks ((id, o) ∷ []) os i }

  answered_queue :
      (id : ℕ) (o : Outcome v) (e : Option v.Fault) (w : Workflow v)
      → (answer id e o.result w.mq).queue ≡ w.mq.queue ++ answer_of id e o ∷ []
  unfolding push_response push_error
  answered_queue id o none w = refl
  answered_queue id o (some e) w = refl

  run_callbacks-queue :
      (os : List (ℕ × Outcome v)) (w : Workflow v)
      → (run_callbacks os w).mq.queue ≡ w.mq.queue ++ map answer_to os
  unfolding run_callbacks run_callback
  run_callbacks-queue [] w = sym (append-nil w.mq.queue)
  run_callbacks-queue ((id, o) ∷ os) w =
      run_callbacks-queue os (run_callback id o w)
      ∙ ap (λ (q : List (Message v)). q ++ map answer_to os) (answered_queue id o o.err w)
      ∙ append_assoc w.mq.queue (answer_to (id, o) ∷ []) (map answer_to os)

  run_callbacks-absent :
      (os : List (ℕ × Outcome v)) (w : Workflow v) (j : ℕ)
      → w.canceller j ≡ none
      → (run_callbacks os w).canceller j ≡ none
  unfolding run_callbacks run_callback discard
  run_callbacks-absent [] w j e = e
  run_callbacks-absent ((id, o) ∷ os) w j e =
      run_callbacks-absent os (run_callback id o w) j (ground arith)

  run_callbacks-discards :
      (os : List (ℕ × Outcome v)) (w : Workflow v)
      → All (λ p. (run_callbacks os w).canceller p.0 ≡ none) os
  unfolding run_callbacks run_callback discard
  run_callbacks-discards [] w = tt
  run_callbacks-discards ((id, o) ∷ os) w = (
    run_callbacks-absent os (run_callback id o w) id (ground arith),
    run_callbacks-discards os (run_callback id o w),
  )

  -- Results that arrive between two tasks, when no callback waits yet, change nothing at once: each
  -- waits, in the order of arrival. When the next task runs the waiting callbacks, the queue gets
  -- exactly one answer for each, in that order, under the id of the command that it answers, and
  -- none of these ids is registered with the canceller any more.
  pub arrive-answers :
      (os : List (ℕ × Outcome v)) (w : Workflow v)
      → w.in_loop ≡ false
      → w.callbacks ≡ []
      → (arrive os w ≡ record w { callbacks = os })
        × ((run_callbacks os (arrive os w)).mq.queue ≡ w.mq.queue ++ map answer_to os)
        × All (λ p. (run_callbacks os (arrive os w)).canceller p.0 ≡ none) os
  arrive-answers os w e c =
      let a : arrive os w ≡ record w { callbacks = os } =
        arrive_outside os w e
        ∙ ap (λ (l : List (ℕ × Outcome v)). record w { callbacks = l ++ os }) c in
      (
        a,
        run_callbacks-queue os (arrive os w)
            ∙ ap (λ (u : Workflow v). u.mq.queue ++ map answer_to os) a,
        run_callbacks-discards os (arrive os w),
      )
