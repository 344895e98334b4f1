-- ===== src/Workflow/Task/Ends.antt =====
-- How `OnWorkflowTaskStarted` of aggregatedpool/workflow.go leaves the workflow, and that it ends.
use roadrunner_temporal.Base.{
  ℕ, zero, suc, ◌≡◌, refl, ◌∙◌, true, false, Option, none, some, List, [], ◌∷◌, Bool-cases, inl,
  inr,
}
use roadrunner_temporal.Vendor.{Vendor}
use roadrunner_temporal.Protocol.{Message, is_command, undefined_response?}
use roadrunner_temporal.Exec.{Exit, returns, stops, error, panics, modify, continue, or_panic}
use roadrunner_temporal.Exec.Steps.{IsPreorder, Steps-bind, Steps-modify, Steps-or_panic}
use roadrunner_temporal.Workflow.{Workflow, Services, Outcome}
use roadrunner_temporal.Workflow.Frame.{Grows, Keeps, Keeps-refl, Keeps-trans}
use roadrunner_temporal.Workflow.Exchange.{Method, flush_queue}
use roadrunner_temporal.Workflow.Callbacks.Laws.{run_callback-Keeps, flush_queue-Keeps}
use roadrunner_temporal.Workflow.Callbacks.{run_callback}
use roadrunner_temporal.Workflow.Handle.{handle_message}
use roadrunner_temporal.Workflow.Handle.Calls.{handle_message-Grows}
use roadrunner_temporal.Workflow.Task.{
  run_callbacks, all_updates, process, on_error, go_on, take_message, pipeline_loop, start_task,
  left?, on_workflow_task_started,
}
use roadrunner_temporal.Workflow.Task.Frame.{all_updates-Grows}

module _ {v : Vendor} where
  -- What `Execute` set and the loop flag stay, and inside the loop no callback is put off.
  pub record Stays (w w' : Workflow v) : Type 0 where
    pub in_loop : w'.in_loop ≡ w.in_loop
    pub header : w'.header ≡ w.header
    pub rr_id : w'.rr_id ≡ w.rr_id
    pub callbacks : w.in_loop ≡ true → w'.callbacks ≡ w.callbacks

  Stays-preorder : IsPreorder {S = Workflow v} Stays
  Stays-preorder = record {
    same = λ w. record { in_loop = refl; header = refl; rr_id = refl; callbacks = λ l. refl };
    both = λ w x y a b. record {
      in_loop = b.in_loop ∙ a.in_loop;
      header = b.header ∙ a.header;
      rr_id = b.rr_id ∙ a.rr_id;
      callbacks = λ l. b.callbacks (a.in_loop ∙ l) ∙ a.callbacks l;
    };
  }

  Grows-Stays : (w w' : Workflow v) → Grows w w' → Stays w w'
  Grows-Stays w w' g = record {
    in_loop = g.in_loop;
    header = g.header;
    rr_id = g.rr_id;
    callbacks = g.callbacks;
  }

  -- An emptied pipeline counts only where the method returned.
  abbrev Emptied : Exit v (Unit {0}) → Workflow v → Type 0
  Emptied (returns u) w = w.pipeline ≡ []
  Emptied (stops x) w = Unit {0}

  abbrev Cleared : Exit v (Unit {0}) × Workflow v → Type 0
  Cleared (returns u, w) = w.updates_queue ≡ []
  Cleared (stops x, w) = Unit {0}

  record Loops (w : Workflow v) (r : Exit v (Unit {0}) × Workflow v) : Type 0 where
    pub stays : Stays w r.1
    pub updates : r.1.updates_queue ≡ w.updates_queue

  opened : Workflow v → Workflow v
  opened w = record (run_callbacks w.callbacks (record w { in_loop = true })) { callbacks = [] }

  continue-Cleared :
      {A : Type 0} (r : Exit v A) (f : A → Method v (Unit {0}))
      → ((a : A) (w : Workflow v) → Cleared (f a w))
      → (w : Workflow v) → Cleared (continue r f w)
  continue-Cleared (returns a) f k w = k a w
  continue-Cleared (stops x) f k w = tt

module _ {v : Vendor} (s : Services v) where
  run_callbacks-Keeps : (cs : List (ℕ × Outcome v)) (w : Workflow v) → Keeps w (run_callbacks cs w)
  unfolding run_callbacks
  run_callbacks-Keeps [] w = Keeps-refl w
  run_callbacks-Keeps ((id, o) ∷ cs) w =
      Keeps-trans w (run_callback id o w) _ (run_callback-Keeps s id o w)
        (run_callbacks-Keeps cs (run_callback id o w))

  on_error-Loops :
      (w : Workflow v) (r : Exit v (Unit {0}) × Workflow v) → Loops w r → Loops w (on_error s r)
  on_error-Loops w (returns u, w') l = l
  on_error-Loops w (stops (panics p), w') l = l
  on_error-Loops w (stops (error e), w') l = record {
    stays = record {
      in_loop = l.stays.in_loop;
      header = l.stays.header;
      rr_id = l.stays.rr_id;
      callbacks = l.stays.callbacks;
    };
    updates = l.updates;
  }

  process-Loops :
      (m : Message v) (ms : List (Message v)) (w : Workflow v)
      → Loops w (process s m (record w { pipeline = ms }))
  unfolding process
  process-Loops m ms w =
      let shorter = record w { pipeline = ms } in
      let same : (p : List (Message v)) → Stays w (record w { pipeline = p }) =
        λ p. record { in_loop = refl; header = refl; rr_id = refl; callbacks = λ l. refl } in
      elim (Bool-cases (is_command m)) [
        | inr e ↦ rw e (record { stays = same ms; updates = refl })
        | inl e ↦ elim (Bool-cases (undefined_response? m)) [
          | inl u ↦ rw (e, u) (record { stays = same []; updates = refl })
          | inr u ↦
              let g = (handle_message-Grows s m).at shorter in
              rw (e, u)
                (on_error-Loops w (handle_message s m shorter) (record {
                  stays = Stays-preorder.both w shorter _ (same ms) (Grows-Stays shorter _ g);
                  updates = g.updates;
                }))
        ]
      ]

  abbrev LoopEnds : Workflow v → Option (Exit v (Unit {0}) × Workflow v) → Type 0
  LoopEnds w none = Unit {0}
  LoopEnds w (some (r, w')) = Loops w (r, w') × Emptied r w'

  loop-weaken :
      (w x : Workflow v) (u : Exit v (Unit {0}))
      → Loops w (u, x)
      → (o : Option (Exit v (Unit {0}) × Workflow v)) → LoopEnds x o
      → LoopEnds w o
  loop-weaken w x u l none e = tt
  loop-weaken w x u l (some (r, w')) (k, e) = (
    record { stays = Stays-preorder.both w x w' l.stays k.stays; updates = k.updates ∙ l.updates },
    e,
  )

  -- The rest of the loop ends well from wherever it goes on.
  module _ (rest : Workflow v → Option (Exit v (Unit {0}) × Workflow v))
      (k : (x : Workflow v) → LoopEnds x (rest x)) where
    go_on-ends :
        (w : Workflow v) (r : Exit v (Unit {0}) × Workflow v)
        → Loops w r
        → LoopEnds w (go_on s rest r)
    go_on-ends w (returns u, x) l = loop-weaken w x (returns u) l (rest x) (k x)
    go_on-ends w (stops p, x) l = (l, tt)

    take_message-ends :
        (ms : List (Message v)) (w : Workflow v)
        → w.pipeline ≡ ms
        → LoopEnds w (take_message s rest ms w)
    unfolding process
    take_message-ends [] w e = (record { stays = Stays-preorder.same w; updates = refl }, e)
    take_message-ends (m ∷ ms) w e =
        go_on-ends w (process s m (record w { pipeline = ms })) (process-Loops m ms w)

  pipeline_loop-ends : (n : ℕ) (w : Workflow v) → LoopEnds w (pipeline_loop s n w)
  unfolding pipeline_loop
  pipeline_loop-ends zero w = tt
  pipeline_loop-ends (suc n) w =
      take_message-ends (pipeline_loop s n) (pipeline_loop-ends n) w.pipeline w refl

  -- Before the loop.
  start_task-Stays : (w : Workflow v) → Stays (opened w) (start_task s w).1
  unfolding start_task opened
  start_task-Stays w =
      (Steps-bind Stays-preorder (or_panic (flush_queue s)) _
          (Steps-or_panic Stays-preorder (flush_queue s)
            (record { at = λ w. Grows-Stays w _ ((flush_queue-Keeps s).at w).loses.grows }))
          (λ _. record {
            at = λ w.
                (Steps-bind Stays-preorder (all_updates s w.updates_queue) _
                    (record {
                      at = λ x. Grows-Stays x _ ((all_updates-Grows s w.updates_queue).at x);
                    })
                    (λ _.
                      Steps-modify Stays-preorder (λ w. record w { updates_queue = [] })
                        (λ w. record {
                          in_loop = refl;
                          header = refl;
                          rr_id = refl;
                          callbacks = λ l. refl;
                        }))).at
                  w;
          })).at
        (opened w)

  start_task-Cleared : (w : Workflow v) → Cleared (start_task s w)
  unfolding start_task
  start_task-Cleared w =
      let o = record (run_callbacks w.callbacks (record w { in_loop = true })) { callbacks = [] } in
      let f = or_panic (flush_queue s) o in
      continue-Cleared f.0 _
        (λ _ x.
          let a = all_updates s x.updates_queue x in
          continue-Cleared a.0 (λ _. modify (λ w. record w { updates_queue = [] })) (λ _ y. refl)
            a.1)
        f.1

  opened-Stays :
      (w : Workflow v)
      → ((opened w).in_loop ≡ true) × ((opened w).header ≡ w.header) × ((opened w).rr_id ≡ w.rr_id)
  unfolding opened
  opened-Stays w =
      let g = (run_callbacks-Keeps w.callbacks (record w { in_loop = true })).loses.grows in
      (g.in_loop, g.header, g.rr_id)

  abbrev pub Rested : Exit v (Unit {0}) → Workflow v → Type 0
  Rested (returns u) w = (w.pipeline ≡ []) × (w.callbacks ≡ []) × (w.updates_queue ≡ [])
  Rested (stops x) w = Unit {0}

  -- The loop flag is down, `Execute`'s fields are as before, and, if the task returned with no
  -- panic, nothing is left to do.
  abbrev pub Ended : Workflow v → Option (Exit v (Unit {0}) × Workflow v) → Type 0
  Ended w none = Unit {0}
  Ended w (some (r, w')) =
      (w'.in_loop ≡ false) × (w'.header ≡ w.header) × (w'.rr_id ≡ w.rr_id) × Rested r w'

  looped :
      (w x : Workflow v)
      → x.header ≡ w.header
      → x.rr_id ≡ w.rr_id
      → x.in_loop ≡ true
      → x.callbacks ≡ []
      → x.updates_queue ≡ []
      → (o : Option (Exit v (Unit {0}) × Workflow v)) → LoopEnds x o
      → Ended w (left? s o)
  looped w x h i l c q none e = tt
  looped w x h i l c q (some (returns u, y)) (k, e) =
      (refl, k.stays.header ∙ h, k.stays.rr_id ∙ i, (e, k.stays.callbacks l ∙ c, k.updates ∙ q))
  looped w x h i l c q (some (stops p, y)) (k, e) =
      (refl, k.stays.header ∙ h, k.stays.rr_id ∙ i, tt)

  started :
      (fuel : ℕ) (w : Workflow v) (r : Exit v (Unit {0}) × Workflow v)
      → Stays (opened w) r.1
      → Cleared r
      → Ended w (left? s (go_on s (pipeline_loop s fuel) r))
  unfolding opened
  started fuel w (returns u, x) k q =
      let o = opened-Stays w in
      looped w x (k.header ∙ o.1) (k.rr_id ∙ o.2) (k.in_loop ∙ o.0) (k.callbacks o.0) q
        (pipeline_loop s fuel x) (pipeline_loop-ends fuel x)
  started fuel w (stops p, x) k q =
      let o = opened-Stays w in (refl, k.header ∙ o.1, k.rr_id ∙ o.2, tt)

  -- Whatever the fuel, if it is enough: after the task the loop flag is down, and the header and the
  -- id that the workflow was given are as before; and if the task did not panic, then the pipeline,
  -- the waiting callbacks and the waiting updates are empty.
  pub on_workflow_task_started-Ended :
      (fuel : ℕ) (w : Workflow v) → Ended w (on_workflow_task_started s fuel w)
  unfolding on_workflow_task_started
  on_workflow_task_started-Ended fuel w =
      started fuel w (start_task s w) (start_task-Stays w) (start_task-Cleared w)
