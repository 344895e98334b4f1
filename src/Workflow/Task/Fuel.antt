-- ===== src/Workflow/Task/Fuel.antt =====
-- The loop of `OnWorkflowTaskStarted` of aggregatedpool/workflow.go ends.
use roadrunner_temporal.Base.{
  ℕ, zero, suc, ◌<◌, ◌≡◌, refl, ap, Option, some, List, [], ◌∷◌, arith, subst,
}
use roadrunner_temporal.Vendor.{Vendor}
use roadrunner_temporal.Protocol.{Message}
use roadrunner_temporal.Exec.{Exit, returns, stops}
use roadrunner_temporal.Workflow.{Workflow, Services}
use roadrunner_temporal.Workflow.Task.{
  process, go_on, take_message, pipeline_loop, start_task, left, left?, on_workflow_task_started,
}
use roadrunner_temporal.Workflow.Task.Ends.{Ended, on_workflow_task_started-Ended}

module _ {v : Vendor} (s : Services v) (Reached : Workflow v → Type 0) (work : Workflow v → ℕ) where
  -- In the states that the task reaches, the worker leaves less work behind each message: it may
  -- answer with more commands, but not for ever.
  pub record IsDraining : Type 0 where
    pub drains :
        (m : Message v) (ms : List (Message v)) (w : Workflow v)
        → Reached w
        → w.pipeline ≡ m ∷ ms
        → (process s m (record w { pipeline = ms })).0 ≡ returns tt
        → Reached (process s m (record w { pipeline = ms })).1
          × (work (process s m (record w { pipeline = ms })).1 < work w)

  abbrev Answers : Option (Exit v (Unit {0}) × Workflow v) → Type 0
  Answers o = (q : Exit v (Unit {0}) × Workflow v) × (o ≡ some q)

  module _ (d : IsDraining) where
    module _ (n : ℕ) (rest : Workflow v → Option (Exit v (Unit {0}) × Workflow v))
        (k : (x : Workflow v) → Reached x → work x < n → Answers (rest x)) where
      goes_on :
          (w : Workflow v)
          → work w < suc n
          → (r : Exit v (Unit {0}) × Workflow v)
          → (r.0 ≡ returns tt → Reached r.1 × (work r.1 < work w))
          → Answers (go_on s rest r)
      goes_on w enough (returns u, x) less =
          let (there, fewer) = less refl in k x there (omega (arith, fewer, enough))
      goes_on w enough (stops p, x) less = ((stops p, x), refl)

      takes :
          (ms : List (Message v)) (w : Workflow v)
          → w.pipeline ≡ ms
          → Reached w
          → work w < suc n
          → Answers (take_message s rest ms w)
      unfolding process
      takes [] w e there enough = ((returns tt, w), refl)
      takes (m ∷ ms) w e there enough =
          goes_on w enough (process s m (record w { pipeline = ms })) (d.drains m ms w there e)

    loop-Answers : (n : ℕ) (w : Workflow v) → Reached w → work w < n → Answers (pipeline_loop s n w)
    unfolding pipeline_loop
    loop-Answers zero w there enough = absurd (omega (arith, enough))
    loop-Answers (suc n) w there enough =
        takes n (pipeline_loop s n) (loop-Answers n) w.pipeline w refl there enough

    start-Answers :
        (fuel : ℕ) (r : Exit v (Unit {0}) × Workflow v)
        → Reached r.1
        → work r.1 < fuel
        → Answers (left? s (go_on s (pipeline_loop s fuel) r))
    start-Answers fuel (returns u, x) there enough =
        let (q, e) = loop-Answers fuel x there enough in (left s q, ap (left? s) e)
    start-Answers fuel (stops p, x) there enough = (left s (stops p, x), refl)

    -- If, from the state in which the loop begins on, each message that is processed leaves less work
    -- behind, then the task ends, with any fuel above the work that there is when the loop begins:
    -- the loop flag is down, the header and the id that the workflow was given are as before, and, if
    -- the task did not panic, the pipeline, the waiting callbacks and the waiting updates are empty.
    pub on_workflow_task_started-ends :
        (fuel : ℕ) (w : Workflow v)
        → Reached (start_task s w).1
        → work (start_task s w).1 < fuel
        → (q : Exit v (Unit {0}) × Workflow v) × (on_workflow_task_started s fuel w ≡ some q)
          × Ended s w (some q)
    unfolding on_workflow_task_started
    on_workflow_task_started-ends fuel w there enough =
        let (q, e) = start-Answers fuel (start_task s w) there enough in
        (q, e, subst (Ended s w) e (on_workflow_task_started-Ended s fuel w))
