-- ===== src/Workflow/Task/Finite.antt =====
-- `OnWorkflowTaskStarted` of aggregatedpool/workflow.go with a worker whose answers come to an end.
use roadrunner_temporal.Base.{ℕ, ◌<◌, ◌≡◌, ap, some, List, ◌∷◌, arith, length, Bool-cases, inl, inr}
use roadrunner_temporal.Vendor.{Vendor}
use roadrunner_temporal.Protocol.{Message, is_command, undefined_response?}
use roadrunner_temporal.Exec.{Exit, returns, stops, error, panics}
use roadrunner_temporal.Workflow.{Workflow, Services, PoolCall}
use roadrunner_temporal.Workflow.Handle.{handle_message}
use roadrunner_temporal.Workflow.Task.{process, on_error, on_workflow_task_started}
use roadrunner_temporal.Workflow.Task.Ends.{Ended}
use roadrunner_temporal.Workflow.Task.Budget.{
  IsFinite, work, Spends, Spends-preorder, handle_message-Spends, start_task-Spends,
}
use roadrunner_temporal.Workflow.Task.Fuel.{IsDraining, on_workflow_task_started-ends}

module _ {v : Vendor} (s : Services v) (budget : List PoolCall → ℕ) (f : IsFinite s budget) where
  emptied :
      (w : Workflow v) (r : Exit v (Unit {0}) × Workflow v)
      → Spends s budget w r.1
      → Spends s budget w (on_error s r).1
  emptied w (returns u, w') k = k
  emptied w (stops (panics p), w') k = k
  emptied w (stops (error e), w') k = record { spends = omega (arith, k.spends) }

  process-Spends : (m : Message v) (w : Workflow v) → Spends s budget w (process s m w).1
  unfolding process
  process-Spends m w = elim (Bool-cases (is_command m)) [
    | inr e ↦ rw e ((Spends-preorder s budget).same w)
    | inl e ↦ elim (Bool-cases (undefined_response? m)) [
      | inl u ↦ rw (e, u) (record { spends = omega arith })
      | inr u ↦
          rw (e, u) (emptied w (handle_message s m w) ((handle_message-Spends s budget f m).at w))
    ]
  ]

  -- One message fewer.
  taken-less :
      (m : Message v) (ms : List (Message v)) (w : Workflow v)
      → w.pipeline ≡ m ∷ ms
      → work s budget (process s m (record w { pipeline = ms })).1 < work s budget w
  taken-less m ms w e =
      omega (arith, (process-Spends m (record w { pipeline = ms })).spends, ap length e)

  finite-IsDraining : IsDraining s (λ w. Unit {0}) (work s budget)
  finite-IsDraining = record { drains = λ m ms w there e fine. (tt, taken-less m ms w e) }

  -- With a worker whose answers come to an end, after whatever was exchanged before, a task ends,
  -- with any fuel above the number of the messages in the pipeline before the task and of those that
  -- the worker may still send: the loop flag is down, the header and the id that the workflow was
  -- given are as before, and, if the task did not panic, the pipeline, the waiting callbacks and the
  -- waiting updates are empty.
  pub on_workflow_task_started-terminates :
      (fuel : ℕ) (w : Workflow v)
      → work s budget w < fuel
      → (q : Exit v (Unit {0}) × Workflow v) × (on_workflow_task_started s fuel w ≡ some q)
        × Ended s w (some q)
  on_workflow_task_started-terminates fuel w enough =
      on_workflow_task_started-ends s (λ w. Unit {0}) (work s budget) finite-IsDraining fuel w tt
        (omega (arith, (start_task-Spends s budget f).at w, enough))
