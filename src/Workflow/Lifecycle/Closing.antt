-- ===== src/Workflow/Lifecycle/Closing.antt =====
-- `Close` of aggregatedpool/workflow.go: the updates that still wait are run, then the worker is told
-- to destroy the workflow.
use roadrunner_temporal.Base.{◌≡◌, ◌⊎◌, none, List, [], ◌∷◌, ◌++◌}
use roadrunner_temporal.Vendor.{Vendor}
use roadrunner_temporal.Errors.{GoError}
use roadrunner_temporal.Protocol.{Message, destroy_workflow, value}
use roadrunner_temporal.Queue.{flush}
use roadrunner_temporal.Exec.{Exit, returns}
use roadrunner_temporal.Workflow.{Workflow, Services, EnvCall, UpdateRequest, reject_update}
use roadrunner_temporal.Workflow.Update.Order.{Completes}
use roadrunner_temporal.Workflow.Lifecycle.Asked.{Ran}

module _ {v : Vendor} (s : Services v) where
  -- The calls from the first list to the second settle each update, in order: it is accepted and
  -- completed, or rejected.
  abbrev pub Settled : List (UpdateRequest v) → List (EnvCall v) → List (EnvCall v) → Type 0
  Settled [] l l' = l' ≡ l
  Settled (u ∷ us) l l' =
      (m : List (EnvCall v)) × (Completes s u l m
        ⊎ ((e : GoError v) × (m ≡ l ++ reject_update u.update_id e ∷ [])))
      × Settled us m l'

  -- After the calls `l`, the updates were settled, then `DestroyWorkflow` was run, and whatever came of
  -- it, there is no error, and the workflow is as that left it, with its queue emptied.
  pub record Closed (us : List (UpdateRequest v)) (l : List (EnvCall v))
      (r : Exit v (Unit {0}) × Workflow v) : Type 0 where
    pub drained : Workflow v
    pub settled : Settled us l drained.env_log
    pub destroyed : Exit v (Message v) × Workflow v
    pub ran :
        Ran s
          (value (destroy_workflow (s.env.info drained.env_log).run_id))
          none
          drained.header
          drained
          destroyed
    pub ended : r ≡ (returns tt, record destroyed.1 { mq = flush destroyed.1.mq })
