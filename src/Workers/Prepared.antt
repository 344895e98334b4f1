-- ===== src/Workers/Prepared.antt =====
-- The SDK workers that `TemporalWorkers` of aggregatedpool/workers.go makes.
use roadrunner_temporal.Base.{
  ℕ, suc, str_eq, eq_iff, ◌≡◌, ◌≢◌, refl, sym, ◌∙◌, true, Bool-cases, Option-cases, inl, inr, List,
  [], ◌∷◌, ◌++◌, if_true, if_false, append-nil, append_assoc, subst, map,
}
use roadrunner_temporal.Vendor.{Vendor}
use roadrunner_temporal.Codec.{WorkerInfo, WorkflowEntry, ActivityEntry}
use roadrunner_temporal.Exec.{Exit, returns, stops, error, panics}
use roadrunner_temporal.Workers.{
  WorkerLib, Options, SdkWorker, new_worker, prepared_options, register_workflows,
  register_activities, then_activities, temporal_worker, and_workers, workers_from,
  temporal_workers,
}

module _ {v : Vendor} (lib : WorkerLib v) where
  -- The SDK worker of a worker info.
  pub record Prepared (i : ℕ) (info : WorkerInfo (Options lib)) (w : SdkWorker lib) : Type 0 where
    pub workflows : w.workflows ≡ map (λ e. e.name) info.workflows
    pub activities : w.activities ≡ map (λ e. e.name) info.activities
    pub options : w.options ≡ prepared_options lib i w.task_queue info.options
    pub queue : info.task_queue ≢ "" → w.task_queue ≡ info.task_queue
    pub default_queue : info.task_queue ≡ "" → w.task_queue ≡ lib.default_namespace
    pub versioned : info.options.build_id ≢ "" → w.options.use_build_id_for_versioning ≡ true

  abbrev pub AllPrepared : ℕ → List (WorkerInfo (Options lib)) → List (SdkWorker lib) → Type 0
  AllPrepared i [] [] = Unit {0}
  AllPrepared i (info ∷ infos) (w ∷ ws) = Prepared i info w × AllPrepared (suc i) infos ws
  AllPrepared i _ _ = ⊥

  -- It registers everything, or the SDK panics.
  abbrev Registers : (SdkWorker lib → Type 0) → Exit v (SdkWorker lib) → Type 0
  Registers P (returns w) = P w
  Registers P (stops (panics p)) = Unit {0}
  Registers P (stops (error e)) = ⊥

  all_of :
      {P Q : SdkWorker lib → Type 0} (r : Exit v (SdkWorker lib))
      → ((w : SdkWorker lib) → P w → Q w)
      → Registers P r
      → Registers Q r
  all_of (returns w) k p = k w p
  all_of (stops (panics x)) k p = tt
  all_of (stops (error x)) k p = p

  workflows_registered :
      (es : List WorkflowEntry) (w : SdkWorker lib)
      → Registers
          (λ x. x ≡ record w { workflows = w.workflows ++ map (λ e. e.name) es })
          (register_workflows lib es w)
  workflows_registered [] w = λ i. record w { workflows = sym (append-nil w.workflows) i }
  workflows_registered (e ∷ es) w = elim (Option-cases (lib.workflow_panic w e.name)) [
    | inr (p, q) ↦ rw (q, Registers) tt
    | inl q ↦
        rw (q, Registers)
          (all_of (register_workflows lib es (record w { workflows = w.workflows ++ e.name ∷ [] }))
            (λ x h. h ∙ (λ i. record w {
              workflows = append_assoc w.workflows (e.name ∷ []) (map (λ e. e.name) es) i;
            }))
            (workflows_registered es (record w { workflows = w.workflows ++ e.name ∷ [] })))
  ]

  activities_registered :
      (es : List ActivityEntry) (w : SdkWorker lib)
      → Registers
          (λ x. x ≡ record w { activities = w.activities ++ map (λ e. e.name) es })
          (register_activities lib es w)
  activities_registered [] w = λ i. record w { activities = sym (append-nil w.activities) i }
  activities_registered (e ∷ es) w = elim (Option-cases (lib.activity_panic w e.name)) [
    | inr (p, q) ↦ rw (q, Registers) tt
    | inl q ↦
        rw (q, Registers)
          (all_of
            (register_activities lib es (record w { activities = w.activities ++ e.name ∷ [] }))
            (λ x h. h ∙ (λ i. record w {
              activities = append_assoc w.activities (e.name ∷ []) (map (λ e. e.name) es) i;
            }))
            (activities_registered es (record w { activities = w.activities ++ e.name ∷ [] })))
  ]

  made : (i : ℕ) (info : WorkerInfo (Options lib)) → SdkWorker lib
  made i info = record (new_worker lib i info) {
    workflows = map (λ e. e.name) info.workflows;
    activities = map (λ e. e.name) info.activities;
  }

  made-Prepared : (i : ℕ) (info : WorkerInfo (Options lib)) → Prepared i info (made i info)
  unfolding made
  made-Prepared i info = record {
    workflows = refl;
    activities = refl;
    options = refl;
    queue = λ n. elim (Bool-cases (str_eq info.task_queue "")) [
      | inl e ↦ absurd (n ((eq_iff info.task_queue "").0 e))
      | inr e ↦ if_false lib.default_namespace info.task_queue e
    ];
    default_queue =
        λ e. if_true lib.default_namespace info.task_queue ((eq_iff info.task_queue "").1 e);
    versioned = λ n. elim (Bool-cases (str_eq info.options.build_id "")) [
      | inl e ↦ absurd (n ((eq_iff info.options.build_id "").0 e))
      | inr e ↦ if_false info.options.use_build_id_for_versioning true e
    ];
  }

  both_registered :
      (i : ℕ) (info : WorkerInfo (Options lib)) (r : Exit v (SdkWorker lib))
      → Registers
          (λ x. x ≡ record (new_worker lib i info) { workflows = map (λ e. e.name) info.workflows })
          r
      → Registers (Prepared i info) (then_activities lib info.activities r)
  unfolding made
  both_registered i info (returns w) e =
      subst (λ x. Registers (Prepared i info) (register_activities lib info.activities x)) (sym e)
        (all_of (register_activities lib info.activities _)
          (λ x h. subst (Prepared i info) (sym h) (made-Prepared i info))
          (activities_registered info.activities
            (record (new_worker lib i info) { workflows = map (λ e. e.name) info.workflows })))
  both_registered i info (stops (panics p)) e = tt
  both_registered i info (stops (error x)) e = e

  temporal_worker-Prepared :
      (i : ℕ) (info : WorkerInfo (Options lib))
      → Registers (Prepared i info) (temporal_worker lib i info)
  temporal_worker-Prepared i info =
      both_registered i info (register_workflows lib info.workflows (new_worker lib i info))
        (workflows_registered info.workflows (new_worker lib i info))

  abbrev pub Registered :
      ℕ → List (WorkerInfo (Options lib)) → Exit v (List (SdkWorker lib)) → Type 0
  Registered i infos (returns ws) = AllPrepared i infos ws
  Registered i infos (stops (panics p)) = Unit {0}
  Registered i infos (stops (error e)) = ⊥

  and_workers-Registered :
      (i : ℕ) (info : WorkerInfo (Options lib)) (infos : List (WorkerInfo (Options lib)))
      (rest : Exit v (List (SdkWorker lib))) (w : Exit v (SdkWorker lib))
      → Registered (suc i) infos rest
      → Registers (Prepared i info) w
      → Registered i (info ∷ infos) (and_workers lib rest w)
  and_workers-Registered i info infos (returns ws) (returns w) k p = (p, k)
  and_workers-Registered i info infos (stops (panics x)) (returns w) k p = tt
  and_workers-Registered i info infos (stops (error x)) (returns w) k p = k
  and_workers-Registered i info infos rest (stops (panics x)) k p = tt
  and_workers-Registered i info infos rest (stops (error x)) k p = p

  workers_from-Registered :
      (infos : List (WorkerInfo (Options lib))) (i : ℕ)
      → Registered i infos (workers_from lib i infos)
  workers_from-Registered [] i = tt
  workers_from-Registered (info ∷ infos) i =
      and_workers-Registered i info infos (workers_from lib (suc i) infos)
        (temporal_worker lib i info) (workers_from-Registered infos (suc i))
        (temporal_worker-Prepared i info)

  -- `TemporalWorkers` returns no error: unless the SDK panics, it makes one SDK worker for each worker
  -- info, in order, with exactly the workflows and the activities of the info registered under their
  -- names, on the task queue of the info or, if that is empty, on the default one, with the prepared
  -- options, and with versioning if there is a build id.
  pub temporal_workers-Registered :
      (infos : List (WorkerInfo (Options lib))) → Registered 0 infos (temporal_workers lib infos)
  unfolding temporal_workers
  temporal_workers-Registered infos = workers_from-Registered infos 0
