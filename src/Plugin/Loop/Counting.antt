-- ===== src/Plugin/Loop/Counting.antt =====
-- How often `Reset` and `ResetAP` of plugin.go reset the two pools.
use roadrunner_temporal.Base.{
  ℕ, ◌+◌, ◌≡◌, refl, ap, ◌∙◌, Option, none, some, List, [], ◌∷◌, ◌++◌, arith,
}
use roadrunner_temporal.Vendor.{Vendor}
use roadrunner_temporal.Exec.{Exit, returns, stops, Stop, modify, ◌>>◌, wrapping}
use roadrunner_temporal.Exec.Triple.{
  After, Triple, Triple-modify, Triple-pure, Triple-wrapping, Triple-bind,
}
use roadrunner_temporal.Workflow.{PoolCall}
use roadrunner_temporal.Workers.{temporal_workers}
use roadrunner_temporal.Info.{worker_info}
use roadrunner_temporal.Plugin.{
  PoolKind, activity_pool, workflow_pool, reset_pool, start, stop_worker, purge_cache, World, Sdk,
  Call, Plugin, made_call, or_fault, or_stops, with_log, ask_worker_info, make_workers,
  start_workers, stop_workers, stop_old_workers, renew, reset_wf_p, reset_act_p, reset, reset_ap,
}

module _ {v : Vendor} (w : World v) where
  abbrev one_reset : PoolKind → Call w → ℕ
  one_reset activity_pool (reset_pool activity_pool) = 1
  one_reset workflow_pool (reset_pool workflow_pool) = 1
  one_reset _ _ = 0

  -- How often a pool was reset.
  abbrev pub resets : PoolKind → List (Call w) → ℕ
  resets kind [] = 0
  resets kind (c ∷ cs) = one_reset kind c + resets kind cs

  resets-append :
      (kind : PoolKind) (cs : List (Call w)) (c : Call w)
      → resets kind (cs ++ c ∷ []) ≡ resets kind cs + one_reset kind c
  resets-append kind [] c = omega arith
  resets-append kind (d ∷ cs) c = omega (arith, resets-append kind cs c)

  -- The activity pool was reset `a` times, the workflow pool `b` times, and the process id that the
  -- plugin takes for the workflow worker's is `n`.
  pub record Counts (a b n : ℕ) (p : Plugin w) : Type 0 where
    pub act : resets activity_pool p.calls ≡ a
    pub wf : resets workflow_pool p.calls ≡ b
    pub pid : p.ww_pid ≡ n

  abbrev Anything : Plugin w → Type 0
  Anything p = Unit {0}

  counted :
      (a b n : ℕ) (c : Call w) (p : Plugin w)
      → Counts a b n p
      → Counts (a + one_reset activity_pool c) (b + one_reset workflow_pool c) n (made_call w c p)
  counted a b n c p k = record {
    act = resets-append activity_pool p.calls c ∙ ap (λ m. m + one_reset activity_pool c) k.act;
    wf = resets-append workflow_pool p.calls c ∙ ap (λ m. m + one_reset workflow_pool c) k.wf;
    pid = k.pid;
  }

  moved : {a b n a' b' : ℕ} (p : Plugin w) → a ≡ a' → b ≡ b' → Counts a b n p → Counts a' b' n p
  moved p e f k = record { act = k.act ∙ e; wf = k.wf ∙ f; pid = k.pid }

  module _ (a b n : ℕ) where
    start_counted :
        (x : Sdk w) (p : Plugin w) → Counts a b n p → Counts a b n (made_call w (start x) p)
    start_counted x p k =
        moved (made_call w (start x) p) (omega arith) (omega arith) (counted a b n (start x) p k)

    stops_counted :
        (xs : List (Sdk w)) (p : Plugin w) → Counts a b n p → Counts a b n (stop_workers w xs p)
    unfolding stop_workers
    stops_counted [] p k = k
    stops_counted (x ∷ xs) p k = stops_counted xs (made_call w (stop_worker x) p) (
        moved (made_call w (stop_worker x) p) (omega arith) (omega arith)
          (counted a b n (stop_worker x) p k))

    old_counted : (p : Plugin w) → Counts a b n p → Counts a b n (stop_old_workers w p)
    unfolding stop_old_workers
    old_counted p k =
        let q = stops_counted p.workers p k in
        let none_left = record (stop_workers w p.workers p) { workers = [] } in
        moved (made_call w purge_cache none_left) (omega arith) (omega arith)
          (counted a b n purge_cache none_left (record { act = q.act; wf = q.wf; pid = q.pid }))

    or_stops-Counts :
        (o : Option (Stop v)) → Triple (Counts a b n) (or_stops w o) (λ _. Counts a b n) Anything
    or_stops-Counts none = Triple-pure tt
    or_stops-Counts (some x) = record { at = λ p k. tt }

    or_fault-Counts :
        (o : Option v.Fault) → Triple (Counts a b n) (or_fault w o) (λ _. Counts a b n) Anything
    or_fault-Counts none = Triple-pure tt
    or_fault-Counts (some f) = record { at = λ p k. tt }

    logged-Counts :
        {A : Type 0} (p : Plugin w)
        → Counts a b n p
        → (r : Exit v A × List PoolCall) → After (λ _. Counts a b n) Anything (with_log w p r)
    logged-Counts p k (returns x, log) = record { act = k.act; wf = k.wf; pid = k.pid }
    logged-Counts p k (stops x, log) = tt

    made-Counts :
        (p : Plugin w)
        → Counts a b n p
        → (r : Exit v (List (Sdk w))) → After (λ _. Counts a b n) Anything (r, p)
    made-Counts p k (returns xs) = k
    made-Counts p k (stops x) = tt

    starts-Counts :
        (xs : List (Sdk w))
        → Triple (Counts a b n) (start_workers w xs) (λ _. Counts a b n) Anything
    unfolding start_workers
    starts-Counts [] = Triple-pure tt
    starts-Counts (x ∷ xs) =
        Triple-bind (modify (made_call w (start x)) >> (λ p. or_fault w (w.was_started p.calls) p))
          (λ _. start_workers w xs)
          (Triple-bind (modify (made_call w (start x)))
            (λ _ p. or_fault w (w.was_started p.calls) p)
            (Triple-modify (made_call w (start x)) (start_counted x))
            (λ _. record { at = λ p k. (or_fault-Counts (w.was_started p.calls)).at p k }))
          (λ _. starts-Counts xs)

  act-Counts :
      (a b n : ℕ) → Triple (Counts a b n) (reset_act_p w) (λ _. Counts (a + 1) b n) Anything
  act-Counts a b n =
      Triple-bind (modify (made_call w (reset_pool activity_pool))) _
        (Triple-modify (made_call w (reset_pool activity_pool)) (λ p k.
          moved (made_call w (reset_pool activity_pool) p) refl (omega arith)
            (counted a b n (reset_pool activity_pool) p k)))
        (λ _. record {
          at = λ p k. (or_stops-Counts (a + 1) b n (w.was_reset p.calls p.act_p)).at p k;
        })

  wf-Counts : (a b n : ℕ) → Triple (Counts a b n) (reset_wf_p w) (λ _. Counts a (b + 1) n) Anything
  wf-Counts a b n =
      Triple-bind (modify (made_call w (reset_pool workflow_pool))) _
        (Triple-modify (made_call w (reset_pool workflow_pool)) (λ p k.
          moved (made_call w (reset_pool workflow_pool) p) (omega arith) refl
            (counted a b n (reset_pool workflow_pool) p k)))
        (λ _. record {
          at = λ p k. (or_stops-Counts a (b + 1) n (w.was_reset p.calls p.wf_p)).at p k;
        })

  pub reset_ap-Counts :
      (a b n : ℕ) → Triple (Counts a b n) (reset_ap w) (λ _. Counts (a + 1) b n) Anything
  unfolding reset_ap
  reset_ap-Counts a b n = Triple-wrapping "temporal_plugin_reset" (reset_act_p w) (act-Counts a b n)

  pub reset-Counts :
      (a b n : ℕ) → Triple (Counts a b n) (reset w) (λ _. Counts (a + 1) (b + 1) n) Anything
  unfolding reset
  reset-Counts a b n =
      let a' = a + 1 in
      let b' = b + 1 in
      Triple-bind (modify (stop_old_workers w)) _
        (Triple-modify (stop_old_workers w) (old_counted a b n))
        λ _.
          Triple-bind (wrapping "temporal_reset" (reset_wf_p w)) _
            (Triple-wrapping "temporal_reset" (reset_wf_p w) (wf-Counts a b n))
            λ _.
              Triple-bind (wrapping "temporal_reset" (reset_act_p w)) _
                (Triple-wrapping "temporal_reset" (reset_act_p w) (act-Counts a b' n))
                λ _.
                  Triple-bind (λ p. ask_worker_info w p.wf_p p) _
                    (record {
                      at = λ p k.
                          logged-Counts a' b' n p k
                            (worker_info (w.info_services p.wf_p) p.rr_version p.info_calls);
                    })
                    λ infos.
                      Triple-bind (make_workers w infos) _
                        (record {
                          at = λ p k. made-Counts a' b' n p k (temporal_workers w.worker_lib infos);
                        })
                        λ xs. Triple-bind (start_workers w xs) _ (starts-Counts a' b' n xs) (λ _.
                          Triple-modify (renew w infos xs)
                            (λ p k. record { act = k.act; wf = k.wf; pid = k.pid }))
