-- ===== src/Plugin/Runs.antt =====
-- Which SDK workers run, by the calls that the plugin (plugin.go, internal.go) has made: the abstract
-- machine that the plugin's list of workers stands for.
use roadrunner_temporal.Base.{
  ◌≡◌, sym, ap, ◌∙◌, subst, Option, none, some, List, [], ◌∷◌, ◌++◌, append-nil,
}
use roadrunner_temporal.Vendor.{Vendor}
use roadrunner_temporal.Exec.{Stop, modify}
use roadrunner_temporal.Exec.Triple.{Triple, Triple-modify, Triple-pure, Triple-bind}
use roadrunner_temporal.Plugin.{
  start, stop_worker, World, Sdk, Call, Plugin, made_call, or_stops, reset_wf_p, reset_act_p,
  stop_workers,
}

module _ {v : Vendor} (w : World v) where
  abbrev pub IsOther : Call w → Type 0
  IsOther (start x) = ⊥
  IsOther (stop_worker x) = ⊥
  IsOther _ = Unit {0}

  -- The workers that run after the calls, the longest-running first: a worker runs from when the SDK
  -- starts it with no error until it is stopped, and it is the longest-running one that is stopped.
  pub data Runs : List (Call w) → List (Sdk w) → Type 0 where
    quiet : Runs [] []
    started :
        (calls : List (Call w)) (xs : List (Sdk w)) (x : Sdk w)
        → w.was_started (calls ++ start x ∷ []) ≡ none
        → Runs calls xs
        → Runs (calls ++ start x ∷ []) (xs ++ x ∷ [])
    not_started :
        (calls : List (Call w)) (xs : List (Sdk w)) (x : Sdk w) (f : v.Fault)
        → w.was_started (calls ++ start x ∷ []) ≡ some f
        → Runs calls xs
        → Runs (calls ++ start x ∷ []) xs
    stopped :
        (calls : List (Call w)) (xs : List (Sdk w)) (x : Sdk w)
        → Runs calls (x ∷ xs)
        → Runs (calls ++ stop_worker x ∷ []) xs
    besides :
        (calls : List (Call w)) (xs : List (Sdk w)) (c : Call w)
        → IsOther c
        → Runs calls xs
        → Runs (calls ++ c ∷ []) xs

  -- The plugin knows which workers run.
  abbrev pub Known : Plugin w → Type 0
  Known p = Runs p.calls p.workers

  -- Besides those that the plugin knows, others may run that it has lost.
  abbrev pub Lost : Plugin w → Type 0
  Lost p = (lost : List (Sdk w)) × Runs p.calls (lost ++ p.workers)

  -- No worker runs, and the plugin knows of none.
  pub record Idle (p : Plugin w) : Type 0 where
    pub runs : Runs p.calls []
    pub none_known : p.workers ≡ []

  -- These workers run, and the plugin does not know of any.
  pub record Fresh (xs : List (Sdk w)) (p : Plugin w) : Type 0 where
    pub runs : Runs p.calls xs
    pub none_known : p.workers ≡ []

  pub Fresh-Lost : (xs : List (Sdk w)) (p : Plugin w) → Fresh xs p → Lost p
  Fresh-Lost xs p f = (
    xs,
    subst (Runs p.calls) (sym (append-nil xs) ∙ ap (λ ys. xs ++ ys) (sym f.none_known)) f.runs,
  )

  pub Known-Lost : (p : Plugin w) → Known p → Lost p
  Known-Lost p k = ([], k)

  pub all_stopped :
      (xs : List (Sdk w)) (p : Plugin w) → Runs p.calls xs → Runs (stop_workers w xs p).calls []
  unfolding stop_workers
  all_stopped [] p r = r
  all_stopped (x ∷ xs) p r = all_stopped xs (made_call w (stop_worker x) p) (stopped p.calls xs x r)

  pub called :
      (xs : List (Sdk w)) (c : Call w)
      → IsOther c
      → (p : Plugin w) → Fresh xs p
      → Fresh xs (made_call w c p)
  called xs c o p f = record { runs = besides p.calls xs c o f.runs; none_known = f.none_known }

  module _ (xs : List (Sdk w)) where
    or_stops-Fresh : (o : Option (Stop v)) → Triple (Fresh xs) (or_stops w o) (λ _. Fresh xs) Lost
    or_stops-Fresh none = Triple-pure tt
    or_stops-Fresh (some x) = record { at = Fresh-Lost xs }

    pub reset_wf_p-Fresh : Triple (Fresh xs) (reset_wf_p w) (λ _. Fresh xs) Lost
    reset_wf_p-Fresh =
        Triple-bind (modify _) _ (Triple-modify _ (called xs _ tt))
          (λ _. record { at = λ p f. (or_stops-Fresh (w.was_reset p.calls p.wf_p)).at p f })

    pub reset_act_p-Fresh : Triple (Fresh xs) (reset_act_p w) (λ _. Fresh xs) Lost
    reset_act_p-Fresh =
        Triple-bind (modify _) _ (Triple-modify _ (called xs _ tt))
          (λ _. record { at = λ p f. (or_stops-Fresh (w.was_reset p.calls p.act_p)).at p f })
