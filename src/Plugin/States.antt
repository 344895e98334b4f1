-- ===== src/Plugin/States.antt =====
-- plugin.go: `Workers`, the states of the processes of both pools. It reads the plugin under its lock.
-- The pools and the states of their processes are parameters; the logs are left out.
use roadrunner_temporal.Base.{
  ◌≡◌, sym, ap, ◌∙◌, subst, subst₂, inl, inr, append-nil, Option, some, List, [], ◌∷◌, ◌++◌,
}
use roadrunner_temporal.Vendor.{Vendor}
use roadrunner_temporal.Errors.{GoError, Result, ok, err, Result-cases}
use roadrunner_temporal.Exec.{Exit, returns, stops, panics, of_text}
use roadrunner_temporal.Plugin.{World, Plugin}

-- `Pool.Workers` and `process.WorkerProcessState`.
pub record Processes {v : Vendor} (w : World v) : Type 1 where
  pub Process : Type 0
  pub State : Type 0
  pub processes : w.Pool → List Process
  pub process_state : Process → Result v State

module _ {v : Vendor} (w : World v) (lib : Processes w) where
  abbrev pub keep_state : Result v lib.State → List lib.State → List lib.State
  keep_state (ok s) states = s ∷ states
  keep_state (err e) states = states

  abbrev pub states_of : List lib.Process → List lib.State
  states_of [] = []
  states_of (x ∷ xs) = keep_state (lib.process_state x) (states_of xs)

  abbrev pub both_states : Option w.Pool → Option w.Pool → Exit v (List lib.State)
  both_states (some wf) (some act) =
      returns (states_of (lib.processes wf) ++ states_of (lib.processes act))
  both_states _ _ = stops (panics (of_text "invalid memory address or nil pointer dereference" ""))

  unfoldable pub worker_states : Plugin w → Exit v (List lib.State)
  worker_states p = both_states p.wf_p p.act_p

  -- The states that are reported of the processes: one of each process that has one, in their order.
  pub data Reports : List lib.Process → List lib.State → Type 0 where
    no_process : Reports [] []
    reported :
        {xs : List lib.Process} {ss : List lib.State} (x : lib.Process) (s : lib.State)
        → lib.process_state x ≡ ok s
        → Reports xs ss
        → Reports (x ∷ xs) (s ∷ ss)
    unreadable :
        {xs : List lib.Process} {ss : List lib.State} (x : lib.Process) (e : GoError v)
        → lib.process_state x ≡ err e
        → Reports xs ss
        → Reports (x ∷ xs) ss

  states_of-Reports :
      (xs rest : List lib.Process) {ss : List lib.State}
      → Reports rest ss
      → Reports (xs ++ rest) (states_of xs ++ ss)
  states_of-Reports [] rest k = k
  states_of-Reports (x ∷ xs) rest {ss} k = elim (Result-cases (lib.process_state x)) [
    | inl (s, fine) ↦
        subst (λ r. Reports (x ∷ xs ++ rest) (keep_state r (states_of xs) ++ ss)) (sym fine)
          (reported x s fine (states_of-Reports xs rest k))
    | inr (e, failed) ↦
        subst (λ r. Reports (x ∷ xs ++ rest) (keep_state r (states_of xs) ++ ss)) (sym failed)
          (unreadable x e failed (states_of-Reports xs rest k))
  ]

  -- If there are both pools, then `Workers` returns the states of the workflow pool's processes and then
  -- those of the activity pool's: one for each process whose state can be read, in their order, and none
  -- for the others.
  pub worker_states-Reports :
      (p : Plugin w) (wf act : w.Pool)
      → p.wf_p ≡ some wf
      → p.act_p ≡ some act
      → (states : List lib.State) × (worker_states p ≡ returns states)
        × Reports (lib.processes wf ++ lib.processes act) states
  unfolding worker_states
  worker_states-Reports p wf act e f = (
    states_of (lib.processes wf) ++ states_of (lib.processes act),
    ap (λ o. both_states o p.act_p) e ∙ ap (both_states (some wf)) f,
    states_of-Reports (lib.processes wf) (lib.processes act) (
        subst₂ Reports (append-nil (lib.processes act)) (append-nil (states_of (lib.processes act)))
          (states_of-Reports (lib.processes act) [] no_process)),
  )
