-- ===== src/Workflow/Update/Order.antt =====
-- In which order an update of aggregatedpool/handler.go is accepted, rejected and completed.
use roadrunner_temporal.Base.{
  ◌≡◌, refl, ap, ◌∙◌, ◌⊎◌, inl, inr, Bool, true, false, Option, none, some, List, [], ◌∷◌, ◌++◌,
  append_assoc, Bool-cases,
}
use roadrunner_temporal.Vendor.{Vendor}
use roadrunner_temporal.Errors.{GoError}
use roadrunner_temporal.Protocol.{Payloads, Message}
use roadrunner_temporal.Exec.{Exit, returns, stops, error, panics, continue, continue_catch}
use roadrunner_temporal.Workflow.{
  Workflow, Services, EnvCall, UpdateRequest, reject_update, accept_update, complete_update,
}
use roadrunner_temporal.Workflow.Exchange.Command.{PanicFree, run_command-PanicFree}
use roadrunner_temporal.Workflow.Callbacks.{call}
use roadrunner_temporal.Workflow.Callbacks.Laws.{call-Loses}
use roadrunner_temporal.Workflow.Update.{invoke, settle, accepted, judge, validated, run_update}
use roadrunner_temporal.Workflow.Task.Frame.{run_command-Keeps}

module _ {v : Vendor} (s : Services v) (u : UpdateRequest v) where
  -- The calls made in `l'` after those in `l`.
  abbrev pub Accepts : List (EnvCall v) → List (EnvCall v) → Type 0
  Accepts l l' = l' ≡ l ++ accept_update u.update_id ∷ []

  abbrev pub Completes : List (EnvCall v) → List (EnvCall v) → Type 0
  Completes l l' =
      (p : Option (Payloads v)) × (e : Option (GoError v)) × (l'
        ≡ l ++ accept_update u.update_id ∷ complete_update u.update_id p e ∷ [])

  -- A rejection, which a replay never makes.
  abbrev pub Rejects : Bool → List (EnvCall v) → List (EnvCall v) → Type 0
  Rejects replaying l l' =
      (replaying ≡ false) × ((e : GoError v) × (l' ≡ l ++ reject_update u.update_id e ∷ []))

  abbrev pub Verdict : Bool → List (EnvCall v) → Exit v (Unit {0}) × Workflow v → Type 0
  Verdict b l (returns x, w) = Completes l w.env_log ⊎ Rejects b l w.env_log
  Verdict b l (stops x, w) = Accepts l w.env_log ⊎ (Completes l w.env_log ⊎ Rejects b l w.env_log)

  module _ (b : Bool) (l : List (EnvCall v)) where
    decided :
        (r : Exit v (Unit {0}) × Workflow v)
        → Completes l r.1.env_log ⊎ Rejects b l r.1.env_log
        → Verdict b l r
    decided (returns x, w) d = d
    decided (stops x, w) d = inr d

    completing :
        (p : Option (Payloads v)) (e : Option (GoError v)) (w : Workflow v)
        → Accepts l w.env_log
        → Verdict b l (call s (complete_update u.update_id p e) w)
    completing p e w a =
        let c = complete_update u.update_id p e in
        decided (call s c w) (
          inl (
            p,
            e,
            (call-Loses s c w).1
                ∙ ap (λ (k : List (EnvCall v)). k ++ c ∷ []) a
                ∙ append_assoc l (accept_update u.update_id ∷ []) (c ∷ []),
          ))

    rejecting :
        (e : GoError v) (w : Workflow v)
        → b ≡ false
        → w.env_log ≡ l
        → Verdict b l (call s (reject_update u.update_id e) w)
    rejecting e w n a =
        let c = reject_update u.update_id e in
        decided (call s c w)
          (inr (n, (e, (call-Loses s c w).1 ∙ ap (λ (k : List (EnvCall v)). k ++ c ∷ []) a)))

    settling :
        (f : Option v.Failure) (p : Option (Payloads v)) (w : Workflow v)
        → Accepts l w.env_log
        → Verdict b l (settle s u f p w)
    settling (some f) p w a = completing none _ w a
    settling none p w a = completing p none w a

    executed :
        (r : Exit v (Message v)) (w : Workflow v)
        → Accepts l w.env_log
        → Verdict b l (
            continue_catch r
              (λ m. settle s u m.failure m.payloads)
              (λ e. call s (complete_update u.update_id none (some e)))
              w)
    executed (returns m) w a = settling m.failure m.payloads w a
    executed (stops (error e)) w a = completing none (some e) w a
    executed (stops (panics p)) w a = inl a

    after_accept :
        (r : Exit v (Unit {0})) (w : Workflow v)
        → Accepts l w.env_log
        → Verdict b l (
            continue r
              (λ _ w.
                let (x, w') = invoke s "execute" u w in
                continue_catch x
                  (λ m. settle s u m.failure m.payloads)
                  (λ e. call s (complete_update u.update_id none (some e)))
                  w')
              w)
    unfolding invoke
    after_accept (returns x) w a =
        executed _ _ (((run_command-Keeps s _ u.input u.header).at w).env_log ∙ a)
    after_accept (stops x) w a = inl a

    accepting : (w : Workflow v) → w.env_log ≡ l → Verdict b l (accepted s u w)
    unfolding accepted
    accepting w a =
        let c = accept_update u.update_id in
        let (r, w') = call s c w in
        after_accept r w' ((call-Loses s c w).1 ∙ ap (λ (k : List (EnvCall v)). k ++ c ∷ []) a)

    judging :
        (f : Option v.Failure) (w : Workflow v)
        → b ≡ false
        → w.env_log ≡ l
        → Verdict b l (judge s u f w)
    judging (some f) w n a = rejecting _ w n a
    judging none w n a = accepting w a

    tried :
        (r : Exit v (Message v)) (w : Workflow v)
        → b ≡ false
        → w.env_log ≡ l
        → PanicFree s r
        → Verdict b l (
            continue_catch r
              (λ m. judge s u m.failure)
              (λ e. call s (reject_update u.update_id e))
              w)
    tried (returns m) w n a p = judging m.failure w n a
    tried (stops (error e)) w n a p = rejecting e w n a
    tried (stops (panics x)) w n a p = elim p [ ]

    validating : (w : Workflow v) → b ≡ false → w.env_log ≡ l → Verdict b l (validated s u w)
    unfolding validated invoke
    validating w n a =
        tried _ _ n (((run_command-Keeps s _ u.input u.header).at w).env_log ∙ a)
          (run_command-PanicFree s _ u.input u.header w)

  -- Running the closure of an update makes exactly these calls on the update's callbacks: one
  -- `Reject`, and that only outside a replay; or `Accept` and then `Complete`, once each. If a
  -- handler that the environment runs meanwhile panics, `Accept` may stand alone.
  pub run_update-Verdict :
      (w : Workflow v) → Verdict (s.env.is_replaying w.env_log) w.env_log (run_update s u w)
  unfolding run_update
  run_update-Verdict w = elim (Bool-cases (s.env.is_replaying w.env_log)) [
    | inl e ↦ rw e (accepting true w.env_log w refl)
    | inr e ↦ rw e (validating false w.env_log w refl refl)
  ]
