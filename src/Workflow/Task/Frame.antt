-- ===== src/Workflow/Task/Frame.antt =====
-- What the parts of `OnWorkflowTaskStarted` of aggregatedpool/workflow.go leave alone, and what
-- `runCommand` and an update (aggregatedpool/handler.go) leave alone.
use roadrunner_temporal.Base.{
  ℕ, String, refl, sym, ap, ◌∙◌, Option, none, some, List, [], ◌∷◌, append-nil, subst, Bool-cases,
  inl, inr,
}
use roadrunner_temporal.Vendor.{Vendor}
use roadrunner_temporal.Protocol.{Payloads, Message, Dynamic}
use roadrunner_temporal.Queue.{allocate_message}
use roadrunner_temporal.Exec.{Exit, returns, stops, error, panics}
use roadrunner_temporal.Exec.Steps.{IsPreorder, Steps, Steps-pure, Steps-bind, Steps-catch}
use roadrunner_temporal.Workflow.{Workflow, Services, EnvCall, UpdateRequest, handle_queued_updates}
use roadrunner_temporal.Workflow.Frame.{Grows, Grows-preorder, Keeps, Keeps-trans}
use roadrunner_temporal.Workflow.Exchange.{run_command}
use roadrunner_temporal.Workflow.Exchange.Command.{Run, leak, allocated, run_command-Run}
use roadrunner_temporal.Workflow.Callbacks.{call}
use roadrunner_temporal.Workflow.Callbacks.Laws.{call-Loses}
use roadrunner_temporal.Workflow.Update.{
  invoke, settle, accepted, judge, validated, run_update, run_updates,
}
use roadrunner_temporal.Workflow.Task.{queued_updates, all_updates}

module _ {v : Vendor} (s : Services v) where
  Run-Keeps :
      (w : Workflow v) (ms : List (Message v)) (n : ℕ) (r : Exit v (Message v) × Workflow v)
      → Run s w ms n r
      → Keeps w r.1
  Run-Keeps w ms n (returns m, w') (x, e) = subst (Keeps w) (sym e) (record {
    loses = record {
      grows = record {
        in_loop = refl;
        updates = refl;
        header = refl;
        rr_id = refl;
        callbacks = λ l. refl;
        pipeline = ([], sym (append-nil w.pipeline));
      };
      canceller = λ id e. e;
    };
    env_log = refl;
  })
  Run-Keeps w ms n (stops (error x), w') f = record {
    loses = record {
      grows = record {
        in_loop = ap (λ u. u.in_loop) f;
        updates = ap (λ u. u.updates_queue) f;
        header = ap (λ u. u.header) f;
        rr_id = ap (λ u. u.rr_id) f;
        callbacks = λ l. ap (λ u. u.callbacks) f;
        pipeline = ([], ap (λ u. u.pipeline) f ∙ sym (append-nil w.pipeline));
      };
      canceller = λ id e. ap (λ u. u.canceller id) f ∙ e;
    };
    env_log = ap (λ u. u.env_log) f;
  }
  Run-Keeps w ms n (stops (panics p), w') f = elim f [ ]

  allocated-Keeps :
      (cmd : Dynamic v) (payloads : Option (Payloads v)) (header : Option v.Header) (w : Workflow v)
      → Keeps w (allocated s cmd payloads header w).1
  unfolding allocate_message
  allocated-Keeps cmd payloads header w = record {
    loses = record {
      grows = record {
        in_loop = refl;
        updates = refl;
        header = refl;
        rr_id = refl;
        callbacks = λ l. refl;
        pipeline = ([], sym (append-nil w.pipeline));
      };
      canceller = λ id e. e;
    };
    env_log = refl;
  }

  pub run_command-Keeps :
      (cmd : Dynamic v) (payloads : Option (Payloads v)) (header : Option v.Header)
      → Steps Keeps (run_command s cmd payloads header)
  run_command-Keeps cmd payloads header = record {
    at = λ w.
        let (m, w') = allocated s cmd payloads header w in
        Keeps-trans w w' _ (allocated-Keeps cmd payloads header w)
          (Run-Keeps w' (m ∷ []) (leak s w' (m ∷ [])) _ (run_command-Run s cmd payloads header w));
  }

-- What holds of every update, if it holds of a call and of a command that is run.
module _ {v : Vendor} (s : Services v) {R : Workflow v → Workflow v → Type 0} (p : IsPreorder R)
    (calls : (c : EnvCall v) → Steps R (call s c))
    (runs : (cmd : Dynamic v) (payloads : Option (Payloads v)) (header : Option v.Header)
      → Steps R (run_command s cmd payloads header)) where
  invoke_moves : (type : String) (u : UpdateRequest v) → Steps R (invoke s type u)
  unfolding invoke
  invoke_moves type u = record { at = λ w. (runs _ u.input u.header).at w }

  settle_moves :
      (u : UpdateRequest v) (f : Option v.Failure) (o : Option (Payloads v))
      → Steps R (settle s u f o)
  settle_moves u (some f) o = calls _
  settle_moves u none o = calls _

  accepted_moves : (u : UpdateRequest v) → Steps R (accepted s u)
  unfolding accepted
  accepted_moves u = Steps-bind p (call s _) _ (calls _) λ _.
      Steps-catch p (invoke s "execute" u) _ _ (invoke_moves "execute" u)
        (λ m. settle_moves u m.failure m.payloads) (λ e. calls _)

  judge_moves : (u : UpdateRequest v) (f : Option v.Failure) → Steps R (judge s u f)
  judge_moves u (some f) = calls _
  judge_moves u none = accepted_moves u

  validated_moves : (u : UpdateRequest v) → Steps R (validated s u)
  unfolding validated
  validated_moves u =
      Steps-catch p (invoke s "validate" u) _ _ (invoke_moves "validate" u)
        (λ m. judge_moves u m.failure) (λ e. calls _)

  run_update_moves : (u : UpdateRequest v) → Steps R (run_update s u)
  unfolding run_update
  run_update_moves u = record {
    at = λ w. elim (Bool-cases (s.env.is_replaying w.env_log)) [
      | inl e ↦ rw e ((accepted_moves u).at w)
      | inr e ↦ rw e ((validated_moves u).at w)
    ];
  }

  run_updates_moves : (us : List (UpdateRequest v)) → Steps R (run_updates s us)
  unfolding run_updates
  run_updates_moves [] = Steps-pure p tt
  run_updates_moves (u ∷ us) =
      Steps-bind p (run_update s u) (λ _. run_updates s us) (run_update_moves u)
        (λ _. run_updates_moves us)

  queued_updates_moves : (name : String) → Steps R (queued_updates s name)
  unfolding queued_updates
  queued_updates_moves name =
      Steps-bind p (call s (handle_queued_updates name)) _ (calls _)
        λ _. record { at = λ w. (run_updates_moves (s.env.updates w.env_log)).at w }

  pub all_updates_moves : (names : List String) → Steps R (all_updates s names)
  unfolding all_updates
  all_updates_moves [] = Steps-pure p tt
  all_updates_moves (n ∷ ns) =
      Steps-bind p (queued_updates s n) (λ _. all_updates s ns) (queued_updates_moves n)
        (λ _. all_updates_moves ns)

module _ {v : Vendor} (s : Services v) where
  pub all_updates-Grows : (names : List String) → Steps Grows (all_updates s names)
  all_updates-Grows =
      all_updates_moves s Grows-preorder (λ c. record { at = λ w. (call-Loses s c w).0.grows })
        (λ cmd payloads header. record {
          at = λ w. ((run_command-Keeps s cmd payloads header).at w).loses.grows;
        })
