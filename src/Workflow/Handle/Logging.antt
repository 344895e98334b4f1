-- ===== src/Workflow/Handle/Logging.antt =====
-- What a method of aggregatedpool/handler.go asks of the SDK, as relations from before to after.
use roadrunner_temporal.Base.{
  ℕ, ◌≡◌, refl, sym, ap, ◌∙◌, Option, List, [], ◌∷◌, ◌++◌, Bool-cases, inl, inr, append-nil, str_eq,
}
use roadrunner_temporal.Vendor.{Vendor}
use roadrunner_temporal.Protocol.{Payloads}
use roadrunner_temporal.Protocol.Params.{ChildParams}
use roadrunner_temporal.Exec.{◌>>◌}
use roadrunner_temporal.Exec.Steps.{IsPreorder, Steps, Steps-continue}
use roadrunner_temporal.Workflow.{Workflow, Services, EnvCall, Cancellable}
use roadrunner_temporal.Workflow.Frame.{Grows, Grows-refl, Grows-trans, Keeps}
use roadrunner_temporal.Workflow.Exchange.{Method, flush_queue}
use roadrunner_temporal.Workflow.Callbacks.{call}
use roadrunner_temporal.Workflow.Callbacks.Laws.{call-Loses, flush_queue-Keeps}
use roadrunner_temporal.Workflow.Handle.{register, respond, child_id}

module _ {v : Vendor} where
  -- The calls of the environment stay, and so does what `Grows` keeps.
  pub record Silent (w w' : Workflow v) : Type 0 where
    pub grows : Grows w w'
    pub env_log : w'.env_log ≡ w.env_log

  pub Silent-preorder : IsPreorder {S = Workflow v} Silent
  Silent-preorder = record {
    same = λ w. record { grows = Grows-refl w; env_log = refl };
    both = λ w x y a b. record {
      grows = Grows-trans w x y a.grows b.grows;
      env_log = b.env_log ∙ a.env_log;
    };
  }

  -- Exactly the given calls are made.
  pub record Logs (cs : List (EnvCall v)) (w w' : Workflow v) : Type 0 where
    pub grows : Grows w w'
    pub env_log : w'.env_log ≡ w.env_log ++ cs

  pub Silent-Logs : (w w' : Workflow v) → Silent w w' → Logs [] w w'
  Silent-Logs w w' k = record { grows = k.grows; env_log = k.env_log ∙ sym (append-nil w.env_log) }

  pub Keeps-Silent : (w w' : Workflow v) → Keeps w w' → Silent w w'
  Keeps-Silent w w' k = record { grows = k.loses.grows; env_log = k.env_log }

  pub registered : (id : ℕ) (c : Cancellable v) (w : Workflow v) → Silent w (register id c w)
  registered id c w = record {
    grows = record {
      in_loop = refl;
      updates = refl;
      header = refl;
      rr_id = refl;
      callbacks = λ l. refl;
      pipeline = ([], sym (append-nil w.pipeline));
    };
    env_log = refl;
  }

  pub responded : (id : ℕ) (p : Option (Payloads v)) (w : Workflow v) → Silent w (respond id p w)
  responded id p w = record {
    grows = record {
      in_loop = refl;
      updates = refl;
      header = refl;
      rr_id = refl;
      callbacks = λ l. refl;
      pipeline = ([], sym (append-nil w.pipeline));
    };
    env_log = refl;
  }

  pub numbered : (p : ChildParams v) (s : Services v) (w : Workflow v) → Silent w (child_id s p w).1
  unfolding child_id
  numbered p s w = elim (Bool-cases (str_eq p.options.workflow_id "")) [
    | inl e ↦ rw e (record {
      grows = record {
        in_loop = refl;
        updates = refl;
        header = refl;
        rr_id = refl;
        callbacks = λ l. refl;
        pipeline = ([], sym (append-nil w.pipeline));
      };
      env_log = refl;
    })
    | inr e ↦ rw e (record { grows = Grows-refl w; env_log = refl })
  ]

  pub prefixed :
      (w x y : Workflow v) (cs : List (EnvCall v)) → Silent w x → Logs cs x y → Logs cs w y
  prefixed w x y cs a b = record {
    grows = Grows-trans w x y a.grows b.grows;
    env_log = b.env_log ∙ ap (λ (l : List (EnvCall v)). l ++ cs) a.env_log;
  }

module _ {v : Vendor} (s : Services v) where
  -- A call, and then what calls nothing.
  pub called :
      (c : EnvCall v) (m : Method v (Unit {0}))
      → Steps Silent m
      → (w : Workflow v) → Logs (c ∷ []) w ((call s c >> m) w).1
  called c m k w =
      let l = call-Loses s c w in
      let (r, w') = call s c w in
      let after = (Steps-continue Silent-preorder r (λ _. m) (λ _. k)).at w' in
      record { grows = Grows-trans w w' _ l.0.grows after.grows; env_log = after.env_log ∙ l.1 }

  pub only_call : (c : EnvCall v) (w : Workflow v) → Logs (c ∷ []) w (call s c w).1
  only_call c w = let l = call-Loses s c w in record { grows = l.0.grows; env_log = l.1 }

  pub flush-Silent : Steps Silent (flush_queue s)
  flush-Silent = record { at = λ w. Keeps-Silent w _ ((flush_queue-Keeps s).at w) }
