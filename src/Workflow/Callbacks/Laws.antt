-- ===== src/Workflow/Callbacks/Laws.antt =====
-- What the callbacks of aggregatedpool/handler.go change, and what a call of the environment does.
use roadrunner_temporal.Base.{
  ℕ, ◌≡◌, refl, sym, ap, ◌∙◌, false, List, [], ◌∷◌, ◌++◌, arith, append-nil, subst,
}
use roadrunner_temporal.Vendor.{Vendor}
use roadrunner_temporal.Protocol.{Message}
use roadrunner_temporal.Canceller.{discard}
use roadrunner_temporal.Registry.{IdRegistry}
use roadrunner_temporal.Exec.{Exit, returns, stops, error, panics}
use roadrunner_temporal.Exec.Steps.{Steps}
use roadrunner_temporal.Workflow.{Workflow, Services, Outcome, Started, EnvCall}
use roadrunner_temporal.Workflow.Frame.{Loses, Loses-trans, Keeps, Keeps-refl, Keeps-preorder}
use roadrunner_temporal.Workflow.Exchange.{flush_queue}
use roadrunner_temporal.Workflow.Exchange.Laws.{Flush, flush_queue-Flush}
use roadrunner_temporal.Workflow.Callbacks.Moves.{Answering, handle_events_moves}
use roadrunner_temporal.Workflow.Callbacks.{run_callback, call}

module _ {v : Vendor} (s : Services v) where
  -- A state that differs in the fields that an exchange and a callback write.
  Flush-Keeps :
      (w : Workflow v) (msgs : List (Message v)) (r : Exit v (Unit {0}) × Workflow v)
      → Flush s w msgs r
      → Keeps w r.1
  Flush-Keeps w [] r f =
      subst (λ (r : Exit v (Unit {0}) × Workflow v). Keeps w r.1) (sym f) (Keeps-refl w)
  Flush-Keeps w (m ∷ ms) (returns u, w') (got, x, e) = subst (Keeps w) (sym e) (record {
    loses = record {
      grows = record {
        in_loop = refl;
        updates = refl;
        header = refl;
        rr_id = refl;
        callbacks = λ l. refl;
        pipeline = (got, refl);
      };
      canceller = λ id e. e;
    };
    env_log = refl;
  })
  Flush-Keeps w (m ∷ ms) (stops (error e), w') f = record {
    loses = record {
      grows = record {
        in_loop = ap (λ u. u.in_loop) f;
        updates = ap (λ u. u.updates_queue) f;
        header = ap (λ u. u.header) f;
        rr_id = ap (λ u. u.rr_id) f;
        callbacks = λ l. ap (λ u. u.callbacks) f;
        pipeline = ([], ap (λ u. u.pipeline) f ∙ sym (append-nil w.pipeline));
      };
      canceller = λ id e. ap (λ u. u.canceller id) f ∙ e;
    };
    env_log = ap (λ u. u.env_log) f;
  }
  Flush-Keeps w (m ∷ ms) (stops (panics p), w') f = elim f [ ]

  pub run_callback-Keeps : (id : ℕ) (o : Outcome v) (w : Workflow v) → Keeps w (run_callback id o w)
  unfolding run_callback discard
  run_callback-Keeps id o w = record {
    loses = record {
      grows = record {
        in_loop = refl;
        updates = refl;
        header = refl;
        rr_id = refl;
        callbacks = λ l. refl;
        pipeline = ([], sym (append-nil w.pipeline));
      };
      canceller = λ j e. ground arith;
    };
    env_log = refl;
  }

  pub flush_queue-Keeps : Steps Keeps (flush_queue s)
  flush_queue-Keeps = record {
    at = λ w. Flush-Keeps w w.mq.queue (flush_queue s w) (flush_queue-Flush s w);
  }

  -- Of the registry the relations say nothing.
  with_ids-Keeps :
      (w : Workflow v) (ids : IdRegistry (Started v) ℕ) → Keeps w (record w { ids = ids })
  with_ids-Keeps w ids = record {
    loses = record {
      grows = record {
        in_loop = refl;
        updates = refl;
        header = refl;
        rr_id = refl;
        callbacks = λ l. refl;
        pipeline = ([], sym (append-nil w.pipeline));
      };
      canceller = λ j e. e;
    };
    env_log = refl;
  }

  deferred-Keeps :
      (id : ℕ) (o : Outcome v) (w : Workflow v)
      → w.in_loop ≡ false
      → Keeps w (record w { callbacks = w.callbacks ++ (id, o) ∷ [] })
  deferred-Keeps id o w e = record {
    loses = record {
      grows = record {
        in_loop = refl;
        updates = refl;
        header = refl;
        rr_id = refl;
        callbacks = λ l. absurd (ground arith);
        pipeline = ([], sym (append-nil w.pipeline));
      };
      canceller = λ j e. e;
    };
    env_log = refl;
  }

  pub Keeps-Answering : Answering s Keeps
  Keeps-Answering = record {
    preorder = Keeps-preorder;
    flushes = flush_queue-Keeps;
    answers = run_callback-Keeps;
    defers = deferred-Keeps;
    rebinds = with_ids-Keeps;
  }

  -- Whatever handlers the environment runs during a call, the call is the only one that is logged,
  -- the pipeline only grows, nothing is registered with the canceller, and a callback is put off
  -- only outside the loop.
  pub call-Loses :
      (c : EnvCall v) (w : Workflow v)
      → Loses w (call s c w).1 × ((call s c w).1.env_log ≡ w.env_log ++ c ∷ [])
  unfolding call
  call-Loses c w =
      let w' = record w { env_log = w.env_log ++ c ∷ [] } in
      let k = (handle_events_moves s Keeps-Answering (s.env.events w'.env_log)).at w' in
      (Loses-trans w w' _ (logged w c) k.loses, k.env_log)
    where
      logged :
          (w : Workflow v) (c : EnvCall v) → Loses w (record w { env_log = w.env_log ++ c ∷ [] })
      logged w c = record {
        grows = record {
          in_loop = refl;
          updates = refl;
          header = refl;
          rr_id = refl;
          callbacks = λ l. refl;
          pipeline = ([], sym (append-nil w.pipeline));
        };
        canceller = λ j e. e;
      }
