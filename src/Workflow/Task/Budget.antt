-- ===== src/Workflow/Task/Budget.antt =====
-- What a task of aggregatedpool/workflow.go can still ask of a worker whose answers come to an end.
use roadrunner_temporal.Base.{
  ℕ, ◌+◌, ◌≤◌, ◌≡◌, sym, ap, String, true, Bool-cases, inl, inr, none, List, [], ◌∷◌, ◌++◌, arith,
  length, length-append, subst, str_eq,
}
use roadrunner_temporal.Vendor.{Vendor}
use roadrunner_temporal.Payload.{Payload}
use roadrunner_temporal.Protocol.{Message}
use roadrunner_temporal.Protocol.Params.{ChildParams}
use roadrunner_temporal.Canceller.{discard}
use roadrunner_temporal.Exec.{Exit, returns, stops, error, panics, modify, or_panic, ◌>>◌}
use roadrunner_temporal.Exec.Steps.{IsPreorder, Steps, Steps-bind, Steps-modify, Steps-or_panic}
use roadrunner_temporal.Workflow.{Workflow, Services, Outcome, PoolCall, sent, replied}
use roadrunner_temporal.Workflow.Exchange.{take_in, flush_queue}
use roadrunner_temporal.Workflow.Exchange.Laws.{Flush, flush_queue-Flush}
use roadrunner_temporal.Workflow.Exchange.Moves.{Requesting, flush_queue_moves, run_command_moves}
use roadrunner_temporal.Workflow.Callbacks.{run_callback}
use roadrunner_temporal.Workflow.Callbacks.Moves.{call_moves}
use roadrunner_temporal.Workflow.Handle.{child_id, handle_message}
use roadrunner_temporal.Workflow.Handle.Moves.{Handling, handle_message_moves}
use roadrunner_temporal.Workflow.Task.{run_callbacks, all_updates, start_task}
use roadrunner_temporal.Workflow.Task.Frame.{all_updates_moves}

module _ {v : Vendor} (s : Services v) (budget : List PoolCall → ℕ) where
  -- A worker whose answers come to an end: after any exchanges so far, there is a number of messages
  -- that it will never send more than, whatever it is asked next.
  pub record IsFinite : Type 0 where
    pub answers :
        (log : List PoolCall) (p r : Payload) (got : List (Message v))
        → s.exec (log ++ sent p ∷ []) ≡ replied r
        → s.codec.decode r [] ≡ (got, none)
        → length got + budget (log ++ sent p ∷ []) ≤ budget log
    pub calls : (log : List PoolCall) (c : PoolCall) → budget (log ++ c ∷ []) ≤ budget log

  -- The messages to process, and those that the worker may still send.
  abbrev pub work : Workflow v → ℕ
  work w = length w.pipeline + budget w.pool_log

  pub record Spends (w w' : Workflow v) : Type 0 where
    pub spends : work w' ≤ work w

  pub Spends-preorder : IsPreorder Spends
  Spends-preorder = record {
    same = λ w. record { spends = omega arith };
    both = λ w x y a b. record { spends = omega (arith, a.spends, b.spends) };
  }

  pub record Shrinks (w w' : Workflow v) : Type 0 where
    pub shrinks : budget w'.pool_log ≤ budget w.pool_log

  Shrinks-preorder : IsPreorder Shrinks
  Shrinks-preorder = record {
    same = λ w. record { shrinks = omega arith };
    both = λ w x y a b. record { shrinks = omega (arith, a.shrinks, b.shrinks) };
  }

  module _ (f : IsFinite) where
    Shrinks-Requesting : Requesting Shrinks
    Shrinks-Requesting = record {
      preorder = Shrinks-preorder;
      asks = λ c w. record { shrinks = f.calls w.pool_log c };
      lends = λ n w. record { shrinks = omega arith };
      queues = λ q w. record { shrinks = omega arith };
    }

    Spends-Requesting : Requesting Spends
    Spends-Requesting = record {
      preorder = Spends-preorder;
      asks = λ c w. record { spends = omega (arith, f.calls w.pool_log c) };
      lends = λ n w. record { spends = omega arith };
      queues = λ q w. record { spends = omega arith };
    }

    flush-Shrinks : Steps Shrinks (flush_queue s)
    unfolding take_in
    flush-Shrinks =
        flush_queue_moves s Shrinks-Requesting (λ ms w. record { shrinks = omega arith })

    -- What an exchange adds to the pipeline is what the worker then may send less.
    flushed-Spends :
        (w : Workflow v) (ms : List (Message v)) (r : Exit v (Unit {0}) × Workflow v)
        → Flush s w ms r
        → budget r.1.pool_log ≤ budget w.pool_log
        → Spends w r.1
    flushed-Spends w [] r e b =
        subst (λ (r : Exit v (Unit {0}) × Workflow v). Spends w r.1) (sym e)
          (Spends-preorder.same w)
    flushed-Spends w (m ∷ ms) (returns u, w') (got, x, e) b = subst (Spends w) (sym e) (record {
      spends = omega (
        arith,
        f.answers w.pool_log x.request x.reply got x.answered x.decoded,
        length-append w.pipeline got,
      );
    })
    flushed-Spends w (m ∷ ms) (stops (error x), w') e b = record {
      spends = omega (arith, b, ap (λ u. length u.pipeline) e);
    }
    flushed-Spends w (m ∷ ms) (stops (panics x), w') e b = elim e [ ]

    flush-Spends : Steps Spends (flush_queue s)
    flush-Spends = record {
      at = λ w.
          flushed-Spends w w.mq.queue (flush_queue s w) (flush_queue-Flush s w)
            (flush-Shrinks.at w).shrinks;
    }

    -- A change of neither the pipeline nor the calls of the pool.
    answered-Spends : (id : ℕ) (o : Outcome v) (w : Workflow v) → Spends w (run_callback id o w)
    unfolding run_callback discard
    answered-Spends id o w = record { spends = omega arith }

    numbered-Spends : (p : ChildParams v) (w : Workflow v) → Spends w (child_id s p w).1
    unfolding child_id
    numbered-Spends p w = elim (Bool-cases (str_eq p.options.workflow_id "")) [
      | inl e ↦ rw e (record { spends = omega arith })
      | inr e ↦ rw e (Spends-preorder.same w)
    ]

    Spends-Handling : Handling s Spends
    Spends-Handling = record {
      cancelling = record {
        answering = record {
          preorder = Spends-preorder;
          flushes = flush-Spends;
          answers = answered-Spends;
          defers = λ id o w e. record { spends = omega arith };
          rebinds = λ w ids. record { spends = omega arith };
        };
        logs = λ c w. record { spends = omega arith };
        discards = λ id w. record { spends = omega arith };
      };
      registers = λ id c w. record { spends = omega arith };
      responds = λ id p w. record { spends = omega arith };
      numbers = numbered-Spends;
    }

    pub handle_message-Spends : (m : Message v) → Steps Spends (handle_message s m)
    handle_message-Spends = handle_message_moves s Spends-Handling

    callbacks-Spends : (cs : List (ℕ × Outcome v)) (w : Workflow v) → Spends w (run_callbacks cs w)
    unfolding run_callbacks
    callbacks-Spends [] w = Spends-preorder.same w
    callbacks-Spends ((id, o) ∷ cs) w =
        Spends-preorder.both w (run_callback id o w) _ (answered-Spends id o w)
          (callbacks-Spends cs (run_callback id o w))

    updates-Spends : (names : List String) → Steps Spends (all_updates s names)
    updates-Spends =
        all_updates_moves s Spends-preorder
          (call_moves s Spends-Handling.cancelling.answering Spends-Handling.cancelling.logs)
          (run_command_moves s Spends-Requesting)

    abbrev opened : Workflow v → Workflow v
    opened w = record (run_callbacks w.callbacks (record w { in_loop = true })) { callbacks = [] }

    opened-Spends : (w : Workflow v) → Spends w (opened w)
    opened-Spends w = record {
      spends = omega (arith, (callbacks-Spends w.callbacks (record w { in_loop = true })).spends);
    }

    updated-Spends :
        Steps Spends
          (λ w. (all_updates s w.updates_queue >> modify (λ x. record x { updates_queue = [] })) w)
    updated-Spends = record {
      at = λ w.
          (Steps-bind Spends-preorder (all_updates s w.updates_queue)
              (λ _. modify (λ x. record x { updates_queue = [] })) (updates-Spends w.updates_queue)
              (λ _.
                Steps-modify Spends-preorder (λ x. record x { updates_queue = [] })
                  (λ x. record { spends = omega arith }))).at
            w;
    }

    pub start_task-Spends : Steps Spends (start_task s)
    unfolding start_task
    start_task-Spends = record {
      at = λ w. Spends-preorder.both w (opened w) _ (opened-Spends w) (
          (Steps-bind Spends-preorder (or_panic (flush_queue s)) _
              (Steps-or_panic Spends-preorder (flush_queue s) flush-Spends)
              (λ _. record { at = λ x. updated-Spends.at x })).at
            (opened w));
    }
