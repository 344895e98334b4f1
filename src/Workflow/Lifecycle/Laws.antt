-- ===== src/Workflow/Lifecycle/Laws.antt =====
-- How a workflow starts (aggregatedpool/workflow.go).
use roadrunner_temporal.Base.{
  ℕ, ◌≡◌, refl, sym, Option, none, some, List, [], ◌∷◌, ◌++◌, length, append-nil,
}
use roadrunner_temporal.Vendor.{Vendor}
use roadrunner_temporal.Protocol.{Payloads, start_workflow, value}
use roadrunner_temporal.Queue.{push_command, seq, new_message_queue}
use roadrunner_temporal.Exec.{returns}
use roadrunner_temporal.Workflow.{Workflow, Services, register_handlers}
use roadrunner_temporal.Workflow.Callbacks.{call, handle_events}
use roadrunner_temporal.Workflow.Lifecycle.{or_empty, with_last, execute}

module _ {A : Type 0} where
  abbrev Joined : Option (List A) → Option (List A) → Option (List A) × ℕ → Type 0
  Joined last input (joined, offset) =
      (or_empty joined ≡ or_empty input ++ or_empty last) × (offset ≡ length (or_empty last))

  with_last-Joined : (last input : Option (List A)) → Joined last input (with_last last input)
  unfolding with_last
  with_last-Joined none input = (sym (append-nil (or_empty input)), refl)
  with_last-Joined (some []) input = (sym (append-nil (or_empty input)), refl)
  with_last-Joined (some (p ∷ ps)) input = (refl, refl)

module _ {v : Vendor} (s : Services v) where
  -- One message is queued, and it starts the workflow with the payloads `joined`, the last `offset`
  -- of which are the result of the last completion.
  pub record Starts (header : Option v.Header) (input : Option (Payloads v)) (w : Workflow v)
      : Type 0 where
    pub id : ℕ
    pub joined : Option (Payloads v)
    pub offset : ℕ
    pub queue :
        w.mq.queue
        ≡ record {
          id = id;
          command = some (value (start_workflow (some (s.env.info w.env_log)) offset));
          failure = none;
          payloads = joined;
          header = header;
        }
          ∷ []
    pub payloads : or_empty joined ≡ or_empty input ++ or_empty s.env.last_completion
    pub counted : offset ≡ length (or_empty s.env.last_completion)

  -- If no handler is called while the handlers are being registered, `Execute` ends with no error,
  -- and the queue, whatever was in it before, holds exactly one message: it starts the workflow with
  -- the input, then the payloads of the last completion, and says how many of them those are. Nothing
  -- is registered with the canceller, and no update waits.
  pub execute-Starts :
      (header : Option v.Header) (input : Option (Payloads v)) (w : Workflow v)
      → s.env.events (w.env_log ++ register_handlers ∷ []) ≡ []
      → ((execute s header input w).0 ≡ returns tt)
        × Starts header input (execute s header input w).1
        × ((id : ℕ) → (execute s header input w).1.canceller id ≡ none)
        × ((execute s header input w).1.updates_queue ≡ [])
  unfolding execute call handle_events push_command new_message_queue seq
  execute-Starts header input w quiet =
      let j = with_last-Joined s.env.last_completion input in
      rw quiet (
        refl,
        record {
          id = (seq w.mq.counter).0;
          joined = (with_last s.env.last_completion input).0;
          offset = (with_last s.env.last_completion input).1;
          queue = refl;
          payloads = j.0;
          counted = j.1;
        },
        (λ id. refl),
        refl,
      )
