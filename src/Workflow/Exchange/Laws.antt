-- ===== src/Workflow/Exchange/Laws.antt =====
-- What an exchange with the worker does to a workflow, in every way that it can end.
use roadrunner_temporal.Base.{
  ℕ, String, ◌+◌, ◌-◌, ◌≡◌, refl, ap, ◌∙◌, false, Option, none, some, List, [], ◌∷◌, ◌++◌, arith,
  inl, inr, Bool-cases,
}
use roadrunner_temporal.Vendor.{Vendor}
use roadrunner_temporal.Errors.{GoError}
use roadrunner_temporal.Payload.{Payload, new_payload}
use roadrunner_temporal.Protocol.{Message}
use roadrunner_temporal.Queue.{messages, flush}
use roadrunner_temporal.Exec.{Exit, returns, stops, error, panics, checked, ◌>>=◌, continue, modify}
use roadrunner_temporal.Workflow.{
  Workflow, Services, Reply, refused, no_reply, failed, replied, sent,
}
use roadrunner_temporal.Workflow.Exchange.{
  get_pld, put_pld, get_context, receive, exec, decode, exchange, take_in, flush_messages,
  flush_queue,
}

module _ {v : Vendor} (s : Services v) where
  -- The messages are encoded, sent, answered and decoded, each with no error, and the reply is no
  -- stream.
  pub record Exchanges (w : Workflow v) (sends gets : List (Message v)) : Type 0 where
    pub request : Payload
    pub reply : Payload
    pub encoded : s.codec.encode (get_context s w) new_payload sends ≡ (request, none)
    pub answered : s.exec (w.pool_log ++ sent request ∷ []) ≡ replied reply
    pub whole : s.is_stream reply.flags ≡ false
    pub decoded : s.codec.decode reply [] ≡ (gets, none)

  -- Either the exchange succeeds, or it ends in an error; a failed one changes the pool's log only.
  abbrev pub Exchange :
      Workflow v → List (Message v) → Exit v (List (Message v)) × Workflow v → Type 0
  Exchange w sends (returns gets, w') =
      (x : Exchanges w sends gets) × (w'
        ≡ record w { pool_log = w.pool_log ++ sent x.request ∷ [] })
  Exchange w sends (stops (error e), w') = record w' { pool_log = w.pool_log } ≡ w
  Exchange w sends (stops (panics p), w') = ⊥

  module _ (op : String) (w : Workflow v) (sends : List (Message v)) where
    abbrev asked : Payload → Workflow v
    asked p = record w { pool_log = w.pool_log ++ sent p ∷ [] }

    decoded_Exchange :
        (p r : Payload)
        → s.codec.encode (get_context s w) new_payload sends ≡ (p, none)
        → s.exec (w.pool_log ++ sent p ∷ []) ≡ replied r
        → s.is_stream r.flags ≡ false
        → (d : List (Message v) × Option (GoError v)) → s.codec.decode r [] ≡ d
        → Exchange w sends (checked d (asked p))
    decoded_Exchange p r enc ans nostream (ms, none) dec = (
      record {
        request = p;
        reply = r;
        encoded = enc;
        answered = ans;
        whole = nostream;
        decoded = dec;
      },
      refl,
    )
    decoded_Exchange p r enc ans nostream (ms, some e) dec = refl

    received_Exchange :
        (p : Payload)
        → s.codec.encode (get_context s w) new_payload sends ≡ (p, none)
        → (reply : Reply v) → s.exec (w.pool_log ++ sent p ∷ []) ≡ reply
        → Exchange w sends ((receive s op reply >>= decode s) (asked p))
    unfolding receive decode
    received_Exchange p enc (refused f) ans = refl
    received_Exchange p enc no_reply ans = refl
    received_Exchange p enc (failed f) ans = refl
    received_Exchange p enc (replied r) ans = elim (Bool-cases (s.is_stream r.flags)) [
      | inl stream ↦ rw stream
      | inr nostream ↦
          rw nostream (decoded_Exchange p r enc ans nostream (s.codec.decode r []) refl)
    ]

    encoded_Exchange :
        (e : Payload × Option (GoError v))
        → s.codec.encode (get_context s w) new_payload sends ≡ e
        → Exchange w sends (
            (checked e >>= λ p.
            (λ w. let (reply, w') = exec s p w in receive s op reply w') >>= decode s)
              w)
    unfolding exec
    encoded_Exchange (p, some e) enc = refl
    encoded_Exchange (p, none) enc =
        received_Exchange p enc (s.exec (w.pool_log ++ sent p ∷ [])) refl

    exchange-Exchange : Exchange w sends (exchange s op sends w)
    unfolding exchange
    exchange-Exchange = encoded_Exchange (s.codec.encode (get_context s w) new_payload sends) refl

  -- What `flushQueue` may do. With an empty queue it does nothing. Otherwise, on success, the
  -- queue was exchanged for messages that are now at the end of the pipeline, and is empty; on an
  -- error nothing has changed but the pool's log. It never panics.
  abbrev pub Flush : Workflow v → List (Message v) → Exit v (Unit {0}) × Workflow v → Type 0
  Flush w [] r = r ≡ (returns tt, w)
  Flush w (m ∷ ms) (returns u, w') =
      (got : List (Message v)) × (x : Exchanges w (m ∷ ms) got) × (w' ≡ record w {
        mq = flush w.mq;
        pipeline = w.pipeline ++ got;
        pool_log = w.pool_log ++ sent x.request ∷ [];
      })
  Flush w (m ∷ ms) (stops (error e), w') = record w' { pool_log = w.pool_log } ≡ w
  Flush w (m ∷ ms) (stops (panics p), w') = ⊥

  pub returned : (n : ℕ) → n + 1 - 1 ≡ n
  returned n = omega arith

  -- An exchange does not look at how many payloads are lent.
  unfoldable pub borrowed :
      (w : Workflow v) (sends gets : List (Message v))
      → Exchanges (get_pld w) sends gets
      → Exchanges w sends gets
  unfolding get_context get_pld
  borrowed w sends gets x = record {
    request = x.request;
    reply = x.reply;
    encoded = x.encoded;
    answered = x.answered;
    whole = x.whole;
    decoded = x.decoded;
  }

  flushed :
      (m : Message v) (ms : List (Message v)) (w : Workflow v)
      (r : Exit v (List (Message v)) × Workflow v)
      → Exchange (get_pld w) (m ∷ ms) r
      → Flush w
          (m ∷ ms)
          (let (e, w') = continue r.0 (λ msgs. modify (take_in msgs)) r.1 in (e, put_pld w'))
  unfolding get_pld put_pld take_in borrowed
  flushed m ms w (returns got, w') (x, e) = (
    got,
    borrowed w (m ∷ ms) got x,
    ap (λ u. put_pld (take_in got u)) e ∙ λ i. record w {
      mq = flush w.mq;
      pipeline = w.pipeline ++ got;
      pool_log = w.pool_log ++ sent x.request ∷ [];
      lent = returned w.lent i;
    },
  )
  flushed m ms w (stops (error e), w') h = ap put_pld h ∙ λ i. record w { lent = returned w.lent i }
  flushed m ms w (stops (panics p), w') h = h

  flush_messages-Flush :
      (msgs : List (Message v)) (w : Workflow v) → Flush w msgs (flush_messages s msgs w)
  flush_messages-Flush [] w = refl
  flush_messages-Flush (m ∷ ms) w =
      flushed m ms w (exchange s "flush_queue" (m ∷ ms) (get_pld w))
        (exchange-Exchange "flush_queue" (get_pld w) (m ∷ ms))

  -- `flushQueue` does nothing if the queue is empty. If it returns with no error, then the queue,
  -- encoded with the workflow's context, was sent, a reply that is no stream came back, what it
  -- decodes to is added at the end of the pipeline, and the queue is empty. If it returns an error,
  -- then the queue and the pipeline are as they were, and nothing but the pool's log has changed.
  -- It never panics.
  pub flush_queue-Flush : (w : Workflow v) → Flush w w.mq.queue (flush_queue s w)
  unfolding flush_queue messages
  flush_queue-Flush w = flush_messages-Flush w.mq.queue w
