-- ===== src/Workflow/Exchange/Command.antt =====
-- What `runCommand` of aggregatedpool/handler.go does, in every way that it can end, and which of
-- them keep the payload that it took from the pool.
use roadrunner_temporal.Base.{
  ℕ, ◌+◌, ◌-◌, ◌≡◌, refl, false, Option, none, some, List, [], ◌∷◌, ◌++◌, arith, inl, inr,
  Bool-cases, if◌then◌else◌,
}
use roadrunner_temporal.Vendor.{Vendor}
use roadrunner_temporal.Errors.{GoError}
use roadrunner_temporal.Payload.{Payload, new_payload}
use roadrunner_temporal.Protocol.{Payloads, Message, Dynamic, empty_message}
use roadrunner_temporal.Queue.{seq, allocate_message}
use roadrunner_temporal.Exec.{Exit, returns, stops, error, panics, checked, ◌>>=◌, continue}
use roadrunner_temporal.Workflow.{
  Workflow, Services, Reply, refused, no_reply, failed, replied, sent,
}
use roadrunner_temporal.Workflow.Exchange.{
  get_pld, put_pld, get_context, receive, exec, decode, only, putting, run_reply, run_command,
}
use roadrunner_temporal.Workflow.Exchange.Laws.{Exchanges, returned}

module _ {v : Vendor} (s : Services v) where
  -- The payloads that one reply makes `runCommand` lose.
  abbrev pub reply_leak : Reply v → ℕ
  reply_leak (refused f) = 0
  reply_leak no_reply = 1
  reply_leak (failed f) = 1
  reply_leak (replied r) = if s.is_stream r.flags then 1 else 0

  abbrev pub encoded_leak : Workflow v → Payload × Option (GoError v) → ℕ
  encoded_leak w (p, none) = reply_leak (s.exec (w.pool_log ++ sent p ∷ []))
  encoded_leak w (p, some e) = 0

  abbrev pub leak : Workflow v → List (Message v) → ℕ
  leak w sends = encoded_leak w (s.codec.encode (get_context s w) new_payload sends)

  -- The command was exchanged for exactly one message, and the payload is back in the pool; or an
  -- error is returned, and `n` payloads are lost. Nothing else changes but the pool's log.
  abbrev pub Run : Workflow v → List (Message v) → ℕ → Exit v (Message v) × Workflow v → Type 0
  Run w sends n (returns m, w') =
      (x : Exchanges s w sends (m ∷ [])) × (w'
        ≡ record w { pool_log = w.pool_log ++ sent x.request ∷ [] })
  Run w sends n (stops (error e), w') =
      record w' { pool_log = w.pool_log } ≡ record w { lent = w.lent + n }
  Run w sends n (stops (panics p), w') = ⊥

  none_lost : (n : ℕ) → n + 1 - 1 ≡ n + 0
  none_lost n = omega arith

  module _ (w : Workflow v) (sends : List (Message v)) where
    abbrev asked : Payload → Workflow v
    asked p = record (get_pld w) { pool_log = w.pool_log ++ sent p ∷ [] }

    only-Run :
        (p r : Payload)
        → s.codec.encode (get_context s w) new_payload sends ≡ (p, none)
        → s.exec (w.pool_log ++ sent p ∷ []) ≡ replied r
        → s.is_stream r.flags ≡ false
        → (ms : List (Message v)) → s.codec.decode r [] ≡ (ms, none)
        → Run w sends 0 (only s ms (asked p))
    unfolding get_pld put_pld
    only-Run p r enc ans nostream [] dec = λ i. record w { lent = none_lost w.lent i }
    only-Run p r enc ans nostream (m ∷ []) dec = (
      record {
        request = p;
        reply = r;
        encoded = enc;
        answered = ans;
        whole = nostream;
        decoded = dec;
      },
      λ i. record w { pool_log = w.pool_log ++ sent p ∷ []; lent = returned s w.lent i },
    )
    only-Run p r enc ans nostream (m ∷ n ∷ ms) dec = λ i. record w { lent = none_lost w.lent i }

    decoded_Run :
        (p r : Payload)
        → s.codec.encode (get_context s w) new_payload sends ≡ (p, none)
        → s.exec (w.pool_log ++ sent p ∷ []) ≡ replied r
        → s.is_stream r.flags ≡ false
        → (d : List (Message v) × Option (GoError v)) → s.codec.decode r [] ≡ d
        → Run w sends 0 (let (e, w') = putting s (checked d (asked p)) in continue e (only s) w')
    unfolding get_pld put_pld
    decoded_Run p r enc ans nostream (ms, none) dec = only-Run p r enc ans nostream ms dec
    decoded_Run p r enc ans nostream (ms, some e) dec = λ i. record w { lent = none_lost w.lent i }

    replied_Run :
        (p : Payload)
        → s.codec.encode (get_context s w) new_payload sends ≡ (p, none)
        → (reply : Reply v) → s.exec (w.pool_log ++ sent p ∷ []) ≡ reply
        → Run w sends
            (reply_leak reply)
            ((run_reply s reply >>= λ r. (λ w. putting s (decode s r w)) >>= only s) (asked p))
    unfolding receive decode get_pld put_pld
    replied_Run p enc (refused f) ans = λ i. record w { lent = none_lost w.lent i }
    replied_Run p enc no_reply ans = refl
    replied_Run p enc (failed f) ans = refl
    replied_Run p enc (replied r) ans = elim (Bool-cases (s.is_stream r.flags)) [
      | inl stream ↦ rw stream
      | inr nostream ↦ rw nostream (decoded_Run p r enc ans nostream (s.codec.decode r []) refl)
    ]

    encoded_Run :
        (e : Payload × Option (GoError v))
        → s.codec.encode (get_context s w) new_payload sends ≡ e
        → Run w sends (encoded_leak w e) (
            ((λ w. putting s (checked e w)) >>= λ p.
            (λ w. let (reply, w') = exec s p w in run_reply s reply w') >>= λ r.
            (λ w. putting s (decode s r w)) >>= only s)
              (get_pld w))
    unfolding exec get_pld put_pld
    encoded_Run (p, some e) enc = λ i. record w { lent = none_lost w.lent i }
    encoded_Run (p, none) enc = replied_Run p enc (s.exec (w.pool_log ++ sent p ∷ [])) refl

  -- The workflow and the message after `AllocateMessage`.
  abbrev pub allocated :
      Dynamic v → Option (Payloads v) → Option v.Header → Workflow v → Message v × Workflow v
  allocated cmd payloads header w =
      let (m, mq) = allocate_message seq cmd payloads header (empty_message v) w.mq in
      (m, record w { mq = mq })

  -- `runCommand` takes one id from the counter. If it returns a message, then the command, encoded
  -- with the workflow's context, was sent, the reply is no stream and decodes to exactly that
  -- message, and the payload is back in its pool. Otherwise it returns an error, and the payload is
  -- lost exactly if the pool took the request and gave no reply, an error or a stream. Apart from
  -- this only the pool's log changes: the queue, the pipeline and the callbacks stay. It never
  -- panics.
  pub run_command-Run :
      (cmd : Dynamic v) (payloads : Option (Payloads v)) (header : Option v.Header) (w : Workflow v)
      → let (m, w') = allocated cmd payloads header w in
        Run w' (m ∷ []) (leak w' (m ∷ [])) (run_command s cmd payloads header w)
  unfolding run_command get_context allocate_message
  run_command-Run cmd payloads header w =
      let (m, w') = allocated cmd payloads header w in
      encoded_Run w' (m ∷ []) (s.codec.encode (get_context s w') new_payload (m ∷ [])) refl

  abbrev pub PanicFree : Exit v (Message v) → Type 0
  PanicFree (stops (panics x)) = ⊥
  PanicFree _ = Unit {0}

  Run-PanicFree :
      (w : Workflow v) (ms : List (Message v)) (n : ℕ) (r : Exit v (Message v) × Workflow v)
      → Run w ms n r
      → PanicFree r.0
  Run-PanicFree w ms n (returns m, w') f = tt
  Run-PanicFree w ms n (stops (error e), w') f = tt
  Run-PanicFree w ms n (stops (panics x), w') f = f

  pub run_command-PanicFree :
      (cmd : Dynamic v) (payloads : Option (Payloads v)) (header : Option v.Header) (w : Workflow v)
      → PanicFree (run_command s cmd payloads header w).0
  run_command-PanicFree cmd payloads header w =
      let (m, w') = allocated cmd payloads header w in
      Run-PanicFree w' (m ∷ []) (leak w' (m ∷ [])) (run_command s cmd payloads header w)
        (run_command-Run cmd payloads header w)
