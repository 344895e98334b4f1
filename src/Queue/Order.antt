-- ===== src/Queue/Order.antt =====
-- The ids of the commands in the queue of queue/queue.go, under any operations.
use roadrunner_temporal.Base.{
  ℕ, ◌+◌, ◌≤◌, ◌<◌, ◌%◌, ◌≡◌, refl, Option, none, some, List, [], ◌∷◌, ◌++◌, arith, length,
}
use roadrunner_temporal.Vendor.{Vendor}
use roadrunner_temporal.Protocol.{Dynamic, Message, Payloads}
use roadrunner_temporal.Queue.{
  MessageQueue, new_message_queue, flush, push_response, push_error, allocate_message, push_command,
  seq,
}

pub data Op (v : Vendor) : Type 0 where
  flushes : Op v
  responds : ℕ → Option (Payloads v) → Op v
  fails : ℕ → Option v.Failure → Op v
  allocates : Dynamic v → Option (Payloads v) → Option v.Header → Message v → Op v
  commands : Dynamic v → Option (Payloads v) → Option v.Header → Op v

-- `seq` counts up by one while it does not wrap.
seq_next : (n : ℕ) → n + 1 < 18446744073709551616 → seq n ≡ (n + 1, n + 1)
unfolding seq
seq_next n h = let e : (n + 1) % 18446744073709551616 ≡ n + 1 = omega arith in rw e

module _ {v : Vendor} where
  unfoldable pub apply : Op v → MessageQueue v ℕ → MessageQueue v ℕ
  apply flushes mq = flush mq
  apply (responds id p) mq = push_response id p mq
  apply (fails id f) mq = push_error id f mq
  apply (allocates c p h ret) mq = (allocate_message seq c p h ret mq).1
  apply (commands c p h) mq = push_command seq c p h mq

  unfoldable pub run : List (Op v) → MessageQueue v ℕ → MessageQueue v ℕ
  run [] mq = mq
  run (op ∷ ops) mq = run ops (apply op mq)

  abbrev bound : Option (Dynamic v) → ℕ → ℕ → ℕ
  bound none id lo = lo
  bound (some _) id lo = id

  abbrev pub Rises : ℕ → Option (Dynamic v) → ℕ → Type 0
  Rises lo none id = Unit {0}
  Rises lo (some c) id = lo < id

  -- The ids of the commands, responses passed over, rise from above `lo` to at most `hi`.
  abbrev pub Ordered : ℕ → List (Message v) → ℕ → Type 0
  Ordered lo [] hi = lo ≤ hi
  Ordered lo (m ∷ ms) hi = Rises lo m.command m.id × Ordered (bound m.command m.id lo) ms hi

  Ordered-mono :
      (ms : List (Message v)) (lo hi hi' : ℕ) → hi ≤ hi' → Ordered lo ms hi → Ordered lo ms hi'
  Ordered-mono [] lo hi hi' le h = omega arith
  Ordered-mono (m ∷ ms) lo hi hi' le h =
      (h.0, Ordered-mono ms (bound m.command m.id lo) hi hi' le h.1)

  Ordered-response :
      (ms : List (Message v)) (lo hi : ℕ) (r : Message v)
      → r.command ≡ none
      → Ordered lo ms hi
      → Ordered lo (ms ++ r ∷ []) hi
  Ordered-response [] lo hi r e h = rw e (tt, h)
  Ordered-response (m ∷ ms) lo hi r e h =
      (h.0, Ordered-response ms (bound m.command m.id lo) hi r e h.1)

  Ordered-command :
      (ms : List (Message v)) (lo hi : ℕ) (c : Message v) (d : Dynamic v)
      → c.command ≡ some d
      → hi < c.id
      → Ordered lo ms hi
      → Ordered lo (ms ++ c ∷ []) c.id
  Ordered-command [] lo hi c d e lt h = rw e (omega arith, omega arith)
  Ordered-command (m ∷ ms) lo hi c d e lt h =
      (h.0, Ordered-command ms (bound m.command m.id lo) hi c d e lt h.1)

  abbrev pub Fits : ℕ → MessageQueue v ℕ → Type 0
  Fits lo mq = Ordered lo mq.queue mq.counter

  apply-Fits :
      (lo : ℕ) (op : Op v) (mq : MessageQueue v ℕ)
      → lo ≤ mq.counter
      → mq.counter + 1 < 18446744073709551616
      → Fits lo mq
      → Fits lo (apply op mq)
        × (mq.counter ≤ (apply op mq).counter)
        × ((apply op mq).counter ≤ mq.counter + 1)
  unfolding apply flush push_response push_error allocate_message push_command
  apply-Fits lo flushes mq le room h = (le, omega arith, omega arith)
  apply-Fits lo (responds id p) mq le room h =
      (Ordered-response mq.queue lo mq.counter _ refl h, omega arith, omega arith)
  apply-Fits lo (fails id f) mq le room h =
      (Ordered-response mq.queue lo mq.counter _ refl h, omega arith, omega arith)
  apply-Fits lo (allocates c p hd ret) mq le room h = rw (seq_next mq.counter room) (
    Ordered-mono mq.queue lo mq.counter (mq.counter + 1) (omega arith) h,
    omega arith,
    omega arith,
  )
  apply-Fits lo (commands c p hd) mq le room h =
      rw (seq_next mq.counter room)
        (Ordered-command mq.queue lo mq.counter _ c refl (omega arith) h, omega arith, omega arith)

  run-Fits :
      (lo : ℕ) (ops : List (Op v)) (mq : MessageQueue v ℕ)
      → lo ≤ mq.counter
      → mq.counter + length ops < 18446744073709551616
      → Fits lo mq
      → Fits lo (run ops mq)
  unfolding run
  run-Fits lo [] mq le room h = h
  run-Fits lo (op ∷ ops) mq le room h =
      let (fits, up, step) = apply-Fits lo op mq le (omega arith) h in
      run-Fits lo ops (apply op mq) (omega arith) (omega arith) fits

  -- However a new queue is used, if the counter that it shares is far enough from its wrap-around
  -- for the number of operations, then the ids of the commands in it rise strictly from the front
  -- to the back, all above the counter's first value and none above its last.
  pub run-Ordered :
      (start : ℕ) (ops : List (Op v))
      → start + length ops < 18446744073709551616
      → let mq = run ops (new_message_queue start) in Ordered start mq.queue mq.counter
  unfolding new_message_queue
  run-Ordered start ops room =
      run-Fits start ops (new_message_queue start) (omega arith) room (omega arith)
