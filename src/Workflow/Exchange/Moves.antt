-- ===== src/Workflow/Exchange/Moves.antt =====
-- What holds of `flushQueue` and `runCommand` of aggregatedpool/handler.go, if it holds of what an
-- exchange is made of.
use roadrunner_temporal.Base.{
  ℕ, String, Option, none, some, List, [], ◌∷◌, ◌++◌, Bool-cases, inl, inr,
}
use roadrunner_temporal.Vendor.{Vendor}
use roadrunner_temporal.Errors.{GoError}
use roadrunner_temporal.Payload.{Payload, new_payload}
use roadrunner_temporal.Protocol.{Payloads, Message, Dynamic, empty_message}
use roadrunner_temporal.Queue
use roadrunner_temporal.Queue.{MessageQueue, seq}
use roadrunner_temporal.Exec.{Exit, returns, stops, checked, modify}
use roadrunner_temporal.Exec.Steps.{
  IsPreorder, Steps, Steps-pure, Steps-stop, Steps-bind, Steps-modify,
}
use roadrunner_temporal.Workflow.{
  Workflow, Services, PoolCall, sent, stop_stream, Reply, refused, no_reply, failed, replied,
}
use roadrunner_temporal.Workflow.Exchange.{
  Method, get_context, get_pld, put_pld, take_in, encode, exec, receive, decode, exchange,
  flush_messages, flush_queue, run_command, run_reply, putting, only,
}

pub record Requesting {v : Vendor} (R : Workflow v → Workflow v → Type 0) : Type 0 where
  pub preorder : IsPreorder R
  pub asks : (c : PoolCall) (w : Workflow v) → R w (record w { pool_log = w.pool_log ++ c ∷ [] })
  pub lends : (n : ℕ) (w : Workflow v) → R w (record w { lent = n })
  pub queues : (mq : MessageQueue v ℕ) (w : Workflow v) → R w (record w { mq = mq })

module _ {v : Vendor} (s : Services v) {R : Workflow v → Workflow v → Type 0}
    (k : Requesting R) where
  checked_moves : {A : Type 0} (r : A × Option (GoError v)) → Steps R (checked r)
  checked_moves (a, none) = Steps-pure k.preorder a
  checked_moves (a, some e) = Steps-stop k.preorder _

  encode_moves : (ms : List (Message v)) → Steps R (encode s ms)
  unfolding encode
  encode_moves ms = record {
    at = λ w. (checked_moves (s.codec.encode (get_context s w) new_payload ms)).at w;
  }

  decode_moves : (p : Payload) → Steps R (decode s p)
  unfolding decode
  decode_moves p = checked_moves (s.codec.decode p [])

  receive_moves : (op : String) (r : Reply v) → Steps R (receive s op r)
  unfolding receive
  receive_moves op (refused e) = Steps-stop k.preorder _
  receive_moves op no_reply = Steps-stop k.preorder _
  receive_moves op (failed e) = Steps-stop k.preorder _
  receive_moves op (replied p) = record {
    at = λ w. elim (Bool-cases (s.is_stream p.flags)) [
      | inl e ↦ rw e (k.asks stop_stream w)
      | inr e ↦ rw e (k.preorder.same w)
    ];
  }

  -- A request, and what is made of the reply.
  asked_moves :
      (p : Payload) (answer : Reply v → Method v Payload)
      → ((r : Reply v) → Steps R (answer r))
      → Steps R (λ w. let (reply, w') = exec s p w in answer reply w')
  unfolding exec
  asked_moves p answer h = record {
    at = λ w.
        let w' = record w { pool_log = w.pool_log ++ sent p ∷ [] } in
        k.preorder.both w w' _ (k.asks (sent p) w) ((h (s.exec w'.pool_log)).at w');
  }

  exchange_moves : (op : String) (ms : List (Message v)) → Steps R (exchange s op ms)
  unfolding exchange
  exchange_moves op ms = Steps-bind k.preorder (encode s ms) _ (encode_moves ms) λ p.
      Steps-bind k.preorder (λ w. let (reply, w') = exec s p w in receive s op reply w') _
        (asked_moves p (receive s op) (receive_moves op)) decode_moves

  put_pld_moves : (w : Workflow v) → R w (put_pld w)
  unfolding put_pld
  put_pld_moves w = k.lends _ w

  get_pld_moves : (w : Workflow v) → R w (get_pld w)
  unfolding get_pld
  get_pld_moves w = k.lends _ w

  -- `flushQueue`, if what it takes in may go in.
  flush_messages_moves :
      ((ms : List (Message v)) (w : Workflow v) → R w (take_in ms w))
      → (ms : List (Message v)) → Steps R (flush_messages s ms)
  flush_messages_moves takes [] = Steps-pure k.preorder tt
  flush_messages_moves takes (m ∷ ms) = record {
    at = λ w.
        k.preorder.both w _ _
          ((Steps-bind k.preorder (modify get_pld) _ (Steps-modify k.preorder get_pld get_pld_moves)
              (λ _.
                Steps-bind k.preorder (exchange s "flush_queue" (m ∷ ms))
                  (λ got. modify (take_in got)) (exchange_moves "flush_queue" (m ∷ ms))
                  (λ got. Steps-modify k.preorder (take_in got) (takes got)))).at
            w)
          (put_pld_moves _);
  }

  pub flush_queue_moves :
      ((ms : List (Message v)) (w : Workflow v) → R w (take_in ms w)) → Steps R (flush_queue s)
  unfolding flush_queue
  flush_queue_moves takes = record {
    at = λ w. (flush_messages_moves takes (Queue.messages w.mq)).at w;
  }

  putting_moves :
      {A : Type 0} (w : Workflow v) (r : Exit v A × Workflow v) → R w r.1 → R w (putting s r).1
  putting_moves w (returns a, w') g = g
  putting_moves w (stops x, w') g = k.preorder.both w w' _ g (put_pld_moves w')

  run_reply_moves : (r : Reply v) → Steps R (run_reply s r)
  run_reply_moves (refused f) = record { at = put_pld_moves }
  run_reply_moves no_reply = receive_moves _ no_reply
  run_reply_moves (failed f) = receive_moves _ (failed f)
  run_reply_moves (replied p) = receive_moves _ (replied p)

  only_moves : (ms : List (Message v)) → Steps R (only s ms)
  only_moves [] = record { at = put_pld_moves }
  only_moves (m ∷ []) = record { at = put_pld_moves }
  only_moves (m ∷ n ∷ ms) = record { at = put_pld_moves }

  pub run_command_moves :
      (cmd : Dynamic v) (payloads : Option (Payloads v)) (header : Option v.Header)
      → Steps R (run_command s cmd payloads header)
  unfolding run_command
  run_command_moves cmd payloads header = record {
    at = λ w.
        let (msg, mq) = Queue.allocate_message seq cmd payloads header (empty_message v) w.mq in
        k.preorder.both w (record w { mq = mq }) _ (k.queues mq w)
          ((Steps-bind k.preorder (modify get_pld) _ (Steps-modify k.preorder get_pld get_pld_moves)
              λ _.
                Steps-bind k.preorder (λ w. putting s (encode s (msg ∷ []) w)) _
                  (record { at = λ w. putting_moves w _ ((encode_moves (msg ∷ [])).at w) })
                  λ p.
                    Steps-bind k.preorder
                      (λ w. let (reply, w') = exec s p w in run_reply s reply w') _
                      (asked_moves p (run_reply s) run_reply_moves)
                      λ r.
                        Steps-bind k.preorder (λ w. putting s (decode s r w)) (only s)
                          (record { at = λ w. putting_moves w _ ((decode_moves r).at w) })
                          only_moves).at
            (record w { mq = mq }));
  }
