-- ===== src/Workflow/Exchange.antt =====
-- `getContext`, `flushQueue` and `runCommand` of aggregatedpool/handler.go: one exchange of
-- messages with the worker process. The queue-size gauges are left out.
pub mod Laws
pub mod Command
pub mod Wired
pub mod Moves
use roadrunner_temporal.Base.{
  ℕ, String, ◌+◌, ◌-◌, Bool, true, false, Option, none, some, List, [], ◌∷◌, ◌++◌, if◌then◌else◌,
}
use roadrunner_temporal.Vendor.{Vendor}
use roadrunner_temporal.Errors.{GoError, fault, str, wrap}
use roadrunner_temporal.Payload.{Payload, new_payload}
use roadrunner_temporal.Protocol.{Payloads, Context, Message, Dynamic, empty_message}
use roadrunner_temporal.Queue
use roadrunner_temporal.Queue.{MessageQueue, seq}
use roadrunner_temporal.Exec.{
  Exit, returns, stops, Stop, error, Exec, pure, fail, checked, modify, ◌>>=◌, ◌>>◌, deferring,
}
use roadrunner_temporal.Workflow.{
  Workflow, Services, Environment, Codec, Reply, refused, no_reply, failed, replied, sent,
  stop_stream,
}

abbrev pub Method : Vendor → Type 0 → Type 0
Method v A = Exec v (Workflow v) A

module _ {v : Vendor} where
  -- `getPld` and `putPld`. A payload of the pool is as good as new: `putPld` clears what `Encode`
  -- writes.
  unfoldable pub get_pld : Workflow v → Workflow v
  get_pld w = record w { lent = w.lent + 1 }

  unfoldable pub put_pld : Workflow v → Workflow v
  put_pld w = record w { lent = w.lent - 1 }

  -- The end of `flushQueue`.
  unfoldable pub take_in : List (Message v) → Workflow v → Workflow v
  take_in msgs w = record w { mq = Queue.flush w.mq; pipeline = w.pipeline ++ msgs }

module _ {v : Vendor} (s : Services v) where
  unfoldable pub get_context : Workflow v → Context
  get_context w = record {
    task_queue = (s.env.info w.env_log).task_queue_name;
    tick_time = s.env.now w.env_log;
    replay = s.env.is_replaying w.env_log;
    history_len = (s.env.info w.env_log).history_length;
    rr_id = w.rr_id;
  }

  -- The `select` on the channel that the pool returned, for the operation `op`.
  unfoldable pub receive : String → Reply v → Method v Payload
  receive op (refused f) w = (stops (error (fault f)), w)
  receive op no_reply w = (stops (error (wrap op (str "worker empty response"))), w)
  receive op (failed f) w = (stops (error (wrap op (fault f))), w)
  receive op (replied p) w =
      if s.is_stream p.flags
      then (
        stops (error (wrap op (str "streaming is not supported"))),
        record w { pool_log = w.pool_log ++ stop_stream ∷ [] },
      )
      else (returns p, w)

  -- `Exec` of the pool: the call is logged, and answered by what the log has become.
  unfoldable pub exec : Payload → Workflow v → Reply v × Workflow v
  exec p w = let w' = record w { pool_log = w.pool_log ++ sent p ∷ [] } in (s.exec w'.pool_log, w')

  unfoldable pub encode : List (Message v) → Method v Payload
  unfolding get_context
  encode msgs w = checked (s.codec.encode (get_context w) new_payload msgs) w

  unfoldable pub decode : Payload → Method v (List (Message v))
  decode p = checked (s.codec.decode p [])

  -- From encoding to decoding.
  unfoldable pub exchange : String → List (Message v) → Method v (List (Message v))
  unfolding encode exec receive decode
  exchange op msgs = do
    p ← encode msgs
    r ← λ w. let (reply, w') = exec p w in receive op reply w'
    decode r

  abbrev pub flush_messages : List (Message v) → Method v (Unit {0})
  flush_messages [] = pure tt
  flush_messages (m ∷ ms) =
      deferring put_pld
        (modify get_pld >> (exchange "flush_queue" (m ∷ ms) >>= λ msgs. modify (take_in msgs)))

  unfoldable pub flush_queue : Method v (Unit {0})
  unfolding exchange take_in get_pld put_pld
  flush_queue w = flush_messages (Queue.messages w.mq) w

  abbrev pub only : List (Message v) → Method v (Message v)
  only (m ∷ []) w = (returns m, put_pld w)
  only _ w = (
    stops (error (wrap "workflow_process_runcommand" (str "unexpected pool response"))),
    put_pld w,
  )

  -- An error of the encoder, of `Exec` and of the decoder puts the payload back first.
  abbrev pub putting : {A : Type 0} → Exit v A × Workflow v → Exit v A × Workflow v
  putting (returns a, w) = (returns a, w)
  putting (stops x, w) = (stops x, put_pld w)

  -- Of the ways in which `Exec` can go wrong only its own error puts the payload back.
  abbrev pub run_reply : Reply v → Method v Payload
  run_reply (refused f) w = (stops (error (fault f)), put_pld w)
  run_reply r w = receive "workflow_process_runcommand" r w

  unfoldable pub run_command :
      Dynamic v → Option (Payloads v) → Option v.Header → Method v (Message v)
  unfolding encode exec receive decode get_pld put_pld
  run_command cmd payloads header = do
    msg ← λ w.
        let (m, mq) = Queue.allocate_message seq cmd payloads header (empty_message v) w.mq in
        (returns m, record w { mq = mq })
    modify get_pld
    p ← λ w. putting (encode (msg ∷ []) w)
    r ← λ w. let (reply, w') = exec p w in run_reply reply w'
    msgs ← λ w. putting (decode r w)
    only msgs
