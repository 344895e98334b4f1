-- ===== src/Activity.antt =====
-- aggregatedpool/activity.go: activities, each run by one exchange with a worker. The gauges are left
-- out. A task token is a string, as `bytesToStr` makes it.
pub mod Running
pub mod Answer
use roadrunner_temporal.Base.{
  ℕ, ◌+◌, ◌-◌, ◌%◌, String, str_eq, Bool, true, false, Option, none, some, List, [], ◌∷◌, ◌++◌,
  if◌then◌else◌, length,
}
use roadrunner_temporal.Vendor.{Vendor}
use roadrunner_temporal.Errors.{GoError, Result, ok, err, fault, str, wrap}
use roadrunner_temporal.Payload.{Payload, new_payload}
use roadrunner_temporal.Protocol.{
  Payloads, Message, Context, ActivityInfo, Command, invoke_activity, value,
}
use roadrunner_temporal.Exec.{
  Exec, stops, error, returns, panics, of_text, pure, stop, fail, checked, modify, ◌>>=◌, ◌>>◌,
  deferring,
}
use roadrunner_temporal.Workflow.{
  Codec, Reply, refused, no_reply, failed, replied, PoolCall, sent, stop_stream,
}

-- What an activity finds in its `context.Context`: `HasHeartbeatDetails` with `GetHeartbeatDetails`,
-- `GetInfo`, and `ActivityHeadersFromCtx`.
pub record ActivityContext (v : Vendor) : Type 0 where
  pub heartbeat_details : Option (Result v (Payloads v))
  pub info : ActivityInfo v
  pub header : Option v.Header

-- `type Activity struct`; `running` is the `sync.Map`, `lent` counts the payloads taken from
-- `pldPool` and not put back, and `pool_log` the calls of the pool.
pub record Activity (v : Vendor) : Type 0 where
  pub seq_id : ℕ
  pub running : String → Option (ActivityContext v)
  pub lent : ℕ
  pub pool_log : List PoolCall

-- The codec, the pool, the test of `frame.STREAM`, and `ErrResultPending`.
pub record ActivityServices (v : Vendor) : Type 0 where
  pub codec : Codec v
  pub exec : List PoolCall → Reply v
  pub is_stream : ℕ → Bool
  pub result_pending : v.Fault

-- The context of a message to an activity: the task queue, and zero values.
abbrev pub queue_context : String → Context
queue_context queue = record {
  task_queue = queue;
  tick_time = "";
  replay = false;
  history_len = 0;
  rr_id = "";
}

module _ {v : Vendor} where
  abbrev pub store_running :
      String
      → ActivityContext v
      → (String → Option (ActivityContext v))
      → String
      → Option (ActivityContext v)
  store_running token ctx running t = if str_eq t token then some ctx else running t

  abbrev pub delete_running :
      String → (String → Option (ActivityContext v)) → String → Option (ActivityContext v)
  delete_running token running t = if str_eq t token then none else running t

  abbrev pub known : Option (ActivityContext v) → Result v (ActivityContext v)
  known none =
      err (wrap "activity_pool_get_activity_context" (str "heartbeat on non running activity"))
  known (some c) = ok c

  unfoldable pub get_activity_context : String → Activity v → Result v (ActivityContext v)
  get_activity_context token a = known (a.running token)

  abbrev pub heartbeat : Option (Result v (Payloads v)) → Exec v (Activity v) (Payloads v)
  heartbeat none = pure []
  heartbeat (some (ok p)) = pure p
  heartbeat (some (err e)) = fail (wrap "activity_pool_execute_activity" e)

  -- The details behind the arguments. With details, arguments that are nil are dereferenced.
  abbrev pub extended : Payloads v → Option (Payloads v) → Exec v (Activity v) (Option (Payloads v))
  extended [] args = pure args
  extended (d ∷ ds) (some ps) = pure (some (ps ++ d ∷ ds))
  extended (d ∷ ds) none =
      stop (panics (of_text "invalid memory address or nil pointer dereference" ""))

  abbrev pub invocation : ActivityContext v → Payloads v → Option (Payloads v) → ℕ → Message v
  invocation ctx details payloads id = record {
    id = id;
    command = some (value (invoke_activity ctx.info.activity_type ctx.info (length details)));
    failure = none;
    payloads = payloads;
    header = ctx.header;
  }

  abbrev pub single : List (Message v) → Exec v (Activity v) (Message v)
  single (m ∷ []) = pure m
  single _ = fail (wrap "activity_pool_execute_activity" (str "invalid activity worker response"))

module _ {v : Vendor} (s : ActivityServices v) where
  -- Streaming is not supported.
  abbrev pub unstreamed : Payload → Exec v (Activity v) Payload
  unstreamed p a =
      if s.is_stream p.flags
      then (
        stops (error (wrap "activity_pool_execute_activity" (str "streaming is not supported"))),
        record a { pool_log = a.pool_log ++ stop_stream ∷ [] },
      )
      else (returns p, a)

  abbrev pub receive : Reply v → Exec v (Activity v) Payload
  receive (refused f) = fail (wrap "activity_pool_execute_activity" (fault f))
  receive no_reply =
      fail (wrap "activity_pool_execute_activity" (str "activity worker empty response"))
  receive (failed f) = fail (wrap "activity_pool_execute_activity" (fault f))
  receive (replied p) = unstreamed p

  abbrev pub outcome :
      Option v.Failure → Option (Payloads v) → Exec v (Activity v) (Option (Payloads v))
  outcome none payloads = pure payloads
  outcome (some f) payloads =
      if str_eq (v.failure_message f) "doNotCompleteOnReturn"
      then fail (fault s.result_pending)
      else fail (fault (v.failure_to_error f))

  -- After the call of `Exec`, whose two ends both delete the token.
  abbrev pub concluded : Reply v → Exec v (Activity v) (Option (Payloads v))
  concluded reply = do
    r ← receive reply
    out ← checked (s.codec.decode r [])
    msg ← single out
    outcome msg.failure msg.payloads

  abbrev pub run_encoded : String → Payload → Exec v (Activity v) (Option (Payloads v))
  run_encoded token p a =
      let log = a.pool_log ++ sent p ∷ [] in
      concluded (s.exec log) (record a { pool_log = log; running = delete_running token a.running })

  abbrev pub exchange : ActivityContext v → Message v → Exec v (Activity v) (Option (Payloads v))
  exchange ctx msg = do
    p ← checked (s.codec.encode (queue_context ctx.info.task_queue) new_payload (msg ∷ []))
    run_encoded ctx.info.task_token p

  -- From the registration of the running activity on.
  abbrev pub run_activity :
      ActivityContext v
      → Option (Payloads v)
      → Payloads v
      → Exec v (Activity v) (Option (Payloads v))
  run_activity ctx args details a =
      let id = (a.seq_id + 1) % 18446744073709551616 in
      let a' = record a {
        running = store_running ctx.info.task_token ctx a.running;
        seq_id = id;
      } in
      (extended details args >>= λ payloads.
      deferring (λ a. record a { lent = a.lent - 1 })
        (modify (λ a. record a { lent = a.lent + 1 })
          >> exchange ctx (invocation ctx details payloads id)))
        a'

  unfoldable pub execute :
      ActivityContext v → Option (Payloads v) → Exec v (Activity v) (Option (Payloads v))
  execute ctx args = heartbeat ctx.heartbeat_details >>= run_activity ctx args
