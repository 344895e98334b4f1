-- ===== src/LocalActivity.antt =====
-- aggregatedpool/local_activity.go: local activities, each run by one exchange with a worker. The
-- gauges are left out, and `uuid.NewString` is an argument.
pub mod Served
use roadrunner_temporal.Base.{
  ℕ, ◌+◌, ◌-◌, ◌%◌, String, str_eq, Option, none, some, List, [], ◌∷◌, ◌++◌, if◌then◌else◌,
}
use roadrunner_temporal.Vendor.{Vendor}
use roadrunner_temporal.Errors.{GoError, fault, str, wrap}
use roadrunner_temporal.Payload.{Payload, new_payload}
use roadrunner_temporal.Protocol.{Payloads, Message, ActivityInfo, invoke_local_activity, value}
use roadrunner_temporal.Exec.{
  Exec, stops, error, returns, pure, fail, checked, modify, ◌>>=◌, ◌>>◌, deferring,
}
use roadrunner_temporal.Workflow.{
  Reply, refused, no_reply, failed, replied, PoolCall, sent, stop_stream,
}
use roadrunner_temporal.Activity.{ActivityServices, queue_context}

-- `lent` counts the payloads taken from the pool `pldP` and not put back, and `pool_log` the calls of
-- the pool.
pub record LocalActivityFn (v : Vendor) : Type 0 where
  pub header : Option v.Header
  pub seq_id : ℕ
  pub lent : ℕ
  pub pool_log : List PoolCall

module _ {v : Vendor} where
  unfoldable pub new_local_activity_fn : Option v.Header → LocalActivityFn v
  new_local_activity_fn header = record { header = header; seq_id = 0; lent = 0; pool_log = [] }

  abbrev pub next_id : LocalActivityFn v → ℕ
  next_id a = (a.seq_id + 1) % 18446744073709551616

  -- The task token of a local activity is a new UUID.
  abbrev pub local_invocation :
      ActivityInfo v → String → Option (Payloads v) → LocalActivityFn v → Message v
  local_invocation info token args a = record {
    id = next_id a;
    command =
        some
          (value (invoke_local_activity info.activity_type (record info { task_token = token })));
    failure = none;
    payloads = args;
    header = a.header;
  }

  abbrev pub the_message : List (Message v) → Exec v (LocalActivityFn v) (Message v)
  the_message (m ∷ []) = pure m
  the_message _ =
      fail (wrap "activity_pool_execute_activity" (str "invalid local activity worker response"))

module _ {v : Vendor} (s : ActivityServices v) where
  abbrev pub one_part : Payload → Exec v (LocalActivityFn v) Payload
  one_part p a =
      if s.is_stream p.flags
      then (
        stops (error (wrap "activity_pool_execute_activity" (str "streaming is not supported"))),
        record a { pool_log = a.pool_log ++ stop_stream ∷ [] },
      )
      else (returns p, a)

  abbrev pub take_result : Reply v → Exec v (LocalActivityFn v) Payload
  take_result (refused f) = fail (wrap "activity_pool_execute_activity" (fault f))
  take_result no_reply = fail (wrap "activity_pool_execute_activity" (str "worker empty response"))
  take_result (failed f) = fail (wrap "activity_pool_execute_activity" (fault f))
  take_result (replied p) = one_part p

  abbrev pub local_outcome :
      Option v.Failure → Option (Payloads v) → Exec v (LocalActivityFn v) (Option (Payloads v))
  local_outcome none payloads = pure payloads
  local_outcome (some f) payloads =
      if str_eq (v.failure_message f) "doNotCompleteOnReturn"
      then fail (fault s.result_pending)
      else fail (fault (v.failure_to_error f))

  abbrev pub exec_local : Payload → Exec v (LocalActivityFn v) Payload
  exec_local p a =
      let log = a.pool_log ++ sent p ∷ [] in take_result (s.exec log) (record a { pool_log = log })

  abbrev pub exchange_local : String → Message v → Exec v (LocalActivityFn v) (Option (Payloads v))
  exchange_local queue msg = do
    p ← checked (s.codec.encode (queue_context queue) new_payload (msg ∷ []))
    r ← exec_local p
    out ← checked (s.codec.decode r [])
    m ← the_message out
    local_outcome m.failure m.payloads

  unfoldable pub execute_local :
      ActivityInfo v
      → String
      → Option (Payloads v)
      → Exec v (LocalActivityFn v) (Option (Payloads v))
  execute_local info token args a =
      deferring (λ a. record a { lent = a.lent - 1 })
        (modify (λ a. record a { lent = a.lent + 1 })
          >> exchange_local info.task_queue (local_invocation info token args a))
        (record a { seq_id = next_id a })
