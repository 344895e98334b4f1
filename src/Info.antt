-- ===== src/Info.antt =====
-- info.go: what a worker process offers, asked of it in one exchange, and the maps of names that are
-- made of the answer. The codec and the pool are parameters.
pub mod Asked
pub mod Last
use roadrunner_temporal.Base.{
  ℕ, String, str_eq, Bool, true, false, Option, none, some, List, [], ◌∷◌, ◌++◌, if◌then◌else◌,
}
use roadrunner_temporal.Vendor.{Vendor}
use roadrunner_temporal.Errors.{GoError, fault, str}
use roadrunner_temporal.Payload.{Payload, new_payload}
use roadrunner_temporal.Protocol.{Context, Message, value, get_worker_info}
use roadrunner_temporal.Codec.{WorkerInfo, WorkflowEntry, ActivityEntry}
use roadrunner_temporal.Exec.{
  Exit, returns, stops, error, Exec, pure, fail, checked, ◌>>=◌, ◌>>◌, wrapping,
}
use roadrunner_temporal.Workflow.{
  Codec, Reply, refused, no_reply, failed, replied, PoolCall, sent, stop_stream,
}

-- `common.Codec` with its `DecodeWorkerInfo`, the pool that is asked, and the test of `frame.STREAM`.
pub record InfoServices (v : Vendor) (Options : Type 0) : Type 0 where
  pub codec : Codec v
  pub decode_worker_info :
      Payload → List (WorkerInfo Options) → List (WorkerInfo Options) × Option (GoError v)
  pub exec : List PoolCall → Reply v
  pub is_stream : ℕ → Bool

-- `&internal.Context{}`.
abbrev pub no_context : Context
no_context = record { task_queue = ""; tick_time = ""; replay = false; history_len = 0; rr_id = "" }

abbrev pub info_request : (v : Vendor) → String → Message v
info_request v version = record {
  id = 0;
  command = some (value (get_worker_info version));
  failure = none;
  payloads = none;
  header = none;
}

module _ {v : Vendor} {Options : Type 0} (s : InfoServices v Options) where
  -- The `select` on the channel that the pool returned.
  abbrev pub take_reply : Reply v → Exec v (List PoolCall) Payload
  take_reply (refused f) = fail (fault f)
  take_reply no_reply = fail (str "worker empty response")
  take_reply (failed f) = fail (fault f)
  take_reply (replied p) = λ log.
      if s.is_stream p.flags
      then (stops (error (str "streaming is not supported")), log ++ stop_stream ∷ [])
      else (returns p, log)

  abbrev pub exec_info : Payload → Exec v (List PoolCall) Payload
  exec_info p log = take_reply (s.exec (log ++ sent p ∷ [])) (log ++ sent p ∷ [])

  abbrev pub ask_info : String → Exec v (List PoolCall) (List (WorkerInfo Options))
  ask_info version = do
    p ← checked (s.codec.encode no_context new_payload (info_request v version ∷ []))
    r ← exec_info p
    checked (s.decode_worker_info r [])

  -- Every error is wrapped in the name of the operation. The state is the calls of the pool.
  unfoldable pub worker_info : String → Exec v (List PoolCall) (List (WorkerInfo Options))
  worker_info version = wrapping "workflow_definition_init" (ask_info version)

-- `map[string]*T`.
abbrev pub Named : Type 0 → Type 0
Named A = String → Option A

abbrev pub no_names : {A : Type 0} → Named A
no_names name = none

abbrev pub name_entry : {A : Type 0} → String → A → Named A → Named A
name_entry key a m name = if str_eq name key then some a else m name

abbrev pub add_workflows : List WorkflowEntry → Named WorkflowEntry → Named WorkflowEntry
add_workflows [] m = m
add_workflows (e ∷ es) m = add_workflows es (name_entry e.name e m)

abbrev pub add_activities : List ActivityEntry → Named ActivityEntry → Named ActivityEntry
add_activities [] m = m
add_activities (e ∷ es) m = add_activities es (name_entry e.name e m)

module _ {Options : Type 0} where
  abbrev pub workflows_loop : List (WorkerInfo Options) → Named WorkflowEntry → Named WorkflowEntry
  workflows_loop [] m = m
  workflows_loop (w ∷ ws) m = workflows_loop ws (add_workflows w.workflows m)

  unfoldable pub workflows_info : List (WorkerInfo Options) → Named WorkflowEntry
  workflows_info wi = workflows_loop wi no_names

  abbrev pub activities_loop : List (WorkerInfo Options) → Named ActivityEntry → Named ActivityEntry
  activities_loop [] m = m
  activities_loop (w ∷ ws) m = activities_loop ws (add_activities w.activities m)

  unfoldable pub activities_info : List (WorkerInfo Options) → Named ActivityEntry
  activities_info wi = activities_loop wi no_names
