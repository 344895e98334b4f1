-- ===== src/Rpc.antt =====
-- rpc.go: what the plugin answers to the calls that replay a workflow or download its history, and to
-- the heartbeat of an activity. The Temporal client, the SDK's replayer and the file system are
-- parameters. The two calls that list the names of a map, in no fixed order, are left out.
pub mod Answers
use roadrunner_temporal.Base.{
  ℕ, String, str_eq, Bool, true, false, Option, none, some, List, [], ◌∷◌, ◌++◌, if◌then◌else◌,
  ◌||◌,
}
use roadrunner_temporal.Base.Int.{ℤ, is_zero}
use roadrunner_temporal.Vendor.{Vendor}
use roadrunner_temporal.Errors.{GoError, Result, ok, err, fault, str, ◌>>=◌, ◌>>◌}
use roadrunner_temporal.Payload.{Bytes}
use roadrunner_temporal.Protocol.{Payloads}
use roadrunner_temporal.Exec.{PanicValue, of_text}
use roadrunner_temporal.Activity.{Activity, ActivityContext, get_activity_context}

-- `common.Status`, whose codes are those of gRPC.
pub record Status : Type 0 where
  pub code : ℕ
  pub message : String

abbrev pub invalid_argument : ℕ
invalid_argument = 3

abbrev pub failed_precondition : ℕ
failed_precondition = 9

abbrev pub internal : ℕ
internal = 13

pub record WorkflowExecution : Type 0 where
  pub workflow_id : String
  pub run_id : String

-- `ReplayRequest`; a workflow type is its name.
pub record ReplayRequest : Type 0 where
  pub workflow_execution : Option WorkflowExecution
  pub workflow_type : Option String
  pub save_path : String
  pub last_event_id : ℤ

-- The client, the workflow definition and their calls. A history is what the iterator gives from one
-- `HasNext` to the next; `show` is `Error()` of an error.
pub record RpcServices (v : Vendor) : Type 1 where
  pub Client : Type 0
  pub Definition : Type 0
  pub Event : Type 0
  pub history : Client → WorkflowExecution → List (Result v Event)
  pub replay : Definition → String → List Event → Option v.Fault
  pub replay_file : Definition → String → String → Option v.Fault
  pub replay_partial_file : Definition → String → String → ℤ → Option v.Fault
  pub create : String → Option v.Fault
  pub marshal : List Event → Result v Bytes
  pub write : String → Bytes → Option v.Fault
  pub show : GoError v → String
  pub unmarshal_payloads : Bytes → Result v (Payloads v)
  pub is_done : ActivityContext v → Bool

abbrev pub name_or_empty : Option String → String
name_or_empty none = ""
name_or_empty (some name) = name

-- A call goes on with a value, has set a status and returned, or panics.
pub data Check (v : Vendor) (A : Type 0) : Type 0 where
  pass : A → Check v A
  refuse : Status → Check v A
  crash : PanicValue v → Check v A

module _ {v : Vendor} where
  abbrev pub after : {A B : Type 0} → Check v A → (A → Check v B) → Check v B
  after (pass a) f = f a
  after (refuse s) f = refuse s
  after (crash p) f = crash p

  abbrev pub refused_with : {A : Type 0} → ℕ → String → Check v A
  refused_with code message = refuse (record { code = code; message = message })

  -- `none` is a status that was not set.
  abbrev pub status_of : Check v (Unit {0}) → Option Status
  status_of (pass u) = some (record { code = 0; message = "" })
  status_of (refuse s) = some s
  status_of (crash p) = none

  abbrev pub named_execution :
      String → WorkflowExecution → String → Check v (WorkflowExecution × String)
  named_execution message x name =
      if str_eq x.run_id "" || (str_eq x.workflow_id "" || str_eq name "")
      then refused_with invalid_argument message
      else pass (x, name)

  -- Both guards of `ReplayWorkflow`, and of `DownloadWorkflowHistory` with its path given.
  abbrev pub check_execution :
      String → Option WorkflowExecution → Option String → Check v (WorkflowExecution × String)
  check_execution message (some x) (some name) = named_execution message x name
  check_execution message _ _ = refused_with invalid_argument message

  abbrev pub check_path : String → Check v (Unit {0})
  check_path path =
      if str_eq path ""
      then refused_with invalid_argument "run_id, workflow_id or save_path should not be empty"
      else pass tt

  abbrev pub check_named : String → Check v String
  check_named name =
      if str_eq name ""
      then refused_with invalid_argument "workflow_name should not be empty"
      else pass name

  -- The guards of `ReplayFromJSON`.
  abbrev pub check_json : Option String → String → Check v String
  check_json none path =
      refused_with invalid_argument "workflow_name and save_path should not be empty"
  check_json (some name) path =
      if str_eq path ""
      then refused_with invalid_argument "workflow_name and save_path should not be empty"
      else check_named name

  -- The guard of `ReplayWorkflowHistory`.
  abbrev pub check_history : {A : Type 0} → Option A → Option String → Check v (A × String)
  check_history none type =
      refused_with failed_precondition "workflow_name and/or history should not be empty"
  check_history (some h) type =
      if str_eq (name_or_empty type) ""
      then refused_with failed_precondition "workflow_name and/or history should not be empty"
      else pass (h, name_or_empty type)

  -- A nil client is called all the same.
  abbrev pub need_client : {A : Type 0} → Option A → Check v A
  need_client none = crash (of_text "invalid memory address or nil pointer dereference" "")
  need_client (some c) = pass c

  abbrev pub need_definition : {A : Type 0} → Option A → Check v A
  need_definition none =
      refused_with failed_precondition "workflow definition is not initialized, retry in a second"
  need_definition (some d) = pass d

module _ {v : Vendor} (s : RpcServices v) where
  abbrev pub fail_with : ℕ → Option v.Fault → Check v (Unit {0})
  fail_with code none = pass tt
  fail_with code (some f) = refused_with code (s.show (fault f))

  abbrev pub result_or_internal : {A : Type 0} → Result v A → Check v A
  result_or_internal (ok a) = pass a
  result_or_internal (err e) = refused_with internal (s.show e)

  -- The loop over the iterator.
  abbrev pub iterate : List (Result v s.Event) → List s.Event → Check v (List s.Event)
  iterate [] events = pass events
  iterate (ok e ∷ rest) events = iterate rest (events ++ e ∷ [])
  iterate (err e ∷ rest) events = refused_with internal (s.show e)

  unfoldable pub replay_workflow :
      ReplayRequest → Option s.Client → Option s.Definition → Check v (Unit {0})
  replay_workflow r client definition =
      after
        (check_execution "run_id, workflow_id or workflow_name should not be empty"
          r.workflow_execution r.workflow_type)
        λ x. after (need_client client) λ c. after (iterate (s.history c x.0) []) λ events.
          after (need_definition definition)
            λ d. fail_with failed_precondition (s.replay d x.1 events)

  unfoldable pub download_workflow_history : ReplayRequest → Option s.Client → Check v (Unit {0})
  download_workflow_history r client = after (check_path r.save_path) λ _.
      after
        (check_execution "run_id, workflow_id or save_path should not be empty" r.workflow_execution
          r.workflow_type)
        λ x. after (fail_with internal (s.create r.save_path)) λ _. after (need_client client) λ c.
          after (iterate (s.history c x.0) []) λ events.
            after (result_or_internal (s.marshal events))
              λ bytes. fail_with internal (s.write r.save_path bytes)

  abbrev pub replay_from_file : s.Definition → String → String → ℤ → Option v.Fault
  replay_from_file d name path last =
      if is_zero last then s.replay_file d name path else s.replay_partial_file d name path last

  unfoldable pub replay_from_json : ReplayRequest → Option s.Definition → Check v (Unit {0})
  replay_from_json r definition = after (check_json r.workflow_type r.save_path) λ name.
      after (need_definition definition)
        λ d. fail_with failed_precondition (replay_from_file d name r.save_path r.last_event_id)

  unfoldable pub replay_workflow_history :
      Option (List s.Event) → Option String → Option s.Definition → Check v (Unit {0})
  replay_workflow_history history type definition = after (check_history history type) λ h.
      after (need_definition definition) λ d. fail_with failed_precondition (s.replay d h.1 h.0)

  abbrev pub details_of : Bytes → Result v (Payloads v)
  details_of [] = ok []
  details_of (b ∷ bs) = s.unmarshal_payloads (b ∷ bs)

  abbrev pub known_definition : Option (Activity v) → Result v (Activity v)
  known_definition none = err (str "no activity definition registered")
  known_definition (some a) = ok a

  -- The context and the details of the heartbeat that is recorded, and whether it was cancelled.
  unfoldable pub record_activity_heartbeat :
      String → Bytes → Option (Activity v) → Result v (ActivityContext v × Payloads v × Bool)
  record_activity_heartbeat token details definition = do
    ps ← details_of details
    a ← known_definition definition
    ctx ← get_activity_context token a
    ok (ctx, ps, s.is_done ctx)
