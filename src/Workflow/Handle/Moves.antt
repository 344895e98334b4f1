-- ===== src/Workflow/Handle/Moves.antt =====
-- What holds of `handleMessage` of aggregatedpool/handler.go for every message, if it holds of what
-- the handler is made of.
use roadrunner_temporal.Base.{
  ℕ, String, Option, none, some, List, [], ◌∷◌, ◌++◌, load, delete, Option-cases, inl, inr,
}
use roadrunner_temporal.Vendor.{Vendor}
use roadrunner_temporal.Protocol.{
  Payloads, Message, Command, ChildOptions, Dynamic, value, pointer, foreign, execute_activity,
  execute_local_activity, execute_child_workflow, get_child_workflow_execution, new_timer,
  get_version, side_effect, complete_workflow, continue_as_new, upsert_workflow_search_attributes,
  signal_external_workflow, cancel_external_workflow, cancel, panic,
}
use roadrunner_temporal.Protocol.Params.{ChildParams, workflow_params}
use roadrunner_temporal.Registry
use roadrunner_temporal.Canceller.{cancel_one}
use roadrunner_temporal.Canceller
use roadrunner_temporal.Canceller.Laws.{cancel_fine, cancel_failed}
use roadrunner_temporal.Exec.{Stop, modify, lift, or_stop, ◌>>◌}
use roadrunner_temporal.Exec.Steps.{
  IsPreorder, Steps, Steps-pure, Steps-stop, Steps-lift, Steps-modify, Steps-bind, Steps-wrapping,
}
use roadrunner_temporal.Workflow.{
  Workflow, Services, EnvCall, Cancellable, of_activity, of_local_activity, of_child, of_timer,
  of_version,
}
use roadrunner_temporal.Workflow.Exchange.{flush_queue}
use roadrunner_temporal.Workflow.Callbacks.{call}
use roadrunner_temporal.Workflow.Callbacks.Moves.{
  Answering, Answering_map, call_moves, rebound_moves,
}
use roadrunner_temporal.Workflow.Handle.{
  register, respond, run_cancellable, host, handle_activity, handle_local_activity, child_id,
  handle_child, handle_get_child, handle_version, complete_response, handle_cancel, upsert_result,
  fault_or_nil, panic_error, handle_pointer, handle_dynamic, handle_message,
}

-- What the canceller needs.
pub record Cancelling {v : Vendor} (s : Services v) (R : Workflow v → Workflow v → Type 0)
    : Type 0 where
  pub answering : Answering s R
  pub logs : (c : EnvCall v) (w : Workflow v) → R w (record w { env_log = w.env_log ++ c ∷ [] })
  pub discards : (id : ℕ) (w : Workflow v) → R w (record w { canceller = delete id w.canceller })

pub Cancelling_map :
    {v : Vendor} (s : Services v) {R R' : Workflow v → Workflow v → Type 0}
    → IsPreorder R'
    → ((w w' : Workflow v) → R w w' → R' w w')
    → Cancelling s R
    → Cancelling s R'
Cancelling_map s p f k = record {
  answering = Answering_map s p f k.answering;
  logs = λ c w. f w _ (k.logs c w);
  discards = λ id w. f w _ (k.discards id w);
}

pub record Handling {v : Vendor} (s : Services v) (R : Workflow v → Workflow v → Type 0)
    : Type 0 where
  pub cancelling : Cancelling s R
  pub registers : (id : ℕ) (c : Cancellable v) (w : Workflow v) → R w (register id c w)
  pub responds : (id : ℕ) (p : Option (Payloads v)) (w : Workflow v) → R w (respond id p w)
  pub numbers : (p : ChildParams v) (w : Workflow v) → R w (child_id s p w).1

module _ {v : Vendor} (s : Services v) {R : Workflow v → Workflow v → Type 0}
    (k : Cancelling s R) where
  pub cancelling_call : (c : EnvCall v) → Steps R (call s c)
  cancelling_call = call_moves s k.answering k.logs

  pub run_cancellable_moves : (c : Cancellable v) → Steps R (run_cancellable s c)
  unfolding run_cancellable
  run_cancellable_moves (of_activity a) = cancelling_call _
  run_cancellable_moves (of_local_activity a) = cancelling_call _
  run_cancellable_moves (of_child namespace workflow_id) = cancelling_call _
  run_cancellable_moves (of_timer none) = Steps-pure k.answering.preorder tt
  run_cancellable_moves (of_timer (some t)) = cancelling_call _

  abbrev cancel_found : ℕ → Option (Cancellable v) → Workflow v → Option (Stop v) × Workflow v
  cancel_found id o w = elim o [
    | none ↦ (none, w)
    | some c ↦ (host s).call c ((host s).with_ids (delete id w.canceller) w)
  ]

  cancel_found_moves :
      (id : ℕ) (o : Option (Cancellable v)) (w : Workflow v) → R w (cancel_found id o w).1
  unfolding host
  cancel_found_moves id none w = k.answering.preorder.same w
  cancel_found_moves id (some c) w =
      k.answering.preorder.both w _ _ (k.discards id w) ((run_cancellable_moves c).at _)

  cancel_one_moves : (id : ℕ) (w : Workflow v) → R w (cancel_one (host s) id w).1
  unfolding cancel_one host
  cancel_one_moves id w = cancel_found_moves id (load id w.canceller) w

  pub cancel_moves : (ids : List ℕ) (w : Workflow v) → R w (Canceller.cancel (host s) ids w).1
  cancel_moves [] w = unfold Canceller.cancel in k.answering.preorder.same w
  cancel_moves (id ∷ ids) w =
      let one = cancel_one_moves id w in
      let w' = (cancel_one (host s) id w).1 in
      elim (Option-cases (cancel_one (host s) id w).0) [
        | inl fine ↦
            rw (cancel_fine (host s) id ids w fine)
              (k.answering.preorder.both w w' _ one (cancel_moves ids w'))
        | inr (x, failed) ↦ rw (cancel_failed (host s) id ids w failed) one
      ]

module _ {v : Vendor} (s : Services v) {R : Workflow v → Workflow v → Type 0}
    (k : Handling s R) where
  -- A method, and then a change of the workflow that depends on it.
  then_modify :
      (c : EnvCall v) (f : Workflow v → Workflow v)
      → ((w : Workflow v) → R w (f w))
      → Steps R (call s c >> modify f)
  then_modify c f h =
      Steps-bind k.cancelling.answering.preorder (call s c) (λ _. modify f)
        (cancelling_call s k.cancelling c) (λ _. Steps-modify k.cancelling.answering.preorder f h)

  answered_moves :
      (id : ℕ) (p : Option (Payloads v)) → Steps R (modify (respond id p) >> flush_queue s)
  answered_moves id p =
      Steps-bind k.cancelling.answering.preorder (modify (respond id p)) (λ _. flush_queue s)
        (Steps-modify k.cancelling.answering.preorder (respond id p) (k.responds id p))
        (λ _. k.cancelling.answering.flushes)

  handle_version_moves : (c : EnvCall v) (msg : Message v) → Steps R (handle_version s c msg)
  unfolding handle_version
  handle_version_moves c msg =
      Steps-bind k.cancelling.answering.preorder (call s c) _ (cancelling_call s k.cancelling c)
        λ _. record {
          at = λ w.
              let p = s.env.to_payloads (of_version (s.env.version w.env_log)) in
              (Steps-bind k.cancelling.answering.preorder (lift p)
                  (λ p. modify (respond msg.id (some p)) >> flush_queue s)
                  (Steps-lift k.cancelling.answering.preorder p)
                  (λ p. answered_moves msg.id (some p))).at
                w;
        }

  handle_child_moves :
      (name : String) (o : ChildOptions v) (msg : Message v) → Steps R (handle_child s name o msg)
  unfolding handle_child
  handle_child_moves name o msg = record {
    at = λ w.
        let params = workflow_params (s.env.info w.env_log) name o msg.payloads msg.header in
        let (p, w') = child_id s params w in
        k.cancelling.answering.preorder.both w w' _ (k.numbers params w) (
          (then_modify (EnvCall.execute_child_workflow p msg.id)
              (register msg.id (of_child p.options.namespace p.options.workflow_id))
              (k.registers msg.id _)).at
            w');
  }

  handle_cancel_moves : (ids : List ℕ) (msg : Message v) → Steps R (handle_cancel s ids msg)
  unfolding handle_cancel
  handle_cancel_moves ids msg =
      Steps-bind k.cancelling.answering.preorder (λ w. or_stop (Canceller.cancel (host s) ids w)) _
        (record {
          at = λ w. stopped w (Canceller.cancel (host s) ids w) (cancel_moves s k.cancelling ids w);
        })
        (λ _. answered_moves msg.id _)
    where
      stopped : (w : Workflow v) (r : Option (Stop v) × Workflow v) → R w r.1 → R w (or_stop r).1
      stopped w (none, w') g = g
      stopped w (some x, w') g = g

  handle_get_child_moves : (id : ℕ) (msg : Message v) → Steps R (handle_get_child s id msg)
  unfolding handle_get_child
  handle_get_child_moves id msg = record {
    at = λ w.
        let (notice, ids) = Registry.listen id msg.id w.ids in
        rebound_moves s k.cancelling.answering notice ids w;
  }

  completed_moves :
      (c : EnvCall v) (msg : Message v) → Steps R (modify (complete_response s msg) >> call s c)
  completed_moves c msg =
      Steps-bind k.cancelling.answering.preorder (modify (complete_response s msg)) (λ _. call s c)
        (Steps-modify k.cancelling.answering.preorder _ (k.responds msg.id _))
        (λ _. cancelling_call s k.cancelling c)

  fault_moves : (f : Option v.Fault) → Steps R (fault_or_nil s f)
  fault_moves none = Steps-pure k.cancelling.answering.preorder tt
  fault_moves (some f) = Steps-stop k.cancelling.answering.preorder _

  panic_moves : (f : Option v.Failure) → Steps R (panic_error s f)
  panic_moves none = fault_moves v.nil_failure_error
  panic_moves (some f) = Steps-stop k.cancelling.answering.preorder _

  upsert_moves : (f : Option v.Fault) → Steps R (upsert_result s f)
  upsert_moves none = Steps-pure k.cancelling.answering.preorder tt
  upsert_moves (some f) = Steps-stop k.cancelling.answering.preorder _

  -- The new timer, the activity and the local activity are registered under what the environment says.
  registered_moves :
      (c : EnvCall v) (id : ℕ) (f : Workflow v → Cancellable v)
      → Steps R (call s c >> modify (λ w. register id (f w) w))
  registered_moves c id f = then_modify c (λ w. register id (f w) w) (λ w. k.registers id (f w) w)

  handle_pointer_moves : (c : Command v) (msg : Message v) → Steps R (handle_pointer s c msg)
  unfolding handle_pointer handle_activity handle_local_activity
  handle_pointer_moves (execute_activity name o) msg = record {
    at = λ w. (registered_moves _ msg.id _).at w;
  }
  handle_pointer_moves (execute_local_activity name o) msg = record {
    at = λ w. (registered_moves _ msg.id _).at w;
  }
  handle_pointer_moves (execute_child_workflow name o) msg = handle_child_moves name o msg
  handle_pointer_moves (get_child_workflow_execution id) msg = handle_get_child_moves id msg
  handle_pointer_moves (new_timer ms) msg = record { at = λ w. (registered_moves _ msg.id _).at w }
  handle_pointer_moves (get_version change_id low high) msg =
      Steps-wrapping k.cancelling.answering.preorder "handleMessage" _ (handle_version_moves _ msg)
  handle_pointer_moves side_effect msg = cancelling_call s k.cancelling _
  handle_pointer_moves complete_workflow msg = completed_moves _ msg
  handle_pointer_moves (continue_as_new name o) msg = completed_moves _ msg
  handle_pointer_moves (upsert_workflow_search_attributes a) msg =
      Steps-bind k.cancelling.answering.preorder (call s _) _ (cancelling_call s k.cancelling _)
        (λ _. record { at = λ w. (upsert_moves (s.env.upsert_error w.env_log)).at w })
  handle_pointer_moves (signal_external_workflow c) msg = cancelling_call s k.cancelling _
  handle_pointer_moves (cancel_external_workflow namespace workflow_id run_id) msg =
      cancelling_call s k.cancelling _
  handle_pointer_moves (panic message) msg = panic_moves msg.failure
  handle_pointer_moves (cancel ids) msg =
      Steps-wrapping k.cancelling.answering.preorder "handleMessage" _ (handle_cancel_moves ids msg)
  handle_pointer_moves _ msg = Steps-stop k.cancelling.answering.preorder _

  handle_dynamic_moves :
      (c : Option (Dynamic v)) (msg : Message v) → Steps R (handle_dynamic s c msg)
  unfolding handle_dynamic
  handle_dynamic_moves (some (pointer c)) msg = handle_pointer_moves c msg
  handle_dynamic_moves (some (value c)) msg = Steps-stop k.cancelling.answering.preorder _
  handle_dynamic_moves (some (foreign t)) msg = Steps-stop k.cancelling.answering.preorder _
  handle_dynamic_moves none msg = Steps-stop k.cancelling.answering.preorder _

  pub handle_message_moves : (msg : Message v) → Steps R (handle_message s msg)
  unfolding handle_message
  handle_message_moves msg = handle_dynamic_moves msg.command msg
