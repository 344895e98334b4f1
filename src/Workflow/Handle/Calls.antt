-- ===== src/Workflow/Handle/Calls.antt =====
-- What `handleMessage` of aggregatedpool/handler.go asks of the SDK, and what it leaves alone.
use roadrunner_temporal.Base.{
  ℕ, String, str_eq, str_append, ◌+◌, ◌%◌, ◌≡◌, refl, sym, Option, none, some, List, [], ◌∷◌, subst,
  inl, inr, Bool-cases, if◌then◌else◌,
}
use roadrunner_temporal.Vendor.{Vendor}
use roadrunner_temporal.Errors.{Result}
use roadrunner_temporal.Protocol.{
  Payloads, Message, Command, execute_activity, execute_local_activity, execute_child_workflow,
  get_worker_info, invoke_activity, invoke_local_activity, start_workflow, invoke_signal,
  invoke_query, invoke_update, cancel_workflow, destroy_workflow, get_stack_trace,
  undefined_response, get_child_workflow_execution, new_timer, get_version, side_effect,
  complete_workflow, continue_as_new, upsert_workflow_search_attributes, signal_external_workflow,
  cancel_external_workflow, cancel, panic, ChildOptions, Dynamic, pointer,
}
use roadrunner_temporal.Protocol.Params.{
  ChildParams, activity_params, local_activity_params, workflow_params, to_duration,
}
use roadrunner_temporal.Registry
use roadrunner_temporal.Exec.{modify, lift, ◌>>◌}
use roadrunner_temporal.Exec.Steps.{
  Steps, Steps-pure, Steps-stop, Steps-lift, Steps-modify, Steps-bind,
}
use roadrunner_temporal.Workflow.{Workflow, Services, EnvCall, CompleteError, of_version}
use roadrunner_temporal.Workflow.Frame.{Grows}
use roadrunner_temporal.Workflow.Exchange.{flush_queue}
use roadrunner_temporal.Workflow.Callbacks.{call}
use roadrunner_temporal.Workflow.Callbacks.Moves.{rebound_moves}
use roadrunner_temporal.Workflow.Callbacks.Laws.{Keeps-Answering}
use roadrunner_temporal.Workflow.Handle.{
  register, respond, handle_activity, handle_local_activity, child_id, handle_child,
  handle_get_child, handle_version, complete_response, completion, continuation, upsert_result,
  fault_or_nil, panic_error, handle_pointer, handle_dynamic, handle_message,
}
use roadrunner_temporal.Workflow.Handle.Moves.{handle_message_moves}
use roadrunner_temporal.Workflow.Handle.Cancelling.{Grows-Handling}
use roadrunner_temporal.Workflow.Handle.Logging.{
  Silent, Silent-preorder, Logs, Silent-Logs, Keeps-Silent, registered, responded, numbered, called,
  prefixed, only_call, flush-Silent,
}

module _ {v : Vendor} (s : Services v) where
  -- The parameters of a child workflow: one with no id of its own gets the run id, an underscore, and
  -- the next number of the workflow, which wraps around at 64 bits.
  abbrev pub named_child : ChildParams v → Workflow v → ChildParams v
  named_child params w =
      if str_eq params.options.workflow_id ""
      then record params {
        options = record params.options {
          workflow_id =
              str_append (s.env.info w.env_log).run_id
                (str_append "_" (s.itoa ((w.seq_id + 1) % 18446744073709551616)));
        };
      }
      else params

  -- How a workflow is completed: with the payloads, or with the error that the failure stands for.
  abbrev pub completed_by : Option v.Failure → Option (Payloads v) → EnvCall v
  completed_by none payloads = EnvCall.complete payloads none
  completed_by (some f) payloads =
      EnvCall.complete none (some (CompleteError.of_fault (v.failure_to_error f)))

  -- What the SDK is asked to do for a command: a table of one call for each, which uses no function of
  -- the handler.
  abbrev pub calls_of : Command v → Message v → Workflow v → List (EnvCall v)
  calls_of (execute_activity name o) m w =
      EnvCall.execute_activity (activity_params (s.env.info w.env_log) name o m.payloads m.header)
        m.id
      ∷ []
  calls_of (execute_local_activity name o) m w =
      EnvCall.execute_local_activity
        (local_activity_params (s.env.info w.env_log) name o m.payloads m.header) m.id
      ∷ []
  calls_of (execute_child_workflow name o) m w =
      EnvCall.execute_child_workflow
        (named_child (workflow_params (s.env.info w.env_log) name o m.payloads m.header) w) m.id
      ∷ []
  calls_of (new_timer ms) m w = EnvCall.new_timer (to_duration ms) m.id ∷ []
  calls_of (get_version change_id low high) m w = EnvCall.get_version change_id low high ∷ []
  calls_of side_effect m w = EnvCall.side_effect m.payloads m.id ∷ []
  calls_of complete_workflow m w = completed_by m.failure m.payloads ∷ []
  calls_of (continue_as_new name o) m w =
      EnvCall.complete none (
        some (
          CompleteError.of_continue (record {
            workflow_type = name;
            input = m.payloads;
            header = m.header;
            task_queue_name = o.task_queue_name;
            workflow_run_timeout = o.workflow_run_timeout;
            workflow_task_timeout = o.workflow_task_timeout;
          })))
      ∷ []
  calls_of (upsert_workflow_search_attributes a) m w = EnvCall.upsert_search_attributes a ∷ []
  calls_of (signal_external_workflow c) m w =
      EnvCall.signal_external_workflow c m.payloads m.header m.id ∷ []
  calls_of (cancel_external_workflow namespace workflow_id run_id) m w =
      EnvCall.request_cancel_external_workflow namespace workflow_id run_id m.id ∷ []
  calls_of _ m w = []

  -- `Cancel` runs cancellables, which make calls of their own.
  abbrev pub IsDirect : Command v → Type 0
  IsDirect (cancel ids) = ⊥
  IsDirect c = Unit {0}

  lift-Silent : {A : Type 0} (r : Result v A) → Steps {A = A} (Silent {v = v}) (lift r)
  lift-Silent r = Steps-lift Silent-preorder r

  answering-Silent :
      (id : ℕ) (p : Option (Payloads v)) → Steps Silent (modify (respond id p) >> flush_queue s)
  answering-Silent id p =
      Steps-bind Silent-preorder (modify (respond id p)) (λ _. flush_queue s)
        (Steps-modify Silent-preorder (respond id p) (responded id p)) (λ _. flush-Silent s)

  handle_version-Logs :
      (c : EnvCall v) (msg : Message v) (w : Workflow v)
      → Logs (c ∷ []) w (handle_version s c msg w).1
  unfolding handle_version
  handle_version-Logs c msg w =
      called s c _
        (record {
          at = λ w.
              let p = s.env.to_payloads (of_version (s.env.version w.env_log)) in
              (Steps-bind Silent-preorder (lift p)
                  (λ p. modify (respond msg.id (some p)) >> flush_queue s) (lift-Silent p)
                  (λ p. answering-Silent msg.id (some p))).at
                w;
        })
        w

  child_id-named :
      (params : ChildParams v) (w : Workflow v) → (child_id s params w).0 ≡ named_child params w
  unfolding child_id
  child_id-named params w = elim (Bool-cases (str_eq params.options.workflow_id "")) [
    | inl e ↦ rw e
    | inr e ↦ rw e
  ]

  completion-completed_by :
      (msg : Message v) (f : Option v.Failure) → completion s msg f ≡ completed_by f msg.payloads
  completion-completed_by msg none = refl
  completion-completed_by msg (some f) = refl

  handle_child-Logs :
      (name : String) (o : ChildOptions v) (msg : Message v) (w : Workflow v)
      → Logs (calls_of (execute_child_workflow name o) msg w) w (handle_child s name o msg w).1
  unfolding handle_child
  handle_child-Logs name o msg w =
      let params = workflow_params (s.env.info w.env_log) name o msg.payloads msg.header in
      let (p, w') = child_id s params w in
      subst
        (λ q. Logs (EnvCall.execute_child_workflow q msg.id ∷ []) w (handle_child s name o msg w).1)
        (child_id-named params w)
        (prefixed w w' _ _ (numbered params s w) (
          called s (EnvCall.execute_child_workflow p msg.id) (modify (register msg.id _))
            (Steps-modify Silent-preorder _ (registered msg.id _)) w'))

  handle_get_child-Silent :
      (id : ℕ) (msg : Message v) (w : Workflow v) → Silent w (handle_get_child s id msg w).1
  unfolding handle_get_child
  handle_get_child-Silent id msg w =
      let (notice, ids) = Registry.listen id msg.id w.ids in
      Keeps-Silent w _ (rebound_moves s (Keeps-Answering s) notice ids w)

  nothing : (w : Workflow v) → Logs [] w w
  nothing w = Silent-Logs w w (Silent-preorder.same w)

  nil_error-Silent : (f : Option v.Fault) → Steps Silent (fault_or_nil s f)
  nil_error-Silent none = Steps-pure Silent-preorder tt
  nil_error-Silent (some f) = Steps-stop Silent-preorder _

  panic_error-Silent : (f : Option v.Failure) → Steps Silent (panic_error s f)
  panic_error-Silent (some f) = Steps-stop Silent-preorder _
  panic_error-Silent none = nil_error-Silent v.nil_failure_error

  upsert_result-Silent : (f : Option v.Fault) → Steps Silent (upsert_result s f)
  upsert_result-Silent none = Steps-pure Silent-preorder tt
  upsert_result-Silent (some f) = Steps-stop Silent-preorder _

  completing :
      (c : EnvCall v) (msg : Message v) (w : Workflow v)
      → Logs (c ∷ []) w (call s c (complete_response s msg w)).1
  completing c msg w =
      prefixed w (complete_response s msg w) _ (c ∷ []) (responded msg.id _ w)
        (only_call s c (complete_response s msg w))

  handle_pointer-Logs :
      (c : Command v) (msg : Message v) (w : Workflow v)
      → IsDirect c
      → Logs (calls_of c msg w) w (handle_pointer s c msg w).1
  unfolding handle_pointer handle_activity handle_local_activity
  handle_pointer-Logs (execute_activity name o) msg w d =
      called s _ (modify _) (record { at = λ w. registered msg.id _ w }) w
  handle_pointer-Logs (execute_local_activity name o) msg w d =
      called s _ (modify _) (record { at = λ w. registered msg.id _ w }) w
  handle_pointer-Logs (execute_child_workflow name o) msg w d = handle_child-Logs name o msg w
  handle_pointer-Logs (get_child_workflow_execution id) msg w d =
      Silent-Logs w _ (handle_get_child-Silent id msg w)
  handle_pointer-Logs (new_timer ms) msg w d =
      called s _ (modify _) (record { at = λ w. registered msg.id _ w }) w
  handle_pointer-Logs (get_version change_id low high) msg w d =
      handle_version-Logs (EnvCall.get_version change_id low high) msg w
  handle_pointer-Logs side_effect msg w d = only_call s _ w
  handle_pointer-Logs complete_workflow msg w d =
      subst (λ c. Logs (c ∷ []) w (handle_pointer s complete_workflow msg w).1)
        (completion-completed_by msg msg.failure) (completing (completion s msg msg.failure) msg w)
  handle_pointer-Logs (continue_as_new name o) msg w d =
      completing (continuation s name o msg) msg w
  handle_pointer-Logs (upsert_workflow_search_attributes a) msg w d =
      called s _ _ (record { at = λ w. (upsert_result-Silent (s.env.upsert_error w.env_log)).at w })
        w
  handle_pointer-Logs (signal_external_workflow c) msg w d = only_call s _ w
  handle_pointer-Logs (cancel_external_workflow namespace workflow_id run_id) msg w d =
      only_call s _ w
  handle_pointer-Logs (panic message) msg w d =
      Silent-Logs w _ ((panic_error-Silent msg.failure).at w)
  handle_pointer-Logs (cancel ids) msg w d = elim d [ ]
  handle_pointer-Logs (get_worker_info _) msg w d = nothing w
  handle_pointer-Logs (invoke_activity _ _ _) msg w d = nothing w
  handle_pointer-Logs (invoke_local_activity _ _) msg w d = nothing w
  handle_pointer-Logs (start_workflow _ _) msg w d = nothing w
  handle_pointer-Logs (invoke_signal _ _) msg w d = nothing w
  handle_pointer-Logs (invoke_query _ _) msg w d = nothing w
  handle_pointer-Logs (invoke_update _) msg w d = nothing w
  handle_pointer-Logs (cancel_workflow _) msg w d = nothing w
  handle_pointer-Logs (destroy_workflow _) msg w d = nothing w
  handle_pointer-Logs (get_stack_trace _) msg w d = nothing w
  handle_pointer-Logs (undefined_response _) msg w d = nothing w

  -- However the environment answers and whatever handlers it runs meanwhile, handling a message
  -- leaves the loop flag, the header and the waiting updates alone, adds to the pipeline only at its
  -- end, and, inside the loop, puts no callback off.
  pub handle_message-Grows : (msg : Message v) → Steps Grows (handle_message s msg)
  handle_message-Grows = handle_message_moves s (Grows-Handling s)

  -- For every message whose command is a pointer to a struct that is no `Cancel`, the handler makes
  -- exactly the call of the table `calls_of`, or none where the table has none, whether it returns,
  -- fails or panics, and whatever handlers the environment runs meanwhile; and it adds to the
  -- pipeline only at its end.
  pub handle_message-Logs :
      (msg : Message v) (c : Command v)
      → msg.command ≡ some (pointer c)
      → IsDirect c
      → (w : Workflow v) → Logs (calls_of c msg w) w (handle_message s msg w).1
  unfolding handle_message handle_dynamic
  handle_message-Logs msg c e d w =
      subst (λ (o : Option (Dynamic v)). Logs (calls_of c msg w) w (handle_dynamic s o msg w).1)
        (sym e) (handle_pointer-Logs c msg w d)
