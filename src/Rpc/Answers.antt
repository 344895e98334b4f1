-- ===== src/Rpc/Answers.antt =====
-- When the calls of rpc.go answer with the status OK.
use roadrunner_temporal.Base.{
  ℕ, String, str_eq, eq_iff, ◌≡◌, ◌≢◌, ◌↔◌, refl, sym, ap, ◌∙◌, Bool, true, false, Bool-cases, inl,
  inr, Option, none, some, List, [], ◌∷◌, ◌++◌, map, append_assoc, append-nil, subst, if◌then◌else◌,
  ◌||◌, if_false,
}
use roadrunner_temporal.Vendor.{Vendor}
use roadrunner_temporal.Errors.{Result, ok, err}
use roadrunner_temporal.Payload.{Bytes}
use roadrunner_temporal.Rpc.{
  Status, WorkflowExecution, ReplayRequest, RpcServices, Check, pass, refuse, crash, after,
  check_execution, check_path, need_client, need_definition, fail_with, result_or_internal, iterate,
  replay_workflow, download_workflow_history,
}

module _ {v : Vendor} {A B : Type 0} where
  after-pass :
      (c : Check v A) (f : A → Check v B) {b : B}
      → after c f ≡ pass b
      → (a : A) × (c ≡ pass a) × (f a ≡ pass b)
  after-pass (pass a) f e = (a, refl, e)
  after-pass (refuse s) f e = absurd cc
  after-pass (crash p) f e = absurd cc

  passes :
      (c : Check v A) (f : A → Check v B) (a : A) {b : B}
      → c ≡ pass a
      → f a ≡ pass b
      → after c f ≡ pass b
  passes c f a e k = ap (λ c. after c f) e ∙ k

text_false : (t : String) → t ≢ "" → str_eq t "" ≡ false
text_false t n = elim (Bool-cases (str_eq t "")) [
  | inl e ↦ absurd (n ((eq_iff t "").0 e))
  | inr e ↦ e
]

text_named : (t : String) → str_eq t "" ≡ false → t ≢ ""
text_named t e q = let b = (eq_iff t "").1 q in cc

or_false : (a b : Bool) → (a || b) ≡ false → (a ≡ false) × (b ≡ false)
or_false false b e = (refl, e)
or_false true b e = absurd cc

none_true : (a b : Bool) → a ≡ false → b ≡ false → (a || b) ≡ false
none_true false b e f = f
none_true true b e f = absurd cc

-- The request names a workflow execution and a workflow type.
pub record Named (r : ReplayRequest) (x : WorkflowExecution) (name : String) : Type 0 where
  pub execution : r.workflow_execution ≡ some x
  pub type : r.workflow_type ≡ some name
  pub run_id : x.run_id ≢ ""
  pub workflow_id : x.workflow_id ≢ ""
  pub name_given : name ≢ ""

module _ {v : Vendor} where
  gate-pass :
      {A : Type 0} (b : Bool) (s : Status) (a : A) {q : A}
      → ◌≡◌ {A = Check v A} (if b then refuse s else pass a) (pass q)
      → (b ≡ false) × (a ≡ q)
  gate-pass true s a e = absurd cc
  gate-pass false s a e = (refl, cc)

  check-Named :
      (message : String) (r : ReplayRequest) (xo : Option WorkflowExecution) (type : Option String)
      → r.workflow_execution ≡ xo
      → r.workflow_type ≡ type
      → (q : WorkflowExecution × String) → check_execution {v = v} message xo type ≡ pass q
      → Named r q.0 q.1
  check-Named message r none type e f q h = absurd cc
  check-Named message r (some x) none e f q h = absurd cc
  check-Named message r (some x) (some name) e f q h =
      let (g, same) =
        gate-pass (str_eq x.run_id "" || (str_eq x.workflow_id "" || str_eq name "")) _ (x, name)
          h in
      let (a, bc) = or_false (str_eq x.run_id "") _ g in
      let (b, c) = or_false (str_eq x.workflow_id "") _ bc in
      subst (λ q. Named r q.0 q.1) same
        (record {
          execution = e;
          type = f;
          run_id = text_named x.run_id a;
          workflow_id = text_named x.workflow_id b;
          name_given = text_named name c;
        })

  Named-check :
      (message : String) (r : ReplayRequest) (x : WorkflowExecution) (name : String)
      → Named r x name
      → check_execution {v = v} message r.workflow_execution r.workflow_type ≡ pass (x, name)
  Named-check message r x name n =
      rw (n.execution, n.type)
        (if_false _ (pass (x, name)) (
          none_true (str_eq x.run_id "") _ (text_false x.run_id n.run_id) (
            none_true (str_eq x.workflow_id "") _ (text_false x.workflow_id n.workflow_id)
              (text_false name n.name_given))))

  client-pass : {A : Type 0} (o : Option A) {a : A} → need_client {v = v} o ≡ pass a → o ≡ some a
  client-pass none e = absurd cc
  client-pass (some c) e = cc

  definition-pass :
      {A : Type 0} (o : Option A) {a : A} → need_definition {v = v} o ≡ pass a → o ≡ some a
  definition-pass none e = absurd cc
  definition-pass (some c) e = cc

module _ {v : Vendor} (s : RpcServices v) where
  fail_with-pass : (code : ℕ) (o : Option v.Fault) → fail_with s code o ≡ pass tt → o ≡ none
  fail_with-pass code none e = refl
  fail_with-pass code (some f) e = absurd cc

  iterate-pass :
      (rs : List (Result v s.Event)) (events : List s.Event) {all : List s.Event}
      → iterate s rs events ≡ pass all
      → (es : List s.Event) × (rs ≡ map ok es) × (all ≡ events ++ es)
  iterate-pass [] events {all} h =
      ([], refl, (let same : events ≡ all = cc in sym same) ∙ sym (append-nil events))
  iterate-pass (ok e ∷ rs) events h =
      let (es, r, a) = iterate-pass rs (events ++ e ∷ []) h in
      (e ∷ es, ap (λ t. ok e ∷ t) r, a ∙ append_assoc events (e ∷ []) es)
  iterate-pass (err x ∷ rs) events h = absurd cc

  iterate-all : (es events : List s.Event) → iterate s (map ok es) events ≡ pass (events ++ es)
  iterate-all [] events = ap pass (sym (append-nil events))
  iterate-all (e ∷ es) events =
      iterate-all es (events ++ e ∷ []) ∙ ap pass (append_assoc events (e ∷ []) es)

  module _ (r : ReplayRequest) (client : Option s.Client) where
    -- The whole history of the named execution came from the client, and was replayed with no error.
    pub record Replayed (definition : Option s.Definition) : Type 0 where
      pub execution : WorkflowExecution
      pub name : String
      pub named : Named r execution name
      pub connection : s.Client
      pub connected : client ≡ some connection
      pub events : List s.Event
      pub received : s.history connection execution ≡ map ok events
      pub handler : s.Definition
      pub defined : definition ≡ some handler
      pub fine : s.replay handler name events ≡ none

    -- The whole history was written to the file that the request names.
    pub record Downloaded : Type 0 where
      pub path_given : r.save_path ≢ ""
      pub execution : WorkflowExecution
      pub name : String
      pub named : Named r execution name
      pub created : s.create r.save_path ≡ none
      pub connection : s.Client
      pub connected : client ≡ some connection
      pub events : List s.Event
      pub received : s.history connection execution ≡ map ok events
      pub bytes : Bytes
      pub marshalled : s.marshal events ≡ ok bytes
      pub written : s.write r.save_path bytes ≡ none

    pass-Replayed :
        (definition : Option s.Definition)
        → replay_workflow s r client definition ≡ pass tt
        → Replayed definition
    unfolding replay_workflow
    pass-Replayed definition h =
        let (q, a, h1) = after-pass (check_execution _ r.workflow_execution r.workflow_type) _ h in
        let (c, b, h2) = after-pass (need_client client) _ h1 in
        let (all, g, h3) = after-pass (iterate s (s.history c q.0) []) _ h2 in
        let (d, f, h4) = after-pass (need_definition definition) _ h3 in
        let (es, got, same) = iterate-pass (s.history c q.0) [] g in
        record {
          execution = q.0;
          name = q.1;
          named = check-Named _ r r.workflow_execution r.workflow_type refl refl q a;
          connection = c;
          connected = client-pass client b;
          events = es;
          received = got;
          handler = d;
          defined = definition-pass definition f;
          fine = subst (λ t. s.replay d q.1 t ≡ none) same (fail_with-pass 9 _ h4);
        }

    Replayed-pass :
        (definition : Option s.Definition)
        → Replayed definition
        → replay_workflow s r client definition ≡ pass tt
    unfolding replay_workflow
    Replayed-pass definition x =
        passes (check_execution _ r.workflow_execution r.workflow_type) _ (x.execution, x.name)
          (Named-check _ r x.execution x.name x.named)
          (rw (x.connected, x.received, iterate-all x.events [], x.defined, x.fine) refl)

    result-pass : {A : Type 0} (o : Result v A) {a : A} → result_or_internal s o ≡ pass a → o ≡ ok a
    result-pass (ok b) e = cc
    result-pass (err x) e = absurd cc

    path-pass : (path : String) → check_path {v = v} path ≡ pass tt → path ≢ ""
    path-pass path h = text_named path (gate-pass (str_eq path "") _ tt h).0

    Named-path : (path : String) → path ≢ "" → check_path {v = v} path ≡ pass tt
    Named-path path n = if_false _ (pass tt) (text_false path n)

    pass-Downloaded : download_workflow_history s r client ≡ pass tt → Downloaded
    unfolding download_workflow_history
    pass-Downloaded h =
        let (u, p, h0) = after-pass (check_path r.save_path) _ h in
        let (q, a, h1) = after-pass (check_execution _ r.workflow_execution r.workflow_type) _ h0 in
        let (u', made, h2) = after-pass (fail_with s 13 (s.create r.save_path)) _ h1 in
        let (c, b, h3) = after-pass (need_client client) _ h2 in
        let (all, g, h4) = after-pass (iterate s (s.history c q.0) []) _ h3 in
        let (bytes, m, h5) = after-pass (result_or_internal s (s.marshal all)) _ h4 in
        let (es, got, same) = iterate-pass (s.history c q.0) [] g in
        record {
          path_given = path-pass r.save_path p;
          execution = q.0;
          name = q.1;
          named = check-Named _ r r.workflow_execution r.workflow_type refl refl q a;
          created = fail_with-pass 13 (s.create r.save_path) made;
          connection = c;
          connected = client-pass client b;
          events = es;
          received = got;
          bytes = bytes;
          marshalled = ap s.marshal (sym same) ∙ result-pass (s.marshal all) m;
          written = fail_with-pass 13 _ h5;
        }

    Downloaded-pass : Downloaded → download_workflow_history s r client ≡ pass tt
    unfolding download_workflow_history
    Downloaded-pass x = passes (check_path r.save_path) _ tt (Named-path r.save_path x.path_given) (
        passes (check_execution _ r.workflow_execution r.workflow_type) _ (x.execution, x.name)
          (Named-check _ r x.execution x.name x.named)
          (rw (x.created, x.connected, x.received, iterate-all x.events [], x.marshalled, x.written)
            refl))

    -- `ReplayWorkflow` answers OK exactly if the request names a workflow execution and a workflow type,
    -- there is a client, the iterator gave the whole history with no error, there is a workflow
    -- definition, and the replay of that history had no error. `DownloadWorkflowHistory` answers OK
    -- exactly if, besides a client and the whole history, the file of the request could be created, and
    -- the history be marshalled and written to it.
    pub replay_workflow-Replayed :
        (definition : Option s.Definition)
        → ((replay_workflow s r client definition ≡ pass tt) ↔ Replayed definition)
          × ((download_workflow_history s r client ≡ pass tt) ↔ Downloaded)
    replay_workflow-Replayed definition =
        ((pass-Replayed definition, Replayed-pass definition), (pass-Downloaded, Downloaded-pass))
