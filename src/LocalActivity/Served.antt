-- ===== src/LocalActivity/Served.antt =====
-- When a local activity of aggregatedpool/local_activity.go returns a result, and which; and what each
-- run leaves behind.
use roadrunner_temporal.Base.{
  ◌+◌, ◌-◌, String, ◌≡◌, refl, ap, sym, ◌∙◌, ◌↔◌, str_eq, false, Option, none, some, List, [], ◌∷◌,
  ◌++◌, Bool-cases, inl, inr, arith,
}
use roadrunner_temporal.Vendor.{Vendor}
use roadrunner_temporal.Errors.{GoError}
use roadrunner_temporal.Payload.{Payload, new_payload}
use roadrunner_temporal.Protocol.{Payloads, Message, ActivityInfo}
use roadrunner_temporal.Exec.{Exit, returns, stops, checked, ◌>>=◌}
use roadrunner_temporal.Exec.Steps.{IsPreorder, Steps, Steps-pure, Steps-stop, Steps-bind}
use roadrunner_temporal.Workflow.{Reply, refused, no_reply, failed, replied, PoolCall, sent}
use roadrunner_temporal.Activity.{ActivityServices, queue_context}
use roadrunner_temporal.LocalActivity.{
  LocalActivityFn, next_id, local_invocation, the_message, take_result, local_outcome, exec_local,
  exchange_local, execute_local,
}

module _ {v : Vendor} (s : ActivityServices v) where
  -- One exchange: the message was encoded for the task queue and sent, one message came back,
  -- unstreamed and with no failure, and it carries the result.
  pub record Served (queue : String) (msg : Message v) (log : List PoolCall)
      (result : Option (Payloads v)) : Type 0 where
    pub request : Payload
    pub reply : Payload
    pub message : Message v
    pub encoded : s.codec.encode (queue_context queue) new_payload (msg ∷ []) ≡ (request, none)
    pub answered : s.exec (log ++ sent request ∷ []) ≡ replied reply
    pub whole : s.is_stream reply.flags ≡ false
    pub decoded : s.codec.decode reply [] ≡ (message ∷ [], none)
    pub unfailed : message.failure ≡ none
    pub carried : result ≡ message.payloads

  module _ (queue : String) (msg : Message v) (log : List PoolCall) where
    abbrev Serves : Exit v (Option (Payloads v)) → Type 0
    Serves (returns p) = Served queue msg log p
    Serves (stops x) = Unit {0}

    module _ (p : Payload)
        (enc : s.codec.encode (queue_context queue) new_payload (msg ∷ []) ≡ (p, none)) where
      module _ (r : Payload) (ans : s.exec (log ++ sent p ∷ []) ≡ replied r)
          (whole : s.is_stream r.flags ≡ false) where
        unfailed_Serves :
            (m : Message v)
            → s.codec.decode r [] ≡ (m ∷ [], none)
            → (f : Option v.Failure) → m.failure ≡ f
            → (b : LocalActivityFn v) → Serves (local_outcome s f m.payloads b).0
        unfailed_Serves m dec none e b = record {
          request = p;
          reply = r;
          message = m;
          encoded = enc;
          answered = ans;
          whole = whole;
          decoded = dec;
          unfailed = e;
          carried = refl;
        }
        unfailed_Serves m dec (some f) e b =
            elim (Bool-cases (str_eq (v.failure_message f) "doNotCompleteOnReturn")) [
              | inl t ↦ rw t tt
              | inr t ↦ rw t tt
            ]

        decoded_Serves :
            (d : List (Message v) × Option (GoError v))
            → s.codec.decode r [] ≡ d
            → (b : LocalActivityFn v)
            → Serves
                ((checked d >>= λ out.
                    the_message out >>= λ m. local_outcome s m.failure m.payloads)
                  b).0
        decoded_Serves (ms, some e) dec b = tt
        decoded_Serves ([], none) dec b = tt
        decoded_Serves (m ∷ [], none) dec b = unfailed_Serves m dec m.failure refl b
        decoded_Serves (m ∷ n ∷ ms, none) dec b = tt

      replied_Serves :
          (reply : Reply v)
          → s.exec (log ++ sent p ∷ []) ≡ reply
          → (b : LocalActivityFn v)
          → Serves
              ((take_result s reply >>= λ r. checked (s.codec.decode r []) >>= λ out.
                  the_message out >>= λ m. local_outcome s m.failure m.payloads)
                b).0
      replied_Serves (refused f) ans b = tt
      replied_Serves no_reply ans b = tt
      replied_Serves (failed f) ans b = tt
      replied_Serves (replied r) ans b = elim (Bool-cases (s.is_stream r.flags)) [
        | inl stream ↦ rw stream tt
        | inr whole ↦ rw whole (decoded_Serves r ans whole (s.codec.decode r []) refl b)
      ]

    encoded_Serves :
        (a : LocalActivityFn v)
        → a.pool_log ≡ log
        → (e : Payload × Option (GoError v))
        → s.codec.encode (queue_context queue) new_payload (msg ∷ []) ≡ e
        → Serves
            ((checked e >>= λ p. exec_local s p >>= λ r. checked (s.codec.decode r []) >>= λ out.
                the_message out >>= λ m. local_outcome s m.failure m.payloads)
              a).0
    encoded_Serves a l (p, some x) enc = tt
    encoded_Serves a l (p, none) enc =
        replied_Serves p enc (s.exec (a.pool_log ++ sent p ∷ []))
          (ap (λ t. s.exec (t ++ sent p ∷ [])) (sym l)) _

    Serves-back :
        (r : Exit v (Option (Payloads v))) (p : Option (Payloads v))
        → Serves r
        → r ≡ returns p
        → Served queue msg log p
    Serves-back (returns q) p k e = let same : q ≡ p = cc in rw (← same) k
    Serves-back (stops x) p k e = absurd cc

  -- What an exchange leaves alone.
  record Leaves (a b : LocalActivityFn v) : Type 0 where
    pub header : b.header ≡ a.header
    pub seq_id : b.seq_id ≡ a.seq_id
    pub lent : b.lent ≡ a.lent

  Leaves-preorder : IsPreorder Leaves
  Leaves-preorder = record {
    same = λ a. record { header = refl; seq_id = refl; lent = refl };
    both = λ a b c x y. record {
      header = y.header ∙ x.header;
      seq_id = y.seq_id ∙ x.seq_id;
      lent = y.lent ∙ x.lent;
    };
  }

  checked-Leaves : {A : Type 0} (r : A × Option (GoError v)) → Steps Leaves (checked r)
  checked-Leaves (x, none) = Steps-pure Leaves-preorder x
  checked-Leaves (x, some e) = Steps-stop Leaves-preorder _

  take_Leaves : (r : Reply v) → Steps Leaves (take_result s r)
  take_Leaves (refused f) = Steps-stop Leaves-preorder _
  take_Leaves no_reply = Steps-stop Leaves-preorder _
  take_Leaves (failed f) = Steps-stop Leaves-preorder _
  take_Leaves (replied p) = record {
    at = λ a. elim (Bool-cases (s.is_stream p.flags)) [
      | inl e ↦ rw e (record { header = refl; seq_id = refl; lent = refl })
      | inr e ↦ rw e (Leaves-preorder.same a)
    ];
  }

  exec_Leaves : (p : Payload) → Steps Leaves (exec_local s p)
  exec_Leaves p = record {
    at = λ a.
        let log = a.pool_log ++ sent p ∷ [] in
        Leaves-preorder.both a (record a { pool_log = log }) _
          (record { header = refl; seq_id = refl; lent = refl })
          ((take_Leaves (s.exec log)).at (record a { pool_log = log }));
  }

  message_Leaves : (ms : List (Message v)) → Steps Leaves (the_message ms)
  message_Leaves [] = Steps-stop Leaves-preorder _
  message_Leaves (m ∷ []) = Steps-pure Leaves-preorder m
  message_Leaves (m ∷ n ∷ ms) = Steps-stop Leaves-preorder _

  outcome_Leaves :
      (f : Option v.Failure) (p : Option (Payloads v)) → Steps Leaves (local_outcome s f p)
  outcome_Leaves none p = Steps-pure Leaves-preorder p
  outcome_Leaves (some f) p = record {
    at = λ a. elim (Bool-cases (str_eq (v.failure_message f) "doNotCompleteOnReturn")) [
      | inl e ↦ rw e (Leaves-preorder.same a)
      | inr e ↦ rw e (Leaves-preorder.same a)
    ];
  }

  exchange_Leaves : (queue : String) (msg : Message v) → Steps Leaves (exchange_local s queue msg)
  exchange_Leaves queue msg =
      Steps-bind Leaves-preorder
        (checked (s.codec.encode (queue_context queue) new_payload (msg ∷ []))) _ (checked-Leaves _)
        λ p. Steps-bind Leaves-preorder (exec_local s p) _ (exec_Leaves p) λ r.
          Steps-bind Leaves-preorder (checked (s.codec.decode r [])) _ (checked-Leaves _) λ out.
            Steps-bind Leaves-preorder (the_message out) _ (message_Leaves out)
              (λ m. outcome_Leaves m.failure m.payloads)

  module _ (info : ActivityInfo v) (token : String) (args : Option (Payloads v))
      (a : LocalActivityFn v) where
    Served-returns :
        (p : Option (Payloads v))
        → Served info.task_queue (local_invocation info token args a) a.pool_log p
        → (execute_local s info token args a).0 ≡ returns p
    unfolding execute_local
    Served-returns p x =
        rw (x.encoded, x.answered, x.whole, x.decoded, x.unfailed) (ap returns (sym x.carried))

    returns-Served :
        (p : Option (Payloads v))
        → (execute_local s info token args a).0 ≡ returns p
        → Served info.task_queue (local_invocation info token args a) a.pool_log p
    unfolding execute_local
    returns-Served p e =
        let msg = local_invocation info token args a in
        Serves-back info.task_queue msg a.pool_log (execute_local s info token args a).0 p
          (encoded_Serves info.task_queue msg a.pool_log _ refl
            (s.codec.encode (queue_context info.task_queue) new_payload (msg ∷ [])) refl)
          e

    pub record Kept (b : LocalActivityFn v) : Type 0 where
      pub header : b.header ≡ a.header
      pub seq_id : b.seq_id ≡ next_id a
      pub lent : b.lent ≡ a.lent

    execute_local-Kept : Kept (execute_local s info token args a).1
    unfolding execute_local
    execute_local-Kept =
        let borrowed = record a { seq_id = next_id a; lent = a.lent + 1 } in
        let k =
          (exchange_Leaves info.task_queue (local_invocation info token args a)).at borrowed in
        record { header = k.header; seq_id = k.seq_id; lent = ap (λ n. n - 1) k.lent ∙ omega arith }

    -- A local activity returns a result exactly if its invocation, under the next number, could be
    -- encoded for the task queue, the pool answered it with a reply that is no stream, and that decodes
    -- to exactly one message with no failure: the result is the payloads of that message. However it
    -- ends, it has used up one number, put its payload back, and kept its header.
    pub execute_local-Served :
        (p : Option (Payloads v))
        → (((execute_local s info token args a).0 ≡ returns p)
            ↔ Served info.task_queue (local_invocation info token args a) a.pool_log p)
          × Kept (execute_local s info token args a).1
    execute_local-Served p = ((returns-Served p, Served-returns p), execute_local-Kept)
