-- ===== src/Activity/Answer.antt =====
-- When an activity of aggregatedpool/activity.go returns a result, and which.
use roadrunner_temporal.Base.{
  ◌+◌, ◌%◌, ◌≡◌, refl, str_eq, false, Option, none, some, List, [], ◌∷◌, ◌++◌, Bool-cases, inl, inr,
}
use roadrunner_temporal.Vendor.{Vendor}
use roadrunner_temporal.Errors.{GoError, Result, ok, err}
use roadrunner_temporal.Payload.{Payload, new_payload}
use roadrunner_temporal.Protocol.{Payloads, Message}
use roadrunner_temporal.Exec.{Exit, returns, stops, checked, ◌>>=◌}
use roadrunner_temporal.Workflow.{Reply, refused, no_reply, failed, replied, PoolCall, sent}
use roadrunner_temporal.Activity.{
  Activity, ActivityContext, ActivityServices, heartbeat, extended, invocation, queue_context,
  single, outcome, concluded, run_encoded, run_activity, execute,
}

module _ {v : Vendor} (s : ActivityServices v) (ctx : ActivityContext v) where
  -- The invocation was encoded and sent, one message came back, unstreamed and with no failure, and
  -- it carries the result `p`.
  pub record Answered (msg : Message v) (log : List PoolCall) (p : Option (Payloads v))
      : Type 0 where
    pub request : Payload
    pub reply : Payload
    pub message : Message v
    pub encoded :
        s.codec.encode (queue_context ctx.info.task_queue) new_payload (msg ∷ []) ≡ (request, none)
    pub answered : s.exec (log ++ sent request ∷ []) ≡ replied reply
    pub whole : s.is_stream reply.flags ≡ false
    pub decoded : s.codec.decode reply [] ≡ (message ∷ [], none)
    pub unfailed : message.failure ≡ none
    pub result : p ≡ message.payloads

  abbrev Good : Message v → List PoolCall → Exit v (Option (Payloads v)) → Type 0
  Good msg log (returns p) = Answered msg log p
  Good msg log (stops x) = Unit {0}

  module _ (msg : Message v) (log : List PoolCall) (p : Payload)
      (enc : s.codec.encode (queue_context ctx.info.task_queue) new_payload (msg ∷ [])
        ≡ (p, none)) where
    module _ (r : Payload) (ans : s.exec (log ++ sent p ∷ []) ≡ replied r)
        (whole : s.is_stream r.flags ≡ false) where
      outcome-Good :
          (m : Message v)
          → s.codec.decode r [] ≡ (m ∷ [], none)
          → (f : Option v.Failure) → m.failure ≡ f
          → (b : Activity v) → Good msg log (outcome s f m.payloads b).0
      outcome-Good m dec none e b = record {
        request = p;
        reply = r;
        message = m;
        encoded = enc;
        answered = ans;
        whole = whole;
        decoded = dec;
        unfailed = e;
        result = refl;
      }
      outcome-Good m dec (some f) e b =
          elim (Bool-cases (str_eq (v.failure_message f) "doNotCompleteOnReturn")) [
            | inl t ↦ rw t tt
            | inr t ↦ rw t tt
          ]

      decoded-Good :
          (d : List (Message v) × Option (GoError v))
          → s.codec.decode r [] ≡ d
          → (b : Activity v)
          → Good msg log
              ((checked d >>= λ out. single out >>= λ m. outcome s m.failure m.payloads) b).0
      decoded-Good (ms, some e) dec b = tt
      decoded-Good ([], none) dec b = tt
      decoded-Good (m ∷ [], none) dec b = outcome-Good m dec m.failure refl b
      decoded-Good (m ∷ n ∷ ms, none) dec b = tt

    concluded-Good :
        (reply : Reply v)
        → s.exec (log ++ sent p ∷ []) ≡ reply
        → (b : Activity v) → Good msg log (concluded s reply b).0
    concluded-Good (refused f) ans b = tt
    concluded-Good no_reply ans b = tt
    concluded-Good (failed f) ans b = tt
    concluded-Good (replied r) ans b = elim (Bool-cases (s.is_stream r.flags)) [
      | inl stream ↦ rw stream tt
      | inr nostream ↦ rw nostream (decoded-Good r ans nostream (s.codec.decode r []) refl b)
    ]

  encoded-Good :
      (msg : Message v) (a : Activity v) (e : Payload × Option (GoError v))
      → s.codec.encode (queue_context ctx.info.task_queue) new_payload (msg ∷ []) ≡ e
      → Good msg a.pool_log ((checked e >>= run_encoded s ctx.info.task_token) a).0
  encoded-Good msg a (p, some e) enc = tt
  encoded-Good msg a (p, none) enc =
      concluded-Good msg a.pool_log p enc (s.exec (a.pool_log ++ sent p ∷ [])) refl _

  -- The same, from the arguments and the heartbeat details on.
  abbrev pub Invoked :
      Option (Payloads v) → Activity v → Exit v (Payloads v) → Exit v (Option (Payloads v)) → Type 0
  Invoked args a (returns details) (returns p) =
      (payloads : Option (Payloads v)) × ((extended details args a).0 ≡ returns payloads)
      × Answered (invocation ctx details payloads ((a.seq_id + 1) % 18446744073709551616))
          a.pool_log p
  Invoked args a (stops x) (returns p) = ⊥
  Invoked args a h (stops x) = Unit {0}

  module _ (args : Option (Payloads v)) (a : Activity v) where
    invoked :
        (details : Payloads v) (payloads : Option (Payloads v))
        → (extended details args a).0 ≡ returns payloads
        → (r : Exit v (Option (Payloads v)))
        → Good
            (invocation ctx details payloads ((a.seq_id + 1) % 18446744073709551616))
            a.pool_log
            r
        → Invoked args a (returns details) r
    invoked details payloads e (returns p) g = (payloads, e, g)
    invoked details payloads e (stops x) g = tt

  run_activity-Invoked :
      (args : Option (Payloads v)) (a : Activity v) (details : Payloads v)
      → Invoked args a (returns details) (run_activity s ctx args details a).0
  run_activity-Invoked args a [] = invoked args a [] args refl _ (encoded-Good _ _ _ refl)
  run_activity-Invoked (some ps) a (d ∷ ds) =
      invoked (some ps) a (d ∷ ds) (some (ps ++ d ∷ ds)) refl _ (encoded-Good _ _ _ refl)
  run_activity-Invoked none a (d ∷ ds) = tt

  -- An activity returns a result only if its heartbeat details, if there are any, could be read, the
  -- message with the details behind the arguments could be encoded for the task queue, the pool
  -- answered it with a reply that is no stream, and that decodes to exactly one message with no
  -- failure: the result is then the payloads of that message.
  pub execute-Invoked :
      (args : Option (Payloads v)) (a : Activity v)
      → Invoked args a (heartbeat ctx.heartbeat_details a).0 (execute s ctx args a).0
  unfolding execute
  execute-Invoked args a = started ctx.heartbeat_details
    where
      started :
          (h : Option (Result v (Payloads v)))
          → Invoked args a (heartbeat h a).0 ((heartbeat h >>= run_activity s ctx args) a).0
      started none = run_activity-Invoked args a []
      started (some (ok p)) = run_activity-Invoked args a p
      started (some (err e)) = tt
