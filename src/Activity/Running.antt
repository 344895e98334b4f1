-- ===== src/Activity/Running.antt =====
-- Which activities of aggregatedpool/activity.go are registered as running.
use roadrunner_temporal.Base.{
  ℕ, ◌+◌, ◌-◌, ◌%◌, String, ◌≡◌, refl, ap, ◌∙◌, str_eq, Option, none, some, List, [], ◌∷◌, ◌++◌,
  arith, Bool-cases, inl, inr, fun_ext,
}
use roadrunner_temporal.Vendor.{Vendor}
use roadrunner_temporal.Errors.{GoError, Result, ok, err}
use roadrunner_temporal.Payload.{Payload, new_payload}
use roadrunner_temporal.Protocol.{Payloads, Message}
use roadrunner_temporal.Exec.{Exit, returns, stops, checked, ◌>>=◌}
use roadrunner_temporal.Exec.Steps.{IsPreorder, Steps, Steps-pure, Steps-stop, Steps-bind}
use roadrunner_temporal.Workflow.{Reply, refused, no_reply, failed, replied, sent}
use roadrunner_temporal.Activity.{
  Activity, ActivityContext, ActivityServices, store_running, delete_running, heartbeat, extended,
  invocation, queue_context, single, receive, outcome, concluded, run_encoded, run_activity,
  execute,
}

-- The running activities and the lent payloads stay.
record Same {v : Vendor} (a b : Activity v) : Type 0 where
  pub running : b.running ≡ a.running
  pub lent : b.lent ≡ a.lent

Same-preorder : {v : Vendor} → IsPreorder {S = Activity v} Same
Same-preorder = record {
  same = λ a. record { running = refl; lent = refl };
  both = λ a b c h k. record { running = k.running ∙ h.running; lent = k.lent ∙ h.lent };
}

module _ {v : Vendor} (s : ActivityServices v) where
  receive-Same : (r : Reply v) → Steps Same (receive s r)
  receive-Same (refused f) = Steps-stop Same-preorder _
  receive-Same no_reply = Steps-stop Same-preorder _
  receive-Same (failed f) = Steps-stop Same-preorder _
  receive-Same (replied p) = record {
    at = λ a. elim (Bool-cases (s.is_stream p.flags)) [
      | inl e ↦ rw e (record { running = refl; lent = refl })
      | inr e ↦ rw e (record { running = refl; lent = refl })
    ];
  }

  checked-Same :
      {A : Type 0} (r : A × Option (GoError v)) → Steps {A = A} (Same {v = v}) (checked r)
  checked-Same (a, none) = record { at = λ a. Same-preorder.same a }
  checked-Same (a, some e) = record { at = λ a. Same-preorder.same a }

  single-Same : (ms : List (Message v)) → Steps Same (single ms)
  single-Same [] = Steps-stop Same-preorder _
  single-Same (m ∷ []) = Steps-pure Same-preorder m
  single-Same (m ∷ n ∷ ms) = Steps-stop Same-preorder _

  outcome-Same : (f : Option v.Failure) (p : Option (Payloads v)) → Steps Same (outcome s f p)
  outcome-Same none p = Steps-pure Same-preorder p
  outcome-Same (some f) p = record {
    at = λ a. elim (Bool-cases (str_eq (v.failure_message f) "doNotCompleteOnReturn")) [
      | inl e ↦ rw e (Same-preorder.same a)
      | inr e ↦ rw e (Same-preorder.same a)
    ];
  }

  concluded-Same : (r : Reply v) → Steps Same (concluded s r)
  concluded-Same r = Steps-bind Same-preorder (receive s r) _ (receive-Same r) λ p.
      Steps-bind Same-preorder (checked (s.codec.decode p [])) _ (checked-Same _) λ out.
        Steps-bind Same-preorder (single out) _ (single-Same out)
          λ m. outcome-Same m.failure m.payloads

  -- Who is running after an activity: whoever was before, without this one, unless it could not be
  -- encoded, or heartbeat details met nil arguments.
  abbrev pub encoded_running :
      ActivityContext v
      → Activity v
      → Payload × Option (GoError v)
      → String
      → Option (ActivityContext v)
  encoded_running ctx a (p, none) = delete_running ctx.info.task_token a.running
  encoded_running ctx a (p, some e) = store_running ctx.info.task_token ctx a.running

  abbrev pub extended_running :
      ActivityContext v
      → Payloads v
      → Activity v
      → Exit v (Option (Payloads v)) × Activity v
      → String
      → Option (ActivityContext v)
  extended_running ctx details a (stops x, b) = store_running ctx.info.task_token ctx a.running
  extended_running ctx details a (returns payloads, b) = encoded_running ctx a (
      s.codec.encode (queue_context ctx.info.task_queue) new_payload
        (invocation ctx details payloads ((a.seq_id + 1) % 18446744073709551616) ∷ []))

  abbrev pub left_running :
      ActivityContext v
      → Option (Payloads v)
      → Activity v
      → Exit v (Payloads v) × Activity v
      → String
      → Option (ActivityContext v)
  left_running ctx args a (stops x, b) = a.running
  left_running ctx args a (returns details, b) =
      extended_running ctx details a (extended details args a)

  abbrev Settled : Activity v → (String → Option (ActivityContext v)) → Activity v → Type 0
  Settled a running b = (b.running ≡ running) × (b.lent ≡ a.lent)

  delete_stored :
      (token : String) (ctx : ActivityContext v) (running : String → Option (ActivityContext v))
      → delete_running token (store_running token ctx running) ≡ delete_running token running
  delete_stored token ctx running =
      fun_ext λ t. elim (Bool-cases (str_eq t token)) [ inl e ↦ rw e | inr e ↦ rw e ]

  returned : (n : ℕ) → n + 1 - 1 ≡ n
  returned n = omega arith

  abbrev began : ActivityContext v → Activity v → ℕ → Activity v
  began ctx a id = record a {
    running = store_running ctx.info.task_token ctx a.running;
    seq_id = id;
    lent = a.lent + 1;
  }

  encoded-Settled :
      (ctx : ActivityContext v) (a : Activity v) (id : ℕ) (e : Payload × Option (GoError v))
      → let r = (checked e >>= run_encoded s ctx.info.task_token) (began ctx a id) in
        Settled a (encoded_running ctx a e) (record r.1 { lent = r.1.lent - 1 })
  encoded-Settled ctx a id (p, some e) = (refl, returned a.lent)
  encoded-Settled ctx a id (p, none) =
      let b = began ctx a id in
      let log = b.pool_log ++ sent p ∷ [] in
      let k =
        (concluded-Same (s.exec log)).at
          (record b { pool_log = log; running = delete_running ctx.info.task_token b.running }) in
      (
        k.running ∙ delete_stored ctx.info.task_token ctx a.running,
        ap (λ n. n - 1) k.lent ∙ returned a.lent,
      )

  run_activity-Settled :
      (ctx : ActivityContext v) (args : Option (Payloads v)) (details : Payloads v) (a : Activity v)
      → Settled a
          (extended_running ctx details a (extended details args a))
          (run_activity s ctx args details a).1
  run_activity-Settled ctx args [] a = encoded-Settled ctx a _ _
  run_activity-Settled ctx (some ps) (d ∷ ds) a = encoded-Settled ctx a _ _
  run_activity-Settled ctx none (d ∷ ds) a = (refl, refl)

  -- However an activity ends, the payload is back in its pool, and the activities that run are those
  -- that ran before, without this one; but if its message cannot be encoded, or if there are
  -- heartbeat details and the arguments are nil, then it stays registered as running. If its
  -- heartbeat details cannot be read, nothing changes.
  pub execute-Settled :
      (ctx : ActivityContext v) (args : Option (Payloads v)) (a : Activity v)
      → ((execute s ctx args a).1.running
          ≡ left_running ctx args a (heartbeat ctx.heartbeat_details a))
        × ((execute s ctx args a).1.lent ≡ a.lent)
  unfolding execute
  execute-Settled ctx args a = started ctx.heartbeat_details
    where
      started :
          (h : Option (Result v (Payloads v)))
          → Settled a
              (left_running ctx args a (heartbeat h a))
              ((heartbeat h >>= run_activity s ctx args) a).1
      started none = run_activity-Settled ctx args [] a
      started (some (ok p)) = run_activity-Settled ctx args p a
      started (some (err e)) = (refl, refl)
