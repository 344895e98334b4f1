-- ===== src/Info/Asked.antt =====
-- The answer of a worker process to `WorkerInfo` of info.go, with the codec of the plugin.
use roadrunner_temporal.Base.{
  ℕ, String, ◌≡◌, refl, Bool, false, Bool-cases, inl, inr, Option, none, some, List, [], ◌∷◌, ◌++◌,
}
use roadrunner_temporal.Vendor.{Vendor}
use roadrunner_temporal.Errors.{GoError}
use roadrunner_temporal.Payload.{Payload, new_payload}
use roadrunner_temporal.Codec
use roadrunner_temporal.Codec.{Wire, WorkerInfo}
use roadrunner_temporal.Codec.Laws.{Confirms, decode_worker_info-Confirms}
use roadrunner_temporal.Exec.{Exit, returns, stops, error, panics, checked, wrap_exit, ◌>>=◌}
use roadrunner_temporal.Workflow.{Reply, refused, no_reply, failed, replied, PoolCall, sent}
use roadrunner_temporal.Info.{
  InfoServices, no_context, info_request, take_reply, exec_info, ask_info, worker_info,
}

module _ {v : Vendor} {Options : Type 0} (w : Wire v Options) (exec : List PoolCall → Reply v)
    (is_stream : ℕ → Bool) where
  -- The codec of the plugin.
  abbrev pub wire_services : InfoServices v Options
  wire_services = record {
    codec = record { encode = Codec.encode w; decode = Codec.decode w };
    decode_worker_info = Codec.decode_worker_info w;
    exec = exec;
    is_stream = is_stream;
  }

  -- One exchange, and the infos in its answer.
  pub record Offers (version : String) (log : List PoolCall) (wi : List (WorkerInfo Options))
      (log' : List PoolCall) : Type 0 where
    pub request : Payload
    pub reply : Payload
    pub encoded :
        Codec.encode w no_context new_payload (info_request v version ∷ []) ≡ (request, none)
    pub answered : exec (log ++ sent request ∷ []) ≡ replied reply
    pub whole : is_stream reply.flags ≡ false
    pub decoded : (Codec.decode w reply []).1 ≡ none
    pub confirms : Confirms w (Codec.decode w reply []).0 [] wi
    pub logged : log' ≡ log ++ sent request ∷ []

  abbrev pub Offered :
      String → List PoolCall → Exit v (List (WorkerInfo Options)) × List PoolCall → Type 0
  Offered version log (returns wi, log') = Offers version log wi log'
  Offered version log (stops (error e), log') = Unit {0}
  Offered version log (stops (panics p), log') = ⊥

  module _ (version : String) (log : List PoolCall) where
    decoded_Offered :
        (p r : Payload)
        → Codec.encode w no_context new_payload (info_request v version ∷ []) ≡ (p, none)
        → exec (log ++ sent p ∷ []) ≡ replied r
        → is_stream r.flags ≡ false
        → (d : List (WorkerInfo Options) × Option (GoError v)) → Codec.decode_worker_info w r [] ≡ d
        → Offered version log (checked d (log ++ sent p ∷ []))
    decoded_Offered p r enc ans whole (wi, none) e =
        let (fine, c) = decode_worker_info-Confirms w r [] e in
        record {
          request = p;
          reply = r;
          encoded = enc;
          answered = ans;
          whole = whole;
          decoded = fine;
          confirms = c;
          logged = refl;
        }
    decoded_Offered p r enc ans whole (wi, some x) e = tt

    replied_Offered :
        (p : Payload)
        → Codec.encode w no_context new_payload (info_request v version ∷ []) ≡ (p, none)
        → (r : Reply v) → exec (log ++ sent p ∷ []) ≡ r
        → Offered version log (
            (take_reply wire_services r >>= λ q. checked (Codec.decode_worker_info w q []))
              (log ++ sent p ∷ []))
    replied_Offered p enc (refused f) ans = tt
    replied_Offered p enc no_reply ans = tt
    replied_Offered p enc (failed f) ans = tt
    replied_Offered p enc (replied r) ans = elim (Bool-cases (is_stream r.flags)) [
      | inl stream ↦ rw stream tt
      | inr whole ↦
          rw whole (decoded_Offered p r enc ans whole (Codec.decode_worker_info w r []) refl)
    ]

    encoded_Offered :
        (e : Payload × Option (GoError v))
        → Codec.encode w no_context new_payload (info_request v version ∷ []) ≡ e
        → Offered version log (
            (checked e >>= λ p.
            exec_info wire_services p >>= λ q. checked (Codec.decode_worker_info w q []))
              log)
    encoded_Offered (p, some x) enc = tt
    encoded_Offered (p, none) enc = replied_Offered p enc (exec (log ++ sent p ∷ [])) refl

  wrapped_Offered :
      (version : String) (log : List PoolCall)
      (r : Exit v (List (WorkerInfo Options)) × List PoolCall)
      → Offered version log r
      → Offered version log (wrap_exit "workflow_definition_init" r.0, r.1)
  wrapped_Offered version log (returns wi, log') k = k
  wrapped_Offered version log (stops (error e), log') k = k
  wrapped_Offered version log (stops (panics p), log') k = k

  -- `WorkerInfo` never panics. If it returns no error, then the request, encoded in an empty context,
  -- was sent in one exchange, the reply is no stream and decodes to exactly one message, with the
  -- id 0, and the infos are the conversions of its payloads, in order.
  pub worker_info-Offers :
      (version : String) (log : List PoolCall)
      → Offered version log (worker_info wire_services version log)
  unfolding worker_info
  worker_info-Offers version log =
      wrapped_Offered version log (ask_info wire_services version log) (
        encoded_Offered version log
          (Codec.encode w no_context new_payload (info_request v version ∷ [])) refl)
