-- ===== src/Workflow/Exchange/Wired.antt =====
-- An exchange of aggregatedpool/handler.go through the codec of internal/codec/proto/proto.go: what
-- the worker process reads, and what comes into the pipeline.
use roadrunner_temporal.Base.{ℕ, String, Bool, ◌≡◌, none, List, [], ◌∷◌, ◌++◌, map, All}
use roadrunner_temporal.Vendor.{Vendor}
use roadrunner_temporal.Payload.{Payload}
use roadrunner_temporal.Protocol.{Command, Message}
use roadrunner_temporal.Codec
use roadrunner_temporal.Codec.{Wire}
use roadrunner_temporal.Codec.RoundTrip.{IsFaithful, received}
use roadrunner_temporal.Codec.Laws.{IsHosted, KeepsPointers}
use roadrunner_temporal.Exec.{Exit, returns, stops, error, panics}
use roadrunner_temporal.Workflow.{Workflow, Services, Environment, PoolCall, sent, Reply}

-- Services with the plugin's codec.
abbrev pub wired :
    {v : Vendor} {Options : Type 0}
    → Wire v Options
    → Environment v
    → (List PoolCall → Reply v)
    → (ℕ → Bool)
    → (ℕ → String)
    → Services v
wired w env exec is_stream itoa = record {
  codec = record { encode = Codec.encode w; decode = Codec.decode w };
  env = env;
  exec = exec;
  is_stream = is_stream;
  itoa = itoa;
}

module _ {v : Vendor} {Options : Type 0} (w : Wire v Options) (Kept : Command v → Type 0)
    (faithful : IsFaithful w Kept) (keeps : KeepsPointers w) (env : Environment v)
    (exec : List PoolCall → Reply v) (is_stream : ℕ → Bool) (itoa : ℕ → String) where
  pub record Delivery (queue : List (Message v)) (before after : Workflow v) : Type 0 where
    pub request : Payload
    pub got : List (Message v)
    pub logged : after.pool_log ≡ before.pool_log ++ sent request ∷ []
    pub readable : Codec.decode w request [] ≡ (map received queue, none)
    pub pipeline : after.pipeline ≡ before.pipeline ++ got
    pub hosted : All (λ m. IsHosted m.command) got
    pub emptied : after.mq.queue ≡ []

  abbrev pub Delivers : Workflow v → List (Message v) → Exit v (Unit {0}) × Workflow v → Type 0
  Delivers before [] r = r ≡ (returns tt, before)
  Delivers before (m ∷ ms) (returns u, after) = Delivery (m ∷ ms) before after
  Delivers before (m ∷ ms) (stops (error e), after) =
      (after.mq ≡ before.mq) × (after.pipeline ≡ before.pipeline)
  Delivers before (m ∷ ms) (stops (panics p), after) = ⊥
