-- ===== src/Payload.antt =====
-- The `payload.Payload` of the RoadRunner SDK, which carries a request to a worker and its reply
-- back.
use roadrunner_temporal.Base.{ℕ, List, []}

abbrev pub Bytes : Type 0
Bytes = List ℕ

pub record Payload : Type 0 where
  pub codec : ℕ
  pub context : Bytes
  pub body : Bytes
  pub flags : ℕ

-- `new(payload.Payload)`.
abbrev pub new_payload : Payload
new_payload = record { codec = 0; context = []; body = []; flags = 0 }
