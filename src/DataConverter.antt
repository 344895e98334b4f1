-- ===== src/DataConverter.antt =====
-- data_converter/converter.go: the data converter that hands a whole `*commonpb.Payloads` through as it
-- is and leaves every other value to a fallback, which is a parameter. `ToString` and `ToStrings` only
-- call the fallback, and are left out.
pub mod Passed
use roadrunner_temporal.Base.{ℕ, Bool, Option, none, some, List, [], ◌∷◌, if◌then◌else◌, ◌==◌}
use roadrunner_temporal.Vendor.{Vendor}
use roadrunner_temporal.Errors.{GoError, Result, ok}
use roadrunner_temporal.Protocol.{Payloads}
use roadrunner_temporal.Exec.{panics, of_text, Exec, pure, stop, or_fail, modify, ◌>>=◌, ◌>>◌}

-- An `any` that is to be sent: a `*commonpb.Payloads`, which may be nil, or another value.
pub data Any (v : Vendor) (Value : Type 0) : Type 0 where
  aggregated : Option (Payloads v) → Any v Value
  other : Value → Any v Value

-- An `any` that is to be written through: a `**commonpb.Payloads`, by the number of its variable, or
-- another pointer.
pub data Target (Pointer : Type 0) : Type 0 where
  proxy : ℕ → Target Pointer
  pointer : Pointer → Target Pointer

-- The variables of type `*commonpb.Payloads`, and all others.
pub record Memory (v : Vendor) (Others : Type 0) : Type 0 where
  pub proxied : ℕ → Option (Payloads v)
  pub others : Others

-- The fallback, a `converter.DataConverter`. Its `FromPayload` writes to the memory and may fail.
pub record Fallback (v : Vendor) : Type 1 where
  pub Value : Type 0
  pub Pointer : Type 0
  pub Others : Type 0
  pub to_payloads : List (Any v Value) → Result v (Option (Payloads v))
  pub to_payload : Any v Value → Result v v.Payload
  pub from_payload :
      v.Payload → Target Pointer → Memory v Others → Option (GoError v) × Memory v Others

-- `DataConverter`; `NewDataConverter` makes one of its fallback.
pub record DataConverter (v : Vendor) : Type 1 where
  pub dc : Fallback v

abbrev pub new_data_converter : {v : Vendor} → Fallback v → DataConverter v
new_data_converter fallback = record { dc = fallback }

module _ {v : Vendor} (r : DataConverter v) where
  abbrev pub Converting : Type 0 → Type 0
  Converting A = Exec v (Memory v r.dc.Others) A

  -- The first value that is a `*commonpb.Payloads`.
  abbrev pub first_aggregated : List (Any v r.dc.Value) → Option (Option (Payloads v))
  first_aggregated [] = none
  first_aggregated (aggregated ps ∷ values) = some ps
  first_aggregated (other x ∷ values) = first_aggregated values

  abbrev pub passed_or :
      Option (Option (Payloads v)) → Result v (Option (Payloads v)) → Result v (Option (Payloads v))
  passed_or (some ps) converted = ok ps
  passed_or none converted = converted

  unfoldable pub to_payloads : List (Any v r.dc.Value) → Result v (Option (Payloads v))
  to_payloads values = passed_or (first_aggregated values) (r.dc.to_payloads values)

  unfoldable pub to_payload : Any v r.dc.Value → Result v v.Payload
  to_payload value = r.dc.to_payload value

  unfoldable pub from_payload : v.Payload → Target r.dc.Pointer → Converting (Unit {0})
  from_payload p target m = let (e, m') = r.dc.from_payload p target m in or_fail e m'

  -- `*input = &commonpb.Payloads{}; (*input).Payloads = payloads.Payloads`.
  abbrev pub write_proxy : ℕ → Payloads v → Memory v r.dc.Others → Memory v r.dc.Others
  write_proxy n ps m = record m { proxied = λ k. if k == n then some ps else m.proxied k }

  -- The loop over the payloads. A payload beyond the last pointer is an index out of range.
  unfoldable pub read_all : Payloads v → List (Target r.dc.Pointer) → Converting (Unit {0})
  read_all [] targets = pure tt
  read_all (p ∷ ps) [] = stop (panics (of_text "index out of range" ""))
  read_all (p ∷ ps) (t ∷ ts) = from_payload p t >> read_all ps ts

  abbrev pub from_some : Payloads v → List (Target r.dc.Pointer) → Converting (Unit {0})
  from_some ps (proxy n ∷ []) = modify (write_proxy n ps)
  from_some ps targets = read_all ps targets

  unfoldable pub from_payloads :
      Option (Payloads v) → List (Target r.dc.Pointer) → Converting (Unit {0})
  from_payloads none targets = pure tt
  from_payloads (some ps) targets = from_some ps targets
