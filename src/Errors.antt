-- ===== src/Errors.antt =====
-- The error values of the program and its third parties, and results with `do`.
-- `errors.E(op, err)` wraps an error in the name of an operation; `errors.Str` and `errors.Errorf`
-- make one from a text, and from a format and its arguments.
use roadrunner_temporal.Base.{◌≡◌, refl, ℕ, String, ◌⊎◌, inl, inr}
use roadrunner_temporal.Vendor.{Vendor}

pub data GoError (v : Vendor) : Type 0 where
  fault : v.Fault → GoError v
  str : String → GoError v
  errorf : String → String → GoError v
  errord : String → ℕ → GoError v
  errore : String → GoError v → String → GoError v
  wrap : String → GoError v → GoError v

pub data Result {ℓ} (v : Vendor) (A : Type ℓ) : Type ℓ where
  ok : A → Result v A
  err : GoError v → Result v A

infixl 5 ◌>>=◌ ◌>>◌
abbrev pub ◌>>=◌ {ℓ κ} :
    {v : Vendor} {A : Type ℓ} {B : Type κ} → Result v A → (A → Result v B) → Result v B
ok a >>= f = f a
err e >>= f = err e

abbrev pub ◌>>◌ {ℓ κ} :
    {v : Vendor} {A : Type ℓ} {B : Type κ} → Result v A → Result v B → Result v B
m >> k = m >>= λ _. k

-- `if err != nil { return errors.E(op, err) }`.
abbrev pub wrap_err {ℓ} : {v : Vendor} {A : Type ℓ} → String → Result v A → Result v A
wrap_err op (ok a) = ok a
wrap_err op (err e) = err (wrap op e)

-- A chain that succeeds has a first part that succeeds.
pub >>=-ok {ℓ κ} :
    {v : Vendor} {A : Type ℓ} {B : Type κ} (r : Result v A) (next : A → Result v B) {y : B}
    → (r >>= next) ≡ ok y
    → (x : A) × (r ≡ ok x) × (next x ≡ ok y)
>>=-ok (err e) next fine = absurd cc
>>=-ok (ok x) next fine = (x, refl, fine)

pub ok-injective {ℓ} :
    {v : Vendor} {A : Type ℓ} {a b : A} → ◌≡◌ {A = Result v A} (ok a) (ok b) → a ≡ b
ok-injective h = cc

pub Result-cases {ℓ} :
    {v : Vendor} {A : Type ℓ} (r : Result v A)
    → ((a : A) × (r ≡ ok a)) ⊎ ((e : GoError v) × (r ≡ err e))
Result-cases (ok a) = inl (a, refl)
Result-cases (err e) = inr (e, refl)
