-- ===== src/Plugin/Init/Safe.antt =====
-- Calls that may fail with an error, but never panic.
use roadrunner_temporal.Base.{◌≡◌, refl, String}
use roadrunner_temporal.Vendor.{Vendor}
use roadrunner_temporal.Errors.{Result, ok, err}
use roadrunner_temporal.Exec.{Exit, returns, stops, error, panics, wrap_exit}
use roadrunner_temporal.Plugin.Init.{next, of_result}

-- It may fail with an error, and what it returns satisfies the predicate.
abbrev pub Safe : {v : Vendor} {A : Type 0} → (A → Type 0) → Exit v A → Type 0
Safe Q (returns a) = Q a
Safe Q (stops (error e)) = Unit
Safe Q (stops (panics p)) = ⊥

module _ {v : Vendor} {A B : Type 0} where
  pub Safe-next :
      (Q : A → Type 0) (R : B → Type 0) (m : Exit v A) (f : A → Exit v B)
      → Safe Q m
      → ((a : A) → Q a → Safe R (f a))
      → Safe R (next m f)
  Safe-next Q R (returns a) f k h = h a k
  Safe-next Q R (stops (error e)) f k h = tt
  Safe-next Q R (stops (panics p)) f k h = k

module _ {v : Vendor} {A : Type 0} where
  pub Safe-result : (r : Result v A) → Safe (λ a. r ≡ ok a) (of_result r)
  Safe-result (ok a) = refl
  Safe-result (err e) = tt

  pub Safe-wrapped :
      (Q : A → Type 0) (op : String) (m : Exit v A) → Safe Q m → Safe Q (wrap_exit op m)
  Safe-wrapped Q op (returns a) k = k
  Safe-wrapped Q op (stops (error e)) k = tt
  Safe-wrapped Q op (stops (panics p)) k = k
