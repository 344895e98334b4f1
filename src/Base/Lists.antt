-- ===== src/Base/Lists.antt =====
-- Lists measured by native numbers, and predicates on all members.
use Prim.Native.Nat.{ℕ, suc, ◌+◌}
use Prim.Native.String.{String}
use text.Mathlib.Text.{◌==◌}
use mathlib.Core.Path.{◌≡◌}
use mathlib.Core.Option.{Option, none, some}
use mathlib.Core.List.{List, [], ◌∷◌, ◌++◌}
use native.Mathlib.Omega.{arith}
use roadrunner_temporal.Base.Tests.{if◌then◌else◌}

module _ {ℓ} {A : Type ℓ} where
  abbrev pub length : List A → ℕ
  length [] = 0
  length (x ∷ xs) = suc (length xs)

  pub length-append : (xs ys : List A) → length (xs ++ ys) ≡ length xs + length ys
  length-append [] ys = omega arith
  length-append (x ∷ xs) ys = omega (arith, length-append xs ys)

  abbrev pub All {κ} : (A → Type κ) → List A → Type κ
  All P [] = Unit
  All P (x ∷ xs) = P x × All P xs

module _ {ℓ κ} {A : Type ℓ} (Q : A → Type κ) where
  -- What holds of the members of both parts holds of those of the whole.
  pub All-append : (front back : List A) → All Q front → All Q back → All Q (front ++ back)
  All-append (a ∷ front) back here there = (here.0, All-append front back here.1 there)
  All-append [] back here there = there

-- A `switch` on constant strings: the first case whose name is the value.
abbrev pub switch {ℓ} : {A : Type ℓ} → String → List (String × A) → Option A
switch name [] = none
switch name ((n, a) ∷ cases) = if name == n then some a else switch name cases
