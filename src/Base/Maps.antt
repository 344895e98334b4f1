-- ===== src/Base/Maps.antt =====
-- A `sync.Map` with numeric keys, as a function: an absent key is `none`.
use Prim.Native.Nat.{ℕ}
use mathlib.Core.Path.{◌≡◌, fun_ext}
use mathlib.Core.Option.{Option, none, some}
use native.Mathlib.Omega.{arith}
use roadrunner_temporal.Base.Tests.{◌==◌, if◌then◌else◌}

abbrev pub Map {ℓ} : Type ℓ → Type ℓ
Map V = ℕ → Option V

module _ {ℓ} {V : Type ℓ} where
  abbrev pub empty_map : Map V
  empty_map k = none

  -- `Load`, `Store` and `Delete`.
  abbrev pub load : ℕ → Map V → Option V
  load k m = m k

  abbrev pub store : ℕ → V → Map V → Map V
  store k x m j = if k == j then some x else m j

  abbrev pub delete : ℕ → Map V → Map V
  delete k m j = if k == j then none else m j

  pub delete_absent : (k : ℕ) (m : Map V) → m k ≡ none → delete k m ≡ m
  delete_absent k m h = fun_ext λ j. ground arith

  pub delete-store : (k : ℕ) (x : V) (m : Map V) → delete k (store k x m) ≡ delete k m
  delete-store k x m = fun_ext λ j. ground arith
