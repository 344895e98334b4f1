-- ===== src/Canceller.antt =====
-- canceller/canceller.go: the cancellation functions of pending commands, by the command's id.
-- A `Cancellable` is a value of a type `C` with a way to run one. Running may change the state `S`
-- in which the canceller itself lives, since a callback can discard an entry while `Cancel` runs.
pub mod Laws
use roadrunner_temporal.Base.{
  ℕ, Option, none, some, List, [], ◌∷◌, Map, load, store, delete, empty_map,
}

module _ {C : Type 0} where
  -- `Register` and `Discard`.
  unfoldable pub register : ℕ → C → Map C → Map C
  register id cancel ids = store id cancel ids

  unfoldable pub discard : ℕ → Map C → Map C
  discard id ids = delete id ids

-- Where the canceller lives, and how a cancellable runs there.
pub record Host (C E S : Type 0) : Type 0 where
  pub ids : S → Map C
  pub with_ids : Map C → S → S
  pub call : C → S → Option E × S

module _ {C E S : Type 0} (h : Host C E S) where
  -- One round of the loop: `LoadAndDelete`, then the call.
  unfoldable pub cancel_one : ℕ → S → Option E × S
  cancel_one id s = elim (load id (h.ids s)) [
    | none ↦ (none, s)
    | some c ↦ h.call c (h.with_ids (delete id (h.ids s)) s)
  ]

  unfoldable pub cancel : List ℕ → S → Option E × S
  cancel [] s = (none, s)
  cancel (id ∷ ids) s =
      let r = cancel_one id s in elim r.0 [ none ↦ cancel ids r.1 | some e ↦ (some e, r.1) ]
