-- ===== src/Canceller/Laws.antt =====
-- What `Cancel` of canceller/canceller.go leaves behind.
use roadrunner_temporal.Base.{
  ℕ, ◌≡◌, refl, ◌⊎◌, inl, inr, Option, none, some, List, [], ◌∷◌, ◌++◌, Map, delete, All, arith,
  subst, sym, ap, Option-cases,
}
use roadrunner_temporal.Canceller.{Host, cancel_one, cancel}

-- The host is a variable that holds the canceller, and running a cancellable registers nothing:
-- it may only take entries out.
pub record IsQuiet {C E S : Type 0} (h : Host C E S) : Type 0 where
  pub ids_with : (m : Map C) (s : S) → h.ids (h.with_ids m s) ≡ m
  pub call_removes : (c : C) (s : S) (id : ℕ) → h.ids s id ≡ none → h.ids (h.call c s).1 id ≡ none

module _ {C E S : Type 0} (h : Host C E S) where
  pub cancel_fine :
      (id : ℕ) (ids : List ℕ) (s : S)
      → (cancel_one h id s).0 ≡ none
      → cancel h (id ∷ ids) s ≡ cancel h ids (cancel_one h id s).1
  unfolding cancel
  cancel_fine id ids s e = rw (e, cancel)

  pub cancel_failed :
      (id : ℕ) (ids : List ℕ) (s : S) {x : E}
      → (cancel_one h id s).0 ≡ some x
      → cancel h (id ∷ ids) s ≡ (some x, (cancel_one h id s).1)
  unfolding cancel
  cancel_failed id ids s e = rw (e, cancel)

  cancel_one_absent : (id : ℕ) (s : S) → h.ids s id ≡ none → cancel_one h id s ≡ (none, s)
  unfolding cancel_one
  cancel_one_absent id s e = rw (e, cancel_one)

  -- Cancelling ids of which none is registered does nothing and reports nothing.
  cancel_absent :
      (ids : List ℕ) (s : S) → All (λ id. h.ids s id ≡ none) ids → cancel h ids s ≡ (none, s)
  cancel_absent [] s a = unfold cancel in refl
  cancel_absent (id ∷ ids) s a =
      let e = cancel_one_absent id s a.0 in
      rw (cancel_fine id ids s (ap (λ r. r.0) e)) (rw e (cancel_absent ids s a.1))

  -- How `Cancel` goes on with a second list after a first.
  abbrev pub then_cancel : List ℕ → Option E × S → Option E × S
  then_cancel ys (none, s) = cancel h ys s
  then_cancel ys (some e, s) = (some e, s)

  -- `Cancel` over a list in two parts is `Cancel` over the first part, and then, only if that gave
  -- no error, over the second; the first error is the one returned.
  cancel-append : (xs ys : List ℕ) (s : S) → cancel h (xs ++ ys) s ≡ then_cancel ys (cancel h xs s)
  cancel-append [] ys s = unfold cancel in refl
  cancel-append (id ∷ xs) ys s = elim (Option-cases (cancel_one h id s).0) [
    | inl fine ↦
        rw (cancel_fine id (xs ++ ys) s fine, cancel_fine id xs s fine)
          (cancel-append xs ys (cancel_one h id s).1)
    | inr (x, failed) ↦ rw (cancel_failed id (xs ++ ys) s failed, cancel_failed id xs s failed)
  ]

  abbrev Gone : List ℕ → Option E × S → Type 0
  Gone ids r = All (λ id. h.ids r.1 id ≡ none) ids

  module _ (q : IsQuiet h) where
    cancel_one-removes :
        (id j : ℕ) (s : S) → (h.ids s j ≡ none) ⊎ (j ≡ id) → h.ids (cancel_one h id s).1 j ≡ none
    unfolding cancel_one
    cancel_one-removes id j s r = elim (Option-cases (h.ids s id)) [
      | inl absent ↦ rw (absent, cancel_one) (ground arith)
      | inr (c, found) ↦
          rw (found, cancel_one)
            (q.call_removes c _ j (rw (q.ids_with (delete id (h.ids s)) s) (ground arith)))
    ]

    -- An id that is not registered is not registered after `Cancel`, error or not.
    pub cancel-keeps_absent :
        (ids : List ℕ) (j : ℕ) (s : S) → h.ids s j ≡ none → h.ids (cancel h ids s).1 j ≡ none
    cancel-keeps_absent [] j s e = unfold cancel in e
    cancel-keeps_absent (id ∷ ids) j s e =
        let gone = cancel_one-removes id j s (inl e) in
        elim (Option-cases (cancel_one h id s).0) [
          | inl fine ↦
              rw (cancel_fine id ids s fine) (cancel-keeps_absent ids j (cancel_one h id s).1 gone)
          | inr (x, failed) ↦ rw (cancel_failed id ids s failed) gone
        ]

    -- If `Cancel` returns no error, then none of the ids that it was given is registered any more.
    -- It rests on the cancellables' not registering anything.
    pub cancel-removes :
        (ids : List ℕ) (s : S)
        → (cancel h ids s).0 ≡ none
        → All (λ id. h.ids (cancel h ids s).1 id ≡ none) ids
    cancel-removes [] s e = tt
    cancel-removes (id ∷ ids) s e =
        let s' = (cancel_one h id s).1 in
        elim (Option-cases (cancel_one h id s).0) [
          | inl fine ↦ subst (Gone (id ∷ ids)) (sym (cancel_fine id ids s fine)) (
            cancel-keeps_absent ids id s' (cancel_one-removes id id s (inr refl)),
            cancel-removes ids s' (rw (cancel_fine id ids s fine) at e),
          )
          | inr (x, failed) ↦ absurd (ground (arith, cancel_failed id ids s failed))
        ]

    -- A second `Cancel` of the same ids, after one that gave no error, does nothing and reports
    -- nothing. It rests on the cancellables' not registering anything.
    cancel_twice :
        (ids : List ℕ) (s : S)
        → (cancel h ids s).0 ≡ none
        → cancel h ids (cancel h ids s).1 ≡ (none, (cancel h ids s).1)
    cancel_twice ids s e = cancel_absent ids (cancel h ids s).1 (cancel-removes ids s e)
