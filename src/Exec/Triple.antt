-- ===== src/Exec/Triple.antt =====
-- What holds before and after a run of a method: a condition before it, one on its value and state if
-- it returns, and one on the state if it ends early; with one rule for each way to build a method.
use roadrunner_temporal.Base.{String}
use roadrunner_temporal.Vendor.{Vendor}
use roadrunner_temporal.Errors.{Result, ok, err}
use roadrunner_temporal.Exec.{
  error, panics, Exit, returns, stops, Exec, pure, lift, modify, continue, ◌>>=◌, wrapping,
  wrap_exit,
}

module _ {v : Vendor} {S A : Type 0} where
  abbrev pub After : (A → S → Type 0) → (S → Type 0) → Exit v A × S → Type 0
  After Q E (returns a, s) = Q a s
  After Q E (stops x, s) = E s

  pub record Triple (P : S → Type 0) (m : Exec v S A) (Q : A → S → Type 0) (E : S → Type 0)
      : Type 0 where
    pub at : (s : S) → P s → After Q E (m s)

module _ {v : Vendor} {S : Type 0} {P E : S → Type 0} where
  pub Triple-modify :
      {Q : Unit {0} → S → Type 0} (f : S → S)
      → ((s : S) → P s → Q tt (f s))
      → Triple {v = v} P (modify f) Q E
  Triple-modify f k = record { at = k }

  module _ {A : Type 0} where
    pub Triple-pure : (a : A) → Triple {v = v} P (pure a) (λ _. P) E
    Triple-pure a = record { at = λ s p. p }

    pub Triple-lift : (r : Result v A) → ((s : S) → P s → E s) → Triple P (lift r) (λ _. P) E
    Triple-lift (ok a) k = record { at = λ s p. p }
    Triple-lift (err e) k = record { at = k }

    pub Triple-wrapping :
        {Q : A → S → Type 0} (op : String) (m : Exec v S A)
        → Triple P m Q E
        → Triple P (wrapping op m) Q E
    Triple-wrapping {Q} op m k = record { at = λ s p. wrapped (m s) (k.at s p) }
      where
        wrapped : (r : Exit v A × S) → After Q E r → After Q E (wrap_exit op r.0, r.1)
        wrapped (returns a, s) h = h
        wrapped (stops (error e), s) h = h
        wrapped (stops (panics x), s) h = h

module _ {v : Vendor} {S A B : Type 0} {Q : A → S → Type 0} {R : B → S → Type 0}
    {E : S → Type 0} where
  continued :
      (f : A → Exec v S B)
      → ((a : A) → Triple (Q a) (f a) R E)
      → (r : Exit v A × S) → After Q E r
      → After R E (continue r.0 f r.1)
  continued f k (returns a, s) h = (k a).at s h
  continued f k (stops x, s) h = h

  pub Triple-bind :
      {P : S → Type 0} (m : Exec v S A) (f : A → Exec v S B)
      → Triple P m Q E
      → ((a : A) → Triple (Q a) (f a) R E)
      → Triple P (m >>= f) R E
  Triple-bind m f km kf = record { at = λ s p. continued f kf (m s) (km.at s p) }
