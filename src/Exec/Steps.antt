-- ===== src/Exec/Steps.antt =====
-- What every run of a method does to the state, as a relation from before to after, with one rule
-- for each way to build a method.
use roadrunner_temporal.Base.{String, Option, none, some}
use roadrunner_temporal.Vendor.{Vendor}
use roadrunner_temporal.Errors.{GoError, Result, ok, err}
use roadrunner_temporal.Exec.{
  Stop, error, panics, Exit, returns, stops, Exec, pure, stop, gets, lift, or_fail, modify,
  continue, ◌>>=◌, continue_catch, catch, wrapping, or_panic,
}

pub record IsPreorder {S : Type 0} (R : S → S → Type 0) : Type 0 where
  pub same : (s : S) → R s s
  pub both : (s t u : S) → R s t → R t u → R s u

-- `m` moves along `R`, however it ends.
pub record Steps {v : Vendor} {S A : Type 0} (R : S → S → Type 0) (m : Exec v S A) : Type 0 where
  pub at : (s : S) → R s (m s).1

module _ {v : Vendor} {S : Type 0} {R : S → S → Type 0} (p : IsPreorder R) where
  module _ {A : Type 0} where
    pub Steps-pure : (a : A) → Steps R (pure {v = v} a)
    Steps-pure a = record { at = p.same }

    pub Steps-stop : (x : Stop v) → Steps R (stop {A = A} x)
    Steps-stop x = record { at = p.same }

    pub Steps-gets : (f : S → A) → Steps R (gets {v = v} f)
    Steps-gets f = record { at = p.same }

    pub Steps-lift : (r : Result v A) → Steps R (lift {S = S} r)
    Steps-lift (ok a) = record { at = p.same }
    Steps-lift (err e) = record { at = p.same }

    pub Steps-wrapping : (op : String) (m : Exec v S A) → Steps R m → Steps R (wrapping op m)
    Steps-wrapping op m k = record { at = k.at }

    pub Steps-or_panic : (m : Exec v S A) → Steps R m → Steps R (or_panic m)
    Steps-or_panic m k = record { at = k.at }

  pub Steps-or_fail : (o : Option (GoError v)) → Steps R (or_fail {S = S} o)
  Steps-or_fail none = record { at = p.same }
  Steps-or_fail (some e) = record { at = p.same }

  pub Steps-modify : (f : S → S) → ((s : S) → R s (f s)) → Steps R (modify {v = v} f)
  Steps-modify f k = record { at = k }

  module _ {A B : Type 0} where
    pub Steps-continue :
        (r : Exit v A) (f : A → Exec v S B) → ((a : A) → Steps R (f a)) → Steps R (continue r f)
    Steps-continue (returns a) f k = k a
    Steps-continue (stops x) f k = record { at = p.same }

    pub Steps-bind :
        (m : Exec v S A) (f : A → Exec v S B)
        → Steps R m
        → ((a : A) → Steps R (f a))
        → Steps R (m >>= f)
    Steps-bind m f km kf = record {
      at = λ s.
          let (r, s') = m s in
          p.both s s' (continue r f s').1 (km.at s) ((Steps-continue r f kf).at s');
    }

    Steps-continue_catch :
        (r : Exit v A) (f : A → Exec v S B) (g : GoError v → Exec v S B)
        → ((a : A) → Steps R (f a))
        → ((e : GoError v) → Steps R (g e))
        → Steps R (continue_catch r f g)
    Steps-continue_catch (returns a) f g kf kg = kf a
    Steps-continue_catch (stops (error e)) f g kf kg = kg e
    Steps-continue_catch (stops (panics x)) f g kf kg = record { at = p.same }

    pub Steps-catch :
        (m : Exec v S A) (f : A → Exec v S B) (g : GoError v → Exec v S B)
        → Steps R m
        → ((a : A) → Steps R (f a))
        → ((e : GoError v) → Steps R (g e))
        → Steps R (catch m f g)
    Steps-catch m f g km kf kg = record {
      at = λ s.
          let (r, s') = m s in
          p.both s s' (continue_catch r f g s').1 (km.at s)
            ((Steps-continue_catch r f g kf kg).at s');
    }
