-- ===== src/Exec.antt =====
-- Methods that change an object and may end early: what was written before the end stays written.
-- An early end is a Go error that the caller returns in turn, or a panic.
pub mod Steps
pub mod Triple
use roadrunner_temporal.Base.{ℕ, String, Option, none, some, Bool, true, false}
use roadrunner_temporal.Vendor.{Vendor}
use roadrunner_temporal.Errors.{GoError, Result, ok, err, wrap}

-- The argument of `panic`: an error, or a text that `fmt.Sprintf` makes of a format and a text.
pub data PanicValue (v : Vendor) : Type 0 where
  of_error : GoError v → PanicValue v
  of_text : String → String → PanicValue v

pub data Stop (v : Vendor) : Type 0 where
  error : GoError v → Stop v
  panics : PanicValue v → Stop v

pub data Exit (v : Vendor) (A : Type 0) : Type 0 where
  returns : A → Exit v A
  stops : Stop v → Exit v A

abbrev pub Exec : Vendor → Type 0 → Type 0 → Type 0
Exec v S A = S → Exit v A × S

module _ {v : Vendor} {S A : Type 0} where
  abbrev pub pure : A → Exec v S A
  pure a s = (returns a, s)

  abbrev pub stop : Stop v → Exec v S A
  stop x s = (stops x, s)

  abbrev pub fail : GoError v → Exec v S A
  fail e = stop (error e)

  abbrev pub gets : (S → A) → Exec v S A
  gets f s = (returns (f s), s)

  -- A call whose error is returned as it is.
  abbrev pub lift : Result v A → Exec v S A
  lift (ok a) s = (returns a, s)
  lift (err e) s = (stops (error e), s)

module _ {v : Vendor} {S : Type 0} where
  abbrev pub modify : (S → S) → Exec v S (Unit {0})
  modify f s = (returns tt, f s)

  -- `a, err := …; if err != nil { return err }`.
  abbrev pub checked : {A : Type 0} → A × Option (GoError v) → Exec v S A
  checked (a, none) s = (returns a, s)
  checked (a, some e) s = (stops (error e), s)

  abbrev pub or_fail : Option (GoError v) → Exec v S (Unit {0})
  or_fail none s = (returns tt, s)
  or_fail (some e) s = (stops (error e), s)

  abbrev pub or_stop : Option (Stop v) × S → Exit v (Unit {0}) × S
  or_stop (none, s) = (returns tt, s)
  or_stop (some x, s) = (stops x, s)

module _ {v : Vendor} {S A B : Type 0} where
  abbrev pub continue : Exit v A → (A → Exec v S B) → Exec v S B
  continue (returns a) f s = f a s
  continue (stops x) f s = (stops x, s)

  infixl 10 ◌>>=◌ ◌>>◌
  abbrev pub ◌>>=◌ : Exec v S A → (A → Exec v S B) → Exec v S B
  ◌>>=◌ m f s = let (r, s') = m s in continue r f s'

  abbrev pub ◌>>◌ : Exec v S A → Exec v S B → Exec v S B
  m >> n = m >>= λ _. n

  -- `r, err := m; if err != nil { … }`: the error goes to a handler, and a panic goes on.
  abbrev pub continue_catch : Exit v A → (A → Exec v S B) → (GoError v → Exec v S B) → Exec v S B
  continue_catch (returns a) f g s = f a s
  continue_catch (stops (error e)) f g s = g e s
  continue_catch (stops (panics p)) f g s = (stops (panics p), s)

  abbrev pub catch : Exec v S A → (A → Exec v S B) → (GoError v → Exec v S B) → Exec v S B
  catch m f g s = let (r, s') = m s in continue_catch r f g s'

module _ {v : Vendor} {A : Type 0} where
  abbrev pub wrap_exit : String → Exit v A → Exit v A
  wrap_exit op (stops (error e)) = stops (error (wrap op e))
  wrap_exit op r = r

  abbrev pub panic_exit : Exit v A → Exit v A
  panic_exit (stops (error e)) = stops (panics (of_error e))
  panic_exit r = r

module _ {v : Vendor} {S A : Type 0} where
  -- `return errors.E(op, err)` where the call failed.
  abbrev pub wrapping : String → Exec v S A → Exec v S A
  wrapping op m s = let (r, s') = m s in (wrap_exit op r, s')

  -- A deferred change, made however the method ends.
  abbrev pub deferring : (S → S) → Exec v S A → Exec v S A
  deferring f m s = let (r, s') = m s in (r, f s')

  -- `if err != nil { panic(err) }`.
  abbrev pub or_panic : Exec v S A → Exec v S A
  or_panic m s = let (r, s') = m s in (panic_exit r, s')
