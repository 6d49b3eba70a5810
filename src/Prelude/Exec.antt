-- ===== src/Prelude/Exec.antt =====
-- Go's `(value, error)` results, and actions on a shared state that return them.
-- An action that only returns an `error` has the value `tt`; its `nil` is `ok tt`.
use Prim.Native.String.{String}
use mathlib.Core.Path.{◌≡◌, refl}
use mathlib.Core.Logic.{◌⊎◌, inl, inr}
use mathlib.Core.Bool.{Bool, true, false}
use mathlib.Core.Option.{Option, none, some}

-- A panic is an error that no code of the program tests for.
-- `errorf m` is `errors.New(m)`; `wrapped m e` is `fmt.Errorf("m: %w", e)`.
pub data Error : Type 0 where
  errorf panicked : String → Error
  wrapped : String → Error → Error

pub data Result (A : Type 0) : Type 0 where
  ok : A → Result A
  err : Error → Result A

abbrev pub is_ok : {A : Type 0} → Result A → Bool
is_ok (ok a) = true
is_ok (err e) = false

pub Result-cases :
    {A : Type 0} (r : Result A) → ((a : A) × (r ≡ ok a)) ⊎ ((e : Error) × (r ≡ err e))
Result-cases (ok a) = inl (a, refl)
Result-cases (err e) = inr (e, refl)

-- `if err != nil { return fmt.Errorf("m: %w", err) }`
abbrev pub wrap : {A : Type 0} → String → Result A → Result A
wrap m (ok a) = ok a
wrap m (err e) = err (wrapped m e)

abbrev pub Exec : Type 0 → Type 0 → Type 0
Exec S A = S → Result A × S

module _ {S A : Type 0} where
  abbrev pub pure : A → Exec S A
  pure a s = (ok a, s)

  abbrev pub raise : Error → Exec S A
  raise e s = (err e, s)

  abbrev pub lift : Result A → Exec S A
  lift r s = (r, s)

  -- The error is a value of its own, which the caller looks at.
  abbrev pub attempt : Exec S A → Exec S (Result A)
  attempt m s = (ok (m s).0, (m s).1)

  -- The caller drops the error.
  abbrev pub ignore : Exec S A → Exec S (Unit {0})
  ignore m s = (ok tt, (m s).1)

  abbrev pub wrap_with : String → Exec S A → Exec S A
  wrap_with m act s = (wrap m (act s).0, (act s).1)

module _ {S A B : Type 0} where
  abbrev pub continue : (A → Exec S B) → Result A → Exec S B
  continue f (ok a) s = f a s
  continue f (err e) s = (err e, s)

  infixl 5 ◌>>=◌ ◌>>◌
  abbrev pub ◌>>=◌ : Exec S A → (A → Exec S B) → Exec S B
  ◌>>=◌ m f s = continue f (m s).0 (m s).1

  abbrev pub ◌>>◌ : Exec S A → Exec S B → Exec S B
  m >> n = m >>= λ _. n

-- `defer`: `last` runs on every way out of `m`, and its own result is dropped.
abbrev pub finally : {S A B : Type 0} → Exec S A → Exec S B → Exec S A
finally m last s = ((m s).0, (last (m s).1).1)

abbrev pub is_panic : Error → Bool
is_panic (errorf m) = false
is_panic (panicked m) = true
is_panic (wrapped m e) = is_panic e

-- The panic by which a call ended, if it did.
abbrev pub panic_of : {A : Type 0} → Result A → Option Error
panic_of (ok a) = none
panic_of (err e) = elim (is_panic e) [ true ↦ some e | false ↦ none ]
