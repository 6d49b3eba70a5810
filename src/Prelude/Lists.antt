-- ===== src/Prelude/Lists.antt =====
-- Lists: lengths, Boolean filters, and association lists keyed by text.
use Prim.Native.Nat.{ℕ, suc}
use Prim.Native.String.{String}
use mathlib.Core.Path.{◌≡◌}
use mathlib.Core.Bool.{Bool}
use mathlib.Core.Option.{Option, none, some}
use mathlib.Core.List.{List, [], ◌∷◌}
use native.Mathlib.Omega.{arith}
use text.Mathlib.Text.{◌==◌ as str_eq}
use text.Mathlib.TextEquality.{eq_iff}
use nimbus_run_a_self_hosted.Prelude.Tests.{if◌then◌else◌}

module _ {ℓ} {A : Type ℓ} where
  abbrev pub length : List A → ℕ
  length [] = 0
  length (x ∷ xs) = suc (length xs)

  -- The elements that pass a test, in their order.
  abbrev pub select : (A → Bool) → List A → List A
  select p [] = []
  select p (x ∷ xs) = let rest = select p xs in if p x then x ∷ rest else rest

  abbrev pub All {κ} : (A → Type κ) → List A → Type κ
  All P [] = Unit
  All P (x ∷ xs) = P x × All P xs

-- A Go map with text keys. `assign` is `m[k] = v`, `discard` is `delete(m, k)`.
module _ {V : Type 0} where
  unfoldable pub lookup : String → List (String × V) → Option V
  lookup k [] = none
  lookup k ((j, v) ∷ m) = if str_eq j k then some v else lookup k m

  unfoldable pub discard : String → List (String × V) → List (String × V)
  discard k [] = []
  discard k ((j, v) ∷ m) = let rest = discard k m in if str_eq j k then rest else (j, v) ∷ rest

  unfoldable pub assign : String → V → List (String × V) → List (String × V)
  assign k v m = (k, v) ∷ discard k m

  pub lookup-discard :
      (k j : String) (m : List (String × V))
      → lookup j (discard k m) ≡ (if str_eq k j then none else lookup j m)
  unfolding lookup discard
  lookup-discard k j [] = ground arith
  lookup-discard k j ((i, v) ∷ m) =
      ground (arith, eq_iff k j, eq_iff i k, eq_iff i j, lookup-discard k j m)

  pub lookup-assign :
      (k j : String) (v : V) (m : List (String × V))
      → lookup j (assign k v m) ≡ (if str_eq k j then some v else lookup j m)
  unfolding assign lookup
  lookup-assign k j v m = ground (arith, lookup-discard k j m)
