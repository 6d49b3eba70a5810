-- ===== src/Prelude/Members.antt =====
-- Membership and rearrangement of lists, with the place kept.
use Prim.Native.Nat.{ℕ, suc}
use Prim.Native.String.{String}
use mathlib.Core.Path.{◌≡◌, refl, sym, ap, ◌∙◌, subst}
use mathlib.Core.Logic.{◌⊎◌, inl, inr}
use mathlib.Core.Bool.{Bool, true}
use mathlib.Core.Option.{none, some}
use mathlib.Core.List.{List, [], ◌∷◌, map}
use mathlib.Core.List.{Permᴰ}
use native.Mathlib.Omega.{arith}
use text.Mathlib.TextEquality.{eq_iff}
use nimbus_run_a_self_hosted.Prelude.Tests.{if◌then◌else◌}
use nimbus_run_a_self_hosted.Prelude.Lists.{
  All, length, select, lookup, discard, assign, lookup-discard,
}

module _ {A : Type 0} where
  abbrev pub In : A → List A → Type 0
  In a [] = ⊥
  In a (x ∷ xs) = (a ≡ x) ⊎ In a xs

  pub In-select : (p : A → Bool) (a : A) (xs : List A) → In a (select p xs) → In a xs × (p a ≡ true)
  In-select p a [] h = absurd h
  In-select p a (x ∷ xs) h = ground (arith, In-select p a xs)

  pub select-In : (p : A → Bool) (a : A) (xs : List A) → In a xs → p a ≡ true → In a (select p xs)
  select-In p a [] h e = absurd h
  select-In p a (x ∷ xs) h e = ground (arith, select-In p a xs)

  pub In-All {κ} : (P : A → Type κ) (xs : List A) → ((a : A) → In a xs → P a) → All P xs
  In-All P [] h = tt
  In-All P (x ∷ xs) h = (h x (inl refl), In-All P xs (λ a m. h a (inr m)))

  pub All-In {κ} : (P : A → Type κ) (a : A) (xs : List A) → All P xs → In a xs → P a
  All-In P a [] h m = absurd m
  All-In P a (x ∷ xs) h (inl e) = subst P (sym e) h.0
  All-In P a (x ∷ xs) h (inr m) = All-In P a xs h.1 m

  pub perm-In : {xs ys : List A} (a : A) → Permᴰ xs ys → In a xs → In a ys
  perm-In a Permᴰ.nil h = h
  perm-In a (Permᴰ.cons e p) (inl q) = inl (q ∙ e)
  perm-In a (Permᴰ.cons e p) (inr m) = inr (perm-In a p m)
  perm-In a (Permᴰ.swap e g) (inl q) = inr (inl (q ∙ e))
  perm-In a (Permᴰ.swap e g) (inr (inl q)) = inl (q ∙ g)
  perm-In a (Permᴰ.swap e g) (inr (inr m)) = inr (inr m)
  perm-In a (Permᴰ.trans p q) h = perm-In a q (perm-In a p h)

  -- How many elements pass a test.
  abbrev pub count_if : (A → Bool) → List A → ℕ
  count_if p [] = 0
  count_if p (x ∷ xs) = let rest = count_if p xs in if p x then suc rest else rest

  pub count_if-perm : {xs ys : List A} (p : A → Bool) → Permᴰ xs ys → count_if p xs ≡ count_if p ys
  count_if-perm p Permᴰ.nil = refl
  count_if-perm p (Permᴰ.cons {a = a} {b = b} e d) = ground (arith, count_if-perm p d, ap p e)
  count_if-perm p (Permᴰ.swap e g) = ground (arith, ap p e, ap p g)
  count_if-perm p (Permᴰ.trans d d') = count_if-perm p d ∙ count_if-perm p d'

module _ {A : Type 0} where
  pub perm-length : {xs ys : List A} → Permᴰ xs ys → length xs ≡ length ys
  perm-length Permᴰ.nil = refl
  perm-length (Permᴰ.cons e p) = ap suc (perm-length p)
  perm-length (Permᴰ.swap e g) = refl
  perm-length (Permᴰ.trans p q) = perm-length p ∙ perm-length q

module _ {A B : Type 0} where
  pub In-map : (f : A → B) (a : A) (xs : List A) → In a xs → In (f a) (map f xs)
  In-map f a [] h = absurd h
  In-map f a (x ∷ xs) (inl e) = inl (ap f e)
  In-map f a (x ∷ xs) (inr m) = inr (In-map f a xs m)

  pub In-unmap :
      (f : A → B) (b : B) (xs : List A) → In b (map f xs) → (a : A) × (In a xs) × (b ≡ f a)
  In-unmap f b [] h = absurd h
  In-unmap f b (x ∷ xs) (inl e) = (x, inl refl, e)
  In-unmap f b (x ∷ xs) (inr m) = let (a, n, e) = In-unmap f b xs m in (a, inr n, e)

-- The entries of a Go map have different keys.
module _ {V : Type 0} where
  abbrev pub Distinct : List (String × V) → Type 0
  Distinct [] = Unit {0}
  Distinct ((k, v) ∷ m) = (lookup k m ≡ none) × Distinct m

  pub lookup-In : (k : String) (v : V) (m : List (String × V)) → lookup k m ≡ some v → In (k, v) m
  unfolding lookup
  lookup-In k v [] h = cc
  lookup-In k v ((j, w) ∷ m) h = ground (arith, eq_iff j k, lookup-In k v m)

  pub In-lookup :
      (k : String) (v : V) (m : List (String × V)) → Distinct m → In (k, v) m → lookup k m ≡ some v
  unfolding lookup
  In-lookup k v [] d h = absurd h
  In-lookup k v ((j, w) ∷ m) d (inl e) =
      ground (arith, eq_iff j k, ap (λ (x : String × V). x.0) e, ap (λ (x : String × V). x.1) e)
  In-lookup k v ((j, w) ∷ m) d (inr h) = ground (arith, eq_iff j k, In-lookup k v m d.1 h)

  pub discard-Distinct : (k : String) (m : List (String × V)) → Distinct m → Distinct (discard k m)
  unfolding discard
  discard-Distinct k [] d = tt
  discard-Distinct k ((j, v) ∷ m) d =
      ground (arith, lookup-discard k j m, discard-Distinct k m d.1, eq_iff j k)

  pub assign-Distinct :
      (k : String) (v : V) (m : List (String × V)) → Distinct m → Distinct (assign k v m)
  unfolding assign
  assign-Distinct k v m d = ground (arith, lookup-discard k k m, discard-Distinct k m d, eq_iff k k)
