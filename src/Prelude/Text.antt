-- ===== src/Prelude/Text.antt =====
-- Go's strings and strconv, as far as the program uses them.
use Prim.Native.Char.{Char, code}
use Prim.Native.Nat.{ℕ, ◌+◌, ◌-◌, ◌*◌, ◌^◌}
use Prim.Native.String.{String, [], ◌∷◌}
use mathlib.Core.Path.{◌≡◌, refl, sym, ap, ◌∙◌}
use mathlib.Core.Logic.{inl, inr}
use mathlib.Core.Bool.{◌&&◌}
use mathlib.Core.Option.{Option, none, some}
use native.Mathlib.Omega.{arith}
use text.Mathlib.TextEquality.{Char-path}
use nimbus_run_a_self_hosted.Prelude.Tests.{
  ltb, leb, ◌==◌, ==_iff, if◌then◌else◌, Option-cases, Bool-cases,
}
use nimbus_run_a_self_hosted.Prelude.Exec.{Result, ok, err, errorf}
use nimbus_run_a_self_hosted.Prelude.Int.{ℤ, pos, negsuc}

abbrev prepend : Char → Option (String × String) → Option (String × String)
prepend c none = none
prepend c (some (a, b)) = some (c ∷ a, b)

-- The two parts that `strings.SplitN(s, " ", 2)` returns, or `none` if there is one part only.
unfoldable pub split_once : String → Option (String × String)
split_once [] = none
split_once (c ∷ s) =
    let rest = prepend c (split_once s) in if code c == b' ' then some ("", s) else rest

-- The digits of a number in base ten, after those read.
unfoldable pub read_digits : String → ℕ → Option ℕ
read_digits [] n = some n
read_digits (c ∷ s) n =
    let rest = read_digits s (n * 10 + (code c - b'0')) in
    if leb b'0' (code c) && leb (code c) b'9' then rest else none

unfoldable pub magnitude : String → Option ℕ
unfolding read_digits
magnitude [] = none
magnitude (c ∷ s) = read_digits (c ∷ s) 0

abbrev positive : Option ℕ → Result ℤ
positive none = err (errorf "strconv.Atoi: invalid syntax")
positive (some n) =
    if ltb n (2 ^ 63) then ok (pos n) else err (errorf "strconv.Atoi: value out of range")

abbrev negative : Option ℕ → Result ℤ
negative none = err (errorf "strconv.Atoi: invalid syntax")
negative (some n) =
    if leb n (2 ^ 63)
    then ok (if n == 0 then pos 0 else negsuc (n - 1))
    else err (errorf "strconv.Atoi: value out of range")

-- `strconv.Atoi`
unfoldable pub atoi : String → Result ℤ
unfolding magnitude
atoi [] = positive none
atoi (c ∷ s) =
    if code c == b'-'
    then negative (magnitude s)
    else if code c == b'+'
    then positive (magnitude s)
    else positive (magnitude (c ∷ s))

-- `a + " " + b`
abbrev pub spaced : String → String → String
spaced [] b = " " ∷ b
spaced (c ∷ a) b = c ∷ spaced a b

abbrev joined : Option (String × String) → String
joined none = ""
joined (some (a, b)) = spaced a b

-- The parts of a split make up the text, with the space between them.
pub split_once_append : (s a b : String) → split_once s ≡ some (a, b) → s ≡ spaced a b
unfolding split_once
split_once_append [] a b e = ground (arith, e)
split_once_append (c ∷ s) a b e = elim (Bool-cases (code c == b' ')) [
  | inl space ↦
      ap (λ d. d ∷ s) (Char-path c " " ((==_iff (code c) b' ').0 space))
      ∙ ap joined (sym (ap (λ t. if t then some ("", s) else prepend c (split_once s)) space) ∙ e)
  | inr other ↦
      let cut : prepend c (split_once s) ≡ some (a, b) =
        sym (ap (λ t. if t then some ("", s) else prepend c (split_once s)) other) ∙ e in
      elim (Option-cases (split_once s)) [
        | inl whole ↦ absurd (ground (arith, sym (ap (prepend c) whole) ∙ cut))
        | inr ((d, r), parts) ↦
            ap (λ t. c ∷ t) (split_once_append s d r parts)
            ∙ ap joined (sym (ap (prepend c) parts) ∙ cut)
      ]
]

atoi_tests :
    (atoi "42" ≡ ok (pos 42))
    × (atoi "-7" ≡ ok (negsuc 6))
    × (atoi "+0" ≡ ok (pos 0))
    × (split_once "Bearer a b" ≡ some ("Bearer", "a b"))
    × (spaced "Bearer" "a b" ≡ "Bearer a b")
unfolding atoi split_once
atoi_tests = (refl, refl, refl, refl, refl)
