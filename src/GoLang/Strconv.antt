-- ===== src/GoLang/Strconv.antt =====
-- Go's strconv.Atoi and strconv.Itoa.
use mathlib.Core.Option.{some-injective}
use terraform_provider_pyxcl.Prelude.{
  ℕ, zero, suc, ◌+◌, ◌-◌, ◌*◌, ◌/◌, ◌%◌, ◌^◌, ◌<◌, ◌≡◌, sym, ◌∙◌, ap, String, ◌&&◌, Option, none,
  some, List, [], ◌∷◌, ◌==◌, leb, ltb, if◌then◌else◌, arith, Bool-cases, inl, inr,
}
use terraform_provider_pyxcl.Prelude.Int.{ℤ, pos, sub_ℕ}
use terraform_provider_pyxcl.GoLang.Text.{codes}

-- The digits read so far and those to come; `none` is a syntax error.
unfoldable pub digits_from : ℕ → List ℕ → Option ℕ
digits_from n [] = some n
digits_from n (c ∷ s) =
    let rest = digits_from (n * 10 + (c - b'0')) s in
    if leb b'0' c && leb c b'9' then rest else none

unfoldable pub digits : List ℕ → Option ℕ
unfolding digits_from
digits [] = none
digits (c ∷ s) = digits_from 0 (c ∷ s)

-- A value outside of int64 is a range error.
unfoldable pub positive : Option ℕ → Option ℤ
positive none = none
positive (some n) = if ltb n (2 ^ 63) then some (pos n) else none

unfoldable pub negative : Option ℕ → Option ℤ
negative none = none
negative (some n) = if leb n (2 ^ 63) then some (sub_ℕ 0 n) else none

unfoldable pub atoi_codes : List ℕ → Option ℤ
unfolding digits positive negative
atoi_codes [] = none
atoi_codes (c ∷ s) =
    if c == b'-'
    then negative (digits s)
    else if c == b'+'
    then positive (digits s)
    else positive (digits (c ∷ s))

unfoldable pub atoi : String → Option ℤ
unfolding atoi_codes
atoi s = atoi_codes (codes s)

-- The decimal digits of n, before those of `rest`; with more fuel than n there is enough.
unfoldable pub decimal : ℕ → ℕ → List ℕ → List ℕ
decimal zero n rest = rest
decimal (suc fuel) n rest =
    let more = decimal fuel (n / 10) ((b'0' + n % 10) ∷ rest) in
    if ltb n 10 then (b'0' + n) ∷ rest else more

-- strconv.Itoa, and %d in a format, of a number that is not negative
unfoldable pub itoa : ℕ → List ℕ
unfolding decimal
itoa n = decimal (suc n) n []

digits_from-digit :
    (m d n : ℕ) (rest : List ℕ)
    → d < 10
    → m * 10 + d ≡ n
    → digits_from m ((b'0' + d) ∷ rest) ≡ digits_from n rest
unfolding digits_from
digits_from-digit m d n rest h e = ground arith

digits_from-decimal :
    (fuel n : ℕ) (rest : List ℕ)
    → n < fuel
    → digits_from 0 (decimal fuel n rest) ≡ digits_from n rest
unfolding decimal
digits_from-decimal zero n rest h = absurd (omega arith)
digits_from-decimal (suc fuel) n rest h = elim (Bool-cases (ltb n 10)) [
  | inl small ↦ rw small (digits_from-digit 0 n n rest (ground arith) (omega arith))
  | inr large ↦ rw large (
      digits_from-decimal fuel (n / 10) ((b'0' + n % 10) ∷ rest) (ground arith)
      ∙ digits_from-digit (n / 10) (n % 10) n rest (omega arith) (omega arith))
]

-- Different numbers print differently.
pub itoa_injective : (m n : ℕ) → itoa m ≡ itoa n → m ≡ n
unfolding itoa digits_from
itoa_injective m n h = some-injective m n (
    sym (digits_from-decimal (suc m) m [] (omega arith))
    ∙ (ap (digits_from 0) h ∙ digits_from-decimal (suc n) n [] (omega arith)))
