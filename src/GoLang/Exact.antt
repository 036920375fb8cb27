-- ===== src/GoLang/Exact.antt =====
-- A Float64 of whole numbers: it shows that the interface can be met, and tests compute with it.
use terraform_provider_pyxcl.Prelude.{◌+◌, ◌*◌, ◌/◌, ◌&&◌}
use terraform_provider_pyxcl.Prelude.Int.{ℤ, pos, pos_part, neg_part, sub_ℕ, leb_ℤ, ltb_ℤ}
use terraform_provider_pyxcl.GoLang.Float.{Float64}
use terraform_provider_pyxcl.GoLang.Strconv.{atoi}

abbrev add : ℤ → ℤ → ℤ
add a b = sub_ℕ (pos_part a + pos_part b) (neg_part a + neg_part b)

abbrev neg : ℤ → ℤ
neg a = sub_ℕ (neg_part a) (pos_part a)

abbrev mul : ℤ → ℤ → ℤ
mul a b =
    sub_ℕ (pos_part a * pos_part b + neg_part a * neg_part b)
      (pos_part a * neg_part b + neg_part a * pos_part b)

abbrev div : ℤ → ℤ → ℤ
div a b =
    sub_ℕ (pos_part a / pos_part b + neg_part a / neg_part b)
      (pos_part a / neg_part b + neg_part a / pos_part b)

abbrev pub exact : Float64
exact = record {
  Num = ℤ;
  lit = λ n. pos n;
  add = add;
  sub = λ a b. add a (neg b);
  mul = mul;
  div = div;
  neg = neg;
  eq = λ a b. leb_ℤ a b && leb_ℤ b a;
  lt = ltb_ℤ;
  le = leb_ℤ;
  round = λ a. a;
  truncate = λ a. a;
  of_int = λ a. a;
  parse = atoi;
}
