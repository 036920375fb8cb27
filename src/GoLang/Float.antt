-- ===== src/GoLang/Float.antt =====
-- Go's float64 as an interface: the theory has no floating-point numbers, so the operations that the
-- modelled files use are fields, and a theorem that relies on a law of them says so.
use terraform_provider_pyxcl.Prelude.{ℕ, String, Bool, Option}
use terraform_provider_pyxcl.Prelude.Int.{ℤ}

pub record Float64 : Type 1 where
  pub Num : Type 0
  -- an integer constant, such as 0.0 or 100
  pub lit : ℕ → Num
  pub add : Num → Num → Num
  pub sub : Num → Num → Num
  pub mul : Num → Num → Num
  pub div : Num → Num → Num
  pub neg : Num → Num
  pub eq : Num → Num → Bool
  pub lt : Num → Num → Bool
  pub le : Num → Num → Bool
  -- math.Round
  pub round : Num → Num
  -- the conversion int(x)
  pub truncate : Num → ℤ
  -- the conversion float64(n)
  pub of_int : ℤ → Num
  -- strconv.ParseFloat(s, 64)
  pub parse : String → Option Num
