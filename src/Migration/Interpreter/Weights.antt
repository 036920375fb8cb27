-- ===== src/Migration/Interpreter/Weights.antt =====
-- The progress weights of a program in natural numbers, where no sum overflows
-- (internal/migration/runtime/interpreter.go).
use native.Mathlib.Nat.{div-le_of_le-mul}
use terraform_provider_pyxcl.Prelude.{
  ℕ, ◌+◌, ◌*◌, ◌/◌, ◌^◌, ◌≤◌, ◌<◌, ◌≡◌, ◌∙◌, ap, List, [], ◌∷◌, arith,
}
use terraform_provider_pyxcl.Prelude.Int.{pos, pos_part}
use terraform_provider_pyxcl.GoLang.Int64.{add64, quot, add64_pos, mul64_pos}
use terraform_provider_pyxcl.Migration.Status.{OpaqueStep}
use terraform_provider_pyxcl.Migration.Interpreter.{clamp_weight, total_weight, ratio, pct}

-- The clamped weight of a step, a number above 0.
abbrev pub weight_of : OpaqueStep → ℕ
weight_of s = pos_part (clamp_weight s.weight)

abbrev pub weight_sum : List OpaqueStep → ℕ
weight_sum [] = 0
weight_sum (s ∷ ss) = weight_of s + weight_sum ss

pub weight_pos : (s : OpaqueStep) → 0 < weight_of s
unfolding clamp_weight
weight_pos s = ground arith

pub clamp_weight-pos : (s : OpaqueStep) → clamp_weight s.weight ≡ pos (weight_of s)
unfolding clamp_weight
clamp_weight-pos s = ground arith

-- One step's addition does not wrap.
pub add_weight :
    (n : ℕ) (s : OpaqueStep)
    → n + weight_of s < 2 ^ 63
    → add64 (pos n) (clamp_weight s.weight) ≡ pos (n + weight_of s)
add_weight n s h = rw (clamp_weight-pos s) (add64_pos n (weight_of s) h)

total_weight-pos :
    (n : ℕ) (ss : List OpaqueStep)
    → n + weight_sum ss < 2 ^ 63
    → total_weight (pos n) ss ≡ pos (n + weight_sum ss)
unfolding total_weight
total_weight-pos n [] h = ap pos (omega arith)
total_weight-pos n (s ∷ ss) h =
    rw (add_weight n s (omega arith))
      (total_weight-pos (n + weight_of s) ss (omega arith) ∙ ap pos (omega arith))

pub total_weight-sum :
    (ss : List OpaqueStep) → weight_sum ss < 2 ^ 63 → total_weight (pos 0) ss ≡ pos (weight_sum ss)
total_weight-sum ss h = total_weight-pos 0 ss (omega arith) ∙ ap pos (omega arith)

-- The percentage of a part of a total above 0, where the product does not wrap.
module _ (done total : ℕ) (h : 0 < total) (k : done ≤ total) (l : total * 100 < 2 ^ 63) where
  pub percent-le : done * 100 / total ≤ 100
  percent-le = div-le_of_le-mul total (omega arith)

  pub pct-pos : pct (pos done) (pos total) ≡ pos (done * 100 / total)
  unfolding pct ratio quot
  pct-pos =
      rw (mul64_pos done 100 (omega arith) (omega arith) (omega arith)) (ground (arith, percent-le))
