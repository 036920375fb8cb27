-- ===== src/Migration/Interpreter/Percent.antt =====
-- The percentages that a run reports (internal/migration/runtime/interpreter.go).
use native.Mathlib.Nat.{le-div_iff_mul-le, div-mul-le_self}
use terraform_provider_pyxcl.Prelude.{
  ℕ, ◌+◌, ◌*◌, ◌/◌, ◌^◌, ◌≤◌, ◌<◌, ◌≡◌, refl, Bool, true, false, List, [], ◌∷◌, ◌++◌, arith,
  if◌then◌else◌, Bool-cases, inl, inr,
}
use terraform_provider_pyxcl.Prelude.Int.{pos}
use terraform_provider_pyxcl.Migration.Status.{Status, OpaqueStep}
use terraform_provider_pyxcl.Migration.Interpreter.{
  ready_status, run_steps, run_program, converge_failed,
}
use terraform_provider_pyxcl.Migration.Interpreter.Weights.{
  weight_of, weight_sum, weight_pos, add_weight, total_weight-sum, pct-pos, percent-le,
}

-- The percentages lie between p and 100 and never fall.
abbrev pub Ascends : ℕ → List Status → Type 0
Ascends p [] = Unit
Ascends p (s ∷ ss) = (q : ℕ) × (s.percent ≡ pos q) × (p ≤ q) × (q ≤ 100) × Ascends q ss

module _ (deliver : ℕ → Bool) (dry_run : Bool) (total : ℕ) (small : total * 100 < 2 ^ 63) where
  run_steps-Ascends :
      (n done p : ℕ) (ss : List OpaqueStep)
      → done + weight_sum ss ≤ total
      → p ≤ 100
      → p * total ≤ done * 100
      → Ascends p (run_steps deliver dry_run (pos total) n (pos done) ss)
  unfolding run_steps
  run_steps-Ascends n done p [] h k l = elim (Bool-cases (deliver n)) [
    | inl sent ↦ rw sent (100, refl, k, omega arith, tt)
    | inr lost ↦ rw lost tt
  ]
  run_steps-Ascends n done p (s ∷ ss) h k l =
      let done' : ℕ = done + weight_of s in
      let total_pos : 0 < total = omega (arith, weight_pos s) in
      let fits : done' ≤ total = omega arith in
      let q : ℕ = done' * 100 / total in
      let above : p ≤ q = (le-div_iff_mul-le total_pos).1 (omega arith) in
      let below : q ≤ 100 = percent-le done' total total_pos fits small in
      rw (add_weight done s (omega arith), pct-pos done' total total_pos fits small)
        (elim (Bool-cases (converge_failed s.payload)) [
          | inl stuck ↦ rw stuck (elim (Bool-cases (deliver n)) [
            | inl sent ↦ rw sent (q, refl, above, below, tt)
            | inr lost ↦ rw lost tt
          ])
          | inr fine ↦ rw fine (elim (Bool-cases (deliver n)) [
            | inl sent ↦ rw sent (
              q,
              refl,
              above,
              below,
              run_steps-Ascends (n + 1) done' q ss (omega arith) below (div-mul-le_self _ total),
            )
            | inr lost ↦ rw lost tt
          ])
        ])

send_ready-Ascends :
    (sent : Bool) (ss : List Status)
    → Ascends 0 ss
    → Ascends 0 ((if sent then ready_status ∷ [] else []) ++ ss)
send_ready-Ascends true ss h = (0, refl, omega arith, omega arith, h)
send_ready-Ascends false ss h = h

-- If a hundred times the sum of the clamped weights fits in an int, the percentages of the statuses
-- that a run sends start at 0 or above, never fall and never pass 100, whichever sends succeed.
pub run_program-Ascends :
    (deliver : ℕ → Bool) (dry_run : Bool) (steps : List OpaqueStep)
    → weight_sum steps * 100 < 2 ^ 63
    → Ascends 0 (run_program deliver dry_run steps)
unfolding run_program
run_program-Ascends deliver dry_run steps h = rw (total_weight-sum steps (omega arith)) (
    send_ready-Ascends (deliver 0) _ (
      run_steps-Ascends deliver dry_run (weight_sum steps) h 1 0 0 steps (omega arith) (omega arith)
        (omega arith)))
