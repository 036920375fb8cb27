-- ===== src/Migration/Interpreter/DryRun.antt =====
-- A dry run does not report a cutover (internal/migration/runtime/interpreter.go).
use terraform_provider_pyxcl.Prelude.{
  ℕ, ◌+◌, String, ◌≡◌, ◌≢◌, Bool, true, List, [], ◌∷◌, All, arith, eq_iff, Bool-cases, inl, inr,
}
use terraform_provider_pyxcl.Prelude.Int.{ℤ}
use terraform_provider_pyxcl.Migration.Status.{
  pending, succeeded, cutover_phase, verifying, rolled_back_phase, Status, OpaqueStep,
}
use terraform_provider_pyxcl.Migration.Interpreter.{
  run_steps, run_program, converge_failed, step_phase,
}

-- Only a step that is flagged as a cutover bears the label "cutover".
abbrev pub IsFlagged : OpaqueStep → Type 0
IsFlagged s = s.phase ≡ cutover_phase → s.cutover ≡ true

abbrev pub NoCutover : Status → Type 0
NoCutover st = st.phase ≢ cutover_phase

step_phase-ne_cutover : (s : OpaqueStep) → IsFlagged s → step_phase true s ≢ cutover_phase
unfolding step_phase
step_phase-ne_cutover s h = elim (Bool-cases s.cutover) [
  | inl flagged ↦ rw flagged (ground (arith, eq_iff verifying cutover_phase))
  | inr plain ↦ rw plain (λ e. cc (h e))
]

pending_ne_cutover : ◌≢◌ {A = String} pending cutover_phase
pending_ne_cutover = ground (arith, eq_iff pending cutover_phase)

succeeded_ne_cutover : ◌≢◌ {A = String} succeeded cutover_phase
succeeded_ne_cutover = ground (arith, eq_iff succeeded cutover_phase)

rollback_ne_cutover : ◌≢◌ {A = String} rolled_back_phase cutover_phase
rollback_ne_cutover = ground (arith, eq_iff rolled_back_phase cutover_phase)

module _ (deliver : ℕ → Bool) (total : ℤ) where
  run_steps-NoCutover :
      (n : ℕ) (done : ℤ) (steps : List OpaqueStep)
      → All IsFlagged steps
      → All NoCutover (run_steps deliver true total n done steps)
  unfolding run_steps
  run_steps-NoCutover n done [] h = elim (Bool-cases (deliver n)) [
    | inl sent ↦ rw sent (succeeded_ne_cutover, tt)
    | inr lost ↦ rw lost tt
  ]
  run_steps-NoCutover n done (s ∷ ss) (p, h) = elim (Bool-cases (converge_failed s.payload)) [
    | inl stuck ↦ rw stuck (elim (Bool-cases (deliver n)) [
      | inl sent ↦ rw sent (rollback_ne_cutover, tt)
      | inr lost ↦ rw lost tt
    ])
    | inr fine ↦ rw fine (elim (Bool-cases (deliver n)) [
      | inl sent ↦ rw sent (step_phase-ne_cutover s p, run_steps-NoCutover (n + 1) _ ss h)
      | inr lost ↦ rw lost tt
    ])
  ]

-- In a dry run of a program that labels only flagged steps "cutover", no status has the phase
-- "cutover", whichever sends succeed.
pub run_program-NoCutover :
    (deliver : ℕ → Bool) (steps : List OpaqueStep)
    → All IsFlagged steps
    → All NoCutover (run_program deliver true steps)
unfolding run_program
run_program-NoCutover deliver steps h = elim (Bool-cases (deliver 0)) [
  | inl sent ↦ rw sent (pending_ne_cutover, run_steps-NoCutover deliver _ 1 _ steps h)
  | inr lost ↦ rw lost (run_steps-NoCutover deliver _ 1 _ steps h)
]
