-- ===== src/Migration/Interpreter/Verdict.antt =====
-- What the engine reports of a run whose statuses all arrive
-- (internal/migration/runtime/interpreter.go and internal/migration/engine.go).
use terraform_provider_pyxcl.Prelude.{
  ℕ, ◌+◌, ◌≡◌, Bool, true, false, List, [], ◌∷◌, any, arith, if◌then◌else◌, Bool-cases, inl, inr,
}
use terraform_provider_pyxcl.Prelude.Int.{ℤ}
use terraform_provider_pyxcl.Migration.Status.{succeeded, rolled_back_phase, OpaqueStep}
use terraform_provider_pyxcl.Migration.Interpreter.{run_steps, run_program, converge_failed}
use terraform_provider_pyxcl.Migration.Engine.{Result, observe, observe_all}

-- Some step of the program did not converge.
abbrev pub any_failed : List OpaqueStep → Bool
any_failed steps = any (λ s. converge_failed s.payload) steps

-- No send fails.
abbrev pub always : ℕ → Bool
always n = true

-- The engine's result before the first status.
abbrev pub IsFresh : Result → Type 0
IsFresh res = (res.verdict ≡ "") × (res.rolled_back ≡ false)

-- The outcome as the engine reports it.
pub record Reports (lost : Bool) (res : Result) : Type 0 where
  pub verdict : res.verdict ≡ (if lost then "rolled-back" else "success")
  pub rolled_back : res.rolled_back ≡ lost
  pub final_phase : res.final_phase ≡ (if lost then rolled_back_phase else succeeded)

module _ (dry_run : Bool) (total : ℤ) where
  run_steps-Reports :
      (n : ℕ) (done : ℤ) (steps : List OpaqueStep) (res : Result)
      → IsFresh res
      → Reports (any_failed steps) (observe_all res (run_steps always dry_run total n done steps))
  unfolding run_steps observe_all observe
  run_steps-Reports n done [] res h = ground arith
  run_steps-Reports n done (s ∷ ss) res h = elim (Bool-cases (converge_failed s.payload)) [
    | inl stuck ↦ rw stuck (ground arith)
    | inr fine ↦ rw fine (run_steps-Reports (n + 1) _ ss _ h)
  ]

-- When every status arrives, a result that starts fresh ends with the verdict "rolled-back", the phase
-- of that name and the rollback flag if some step of the program did not converge, and otherwise with
-- the verdict "success", the phase "succeeded" and no rollback flag, in a dry run too.
pub run_program-Reports :
    (dry_run : Bool) (steps : List OpaqueStep) (res : Result)
    → IsFresh res
    → Reports (any_failed steps) (observe_all res (run_program always dry_run steps))
unfolding run_program observe_all observe
run_program-Reports dry_run steps res h = run_steps-Reports dry_run _ 1 _ steps _ h
