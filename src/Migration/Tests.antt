-- ===== src/Migration/Tests.antt =====
-- Runs of the interpreter, and instances of the theorems on it.
use terraform_provider_pyxcl.Prelude.{
  ◌≡◌, ◌≢◌, refl, Bool, true, false, some, List, [], ◌∷◌, ltb, arith, map, eq_iff,
}
use terraform_provider_pyxcl.Prelude.Int.{ℤ, pos, negsuc}
use terraform_provider_pyxcl.GoLang.Int64.{add64, mul64, quot, of_word}
use terraform_provider_pyxcl.Migration.Status.{
  Phase, Status, OpaqueStep, no_payload, control, cutover_phase,
}
use terraform_provider_pyxcl.Migration.Engine.{observe, observe_all}
use terraform_provider_pyxcl.Migration.Interpreter.{
  run_program, run_steps, total_weight, clamp_weight, pct, ratio, converge_failed, step_phase,
}
use terraform_provider_pyxcl.Migration.Interpreter.Percent.{Ascends, run_program-Ascends}
use terraform_provider_pyxcl.Migration.Interpreter.Verdict.{always}

abbrev step : Phase → ℤ → Bool → OpaqueStep
step phase weight cutover = record {
  phase = phase;
  weight = weight;
  cutover = cutover;
  payload = no_payload;
}

abbrev stuck_step : OpaqueStep
stuck_step = record {
  phase = "syncing";
  weight = pos 1;
  cutover = false;
  payload = control (some false);
}

abbrev program : List OpaqueStep
program = step "syncing" (pos 3) false ∷ step "cutover" (negsuc 4) true ∷ []

run_tests : Unit {0}
unfolding run_program run_steps total_weight clamp_weight pct ratio converge_failed step_phase add64
    mul64 quot of_word observe observe_all
run_tests = tt

program_percents :
    map (λ (s : Status). s.percent) (run_program always false program)
    ≡ pos 0 ∷ pos 75 ∷ pos 100 ∷ pos 100 ∷ []
unfolding run_tests
program_percents = refl

dry_phases :
    map (λ (s : Status). s.phase) (run_program always true program)
    ≡ "pending" ∷ "syncing" ∷ "verifying" ∷ "succeeded" ∷ []
unfolding run_tests
dry_phases = refl

run_program-Ascends_example : Ascends 0 (run_program (λ n. ltb n 3) false program)
unfolding run_tests
run_program-Ascends_example = run_program-Ascends (λ n. ltb n 3) false program (omega arith)

syncing_ne_cutover : ◌≢◌ {A = Phase} "syncing" cutover_phase
syncing_ne_cutover = ground (arith, eq_iff "syncing" cutover_phase)
