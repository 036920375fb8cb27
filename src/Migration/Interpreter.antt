-- ===== src/Migration/Interpreter.antt =====
-- internal/migration/runtime/interpreter.go: the run of an opaque step program.
-- A send on the status channel succeeds, or the context is done and the status is lost: `deliver n`
-- says which for the n-th send of the run. The result is the list of the statuses that are sent.
pub mod Weights
pub mod Percent
pub mod Verdict
pub mod DryRun
use terraform_provider_pyxcl.Prelude.{
  ℕ, ◌+◌, ◌≡◌, refl, String, Bool, true, false, ◌&&◌, Option, none, some, List, [], ◌∷◌, ◌++◌,
  if◌then◌else◌,
}
use terraform_provider_pyxcl.Prelude.Int.{ℤ, pos, negsuc, leb_ℤ, ltb_ℤ, pos_part}
use terraform_provider_pyxcl.GoLang.Int64.{add64, mul64, quot}
use terraform_provider_pyxcl.Migration.Status.{
  Phase, pending, verifying, succeeded, rolled_back_phase, Status, Payload, no_payload, undecodable,
  control, OpaqueStep,
}

-- decodeBundle, from what json.Unmarshal gives; `none` is an error.
unfoldable pub decode_bundle : Option (List OpaqueStep) → Option (List OpaqueStep)
decode_bundle none = none
decode_bundle (some []) = none
decode_bundle (some (s ∷ ss)) = some (s ∷ ss)

-- if w <= 0 { w = 1 }
unfoldable pub clamp_weight : ℤ → ℤ
clamp_weight w = if leb_ℤ w (pos 0) then pos 1 else w

-- The first loop: the sum of the clamped weights.
unfoldable pub total_weight : ℤ → List OpaqueStep → ℤ
total_weight total [] = total
total_weight total (s ∷ ss) = total_weight (add64 total (clamp_weight s.weight)) ss

-- p := done * 100 / total, once total > 0
unfoldable pub ratio : ℤ → ℤ → ℤ
ratio done (pos n) = quot (mul64 done (pos 100)) n
ratio done (negsuc n) = pos 0

-- pct
unfoldable pub pct : ℤ → ℤ → ℤ
pct done total =
    if leb_ℤ total (pos 0)
    then pos 100
    else if ltb_ℤ (pos 100) (ratio done total)
    then pos 100
    else ratio done total

-- convergeFailed
unfoldable pub converge_failed : Payload → Bool
converge_failed (control (some false)) = true
converge_failed _ = false

-- A cutover step under a dry run is reported as verified.
unfoldable pub step_phase : Bool → OpaqueStep → Phase
step_phase dry_run s = if s.cutover && dry_run then verifying else s.phase

abbrev pub ready_status : Status
ready_status = record {
  phase = pending;
  percent = pos 0;
  verdict = "";
  detail = "sealed runtime ready";
  rolled_back = false;
}

abbrev pub rollback_status : ℤ → Status
rollback_status percent = record {
  phase = rolled_back_phase;
  percent = percent;
  verdict = "rolled-back";
  detail = "a sealed step did not converge; source preserved";
  rolled_back = true;
}

abbrev pub progress_status : Phase → ℤ → Status
progress_status phase percent = record {
  phase = phase;
  percent = percent;
  verdict = "";
  detail = "encrypted bytes processed";
  rolled_back = false;
}

abbrev pub success_status : Bool → Status
success_status dry_run = record {
  phase = succeeded;
  percent = pos 100;
  verdict = "success";
  detail =
      (if dry_run
        then "dry-run verified; no cutover performed"
        else "migration converged; cutover complete");
  rolled_back = false;
}

module _ (deliver : ℕ → Bool) (dry_run : Bool) (total : ℤ) where
  -- The second loop and the final status, from the n-th send on.
  unfoldable pub run_steps : ℕ → ℤ → List OpaqueStep → List Status
  run_steps n done [] = if deliver n then success_status dry_run ∷ [] else []
  run_steps n done (s ∷ ss) =
      let done' = add64 done (clamp_weight s.weight) in
      let rest = run_steps (n + 1) done' ss in
      if converge_failed s.payload
      then if deliver n then rollback_status (pct done' total) ∷ [] else []
      else if deliver n
      then progress_status (step_phase dry_run s) (pct done' total) ∷ rest
      else []

-- runProgram; the first send's outcome is not looked at.
unfoldable pub run_program : (ℕ → Bool) → Bool → List OpaqueStep → List Status
run_program deliver dry_run steps =
    (if deliver 0 then ready_status ∷ [] else [])
    ++ run_steps deliver dry_run (total_weight (pos 0) steps) 1 (pos 0) steps
