-- ===== src/Migration/Engine/Reports.antt =====
-- What the engine's result says of the program that was run (internal/migration/engine.go).
use text.Mathlib.Text.{◌==◌ as str_eq}
use terraform_provider_pyxcl.Prelude.{
  ℕ, ◌≡◌, sym, ◌∙◌, ap, ◌⊎◌, inl, inr, Bool, true, none, some, List, [], ◌∷◌, ◌++◌, All, any, not,
  ◌&&◌, Bool-cases, refl, arith, eq_iff,
}
use terraform_provider_pyxcl.Migration.Seal.{Bytes}
use terraform_provider_pyxcl.Migration.Status.{OpaqueStep, cutover_phase}
use terraform_provider_pyxcl.Migration.Interpreter.{run_program}
use terraform_provider_pyxcl.Migration.Interpreter.Verdict.{
  any_failed, always, Reports, run_program-Reports,
}
use terraform_provider_pyxcl.Migration.Interpreter.DryRun.{
  IsFlagged, NoCutover, run_program-NoCutover,
}
use terraform_provider_pyxcl.Migration.Client.{PlanInput, SealedInputs}
use terraform_provider_pyxcl.Migration.Engine.{Result, Options, World, Fault, unseal, run}
use terraform_provider_pyxcl.Migration.Engine.Outcome.{run-Ends, observe_all-observations}

-- The program came out of the seal.
abbrev pub IsUnsealed : World → List OpaqueStep → Type 0
IsUnsealed w steps =
    (priv : Bytes) × ((inputs : SealedInputs) × (unseal w priv inputs ≡ some steps))

-- A run either returns an error and has observed nothing, or it returns none and has observed exactly
-- the statuses that arrive from the execution, under the dry-run option, of a program that came out of
-- the seal.
pub run-observations :
    (w : World) (opt : Options) (input : PlanInput)
    → let p = (run w input opt).0 in
      (((f : Fault) × (p.fault ≡ some f)) × (p.result.observations ≡ []))
      ⊎ ((p.fault ≡ none)
          × ((steps : List OpaqueStep) × (IsUnsealed w steps
                × (p.result.observations ≡ run_program w.deliver opt.dry_run steps))))
run-observations w opt input = elim (run-Ends w opt input) [
  | inl r ↦ inl (r.fault, r.blank.observations)
  | inr x ↦ inr (
    x.fault,
    (
      x.steps,
      (
        (x.priv, (x.inputs, x.unsealed)),
        ap (λ (r : Result). r.observations) x.result
            ∙ (observe_all-observations x.start (run_program w.deliver opt.dry_run x.steps)
                ∙ ap (λ os. os ++ run_program w.deliver opt.dry_run x.steps) x.blank.observations),
      ),
    ),
  )
]

arrives : (deliver : ℕ → Bool) → ((n : ℕ) → deliver n ≡ true) → deliver ≡ always
arrives deliver h = λ i. λ n. h n i

-- When every status arrives, a run that returns no error reports a rollback if some step of the
-- program that came out of the seal did not converge, and success otherwise.
pub run-Reports :
    (w : World) (opt : Options) (input : PlanInput)
    → ((n : ℕ) → w.deliver n ≡ true)
    → (run w input opt).0.fault ≡ none
    → (steps : List OpaqueStep) × (IsUnsealed w steps
        × Reports (any_failed steps) (run w input opt).0.result)
run-Reports w opt input h fine = elim (run-Ends w opt input) [
  | inl r ↦ let bad = sym r.fault.1 ∙ fine in cc bad
  | inr x ↦ (
    x.steps,
    (
      (x.priv, (x.inputs, x.unsealed)),
      rw (x.result, arrives w.deliver h)
          (run_program-Reports opt.dry_run x.steps x.start (x.blank.verdict, x.blank.rolled_back)),
    ),
  )
]

-- A step that is labelled "cutover" without being flagged as one.
abbrev pub is_mislabelled : OpaqueStep → Bool
is_mislabelled s = str_eq s.phase cutover_phase && not s.cutover

IsFlagged-is_mislabelled :
    (steps : List OpaqueStep) → All IsFlagged steps ⊎ (any is_mislabelled steps ≡ true)
IsFlagged-is_mislabelled [] = inl tt
IsFlagged-is_mislabelled (s ∷ ss) = elim (Bool-cases (is_mislabelled s)) [
  | inl e ↦ inr (rw e refl)
  | inr e ↦ elim (IsFlagged-is_mislabelled ss) [
    | inl h ↦ inl ((λ label. ground (arith, eq_iff s.phase cutover_phase)), h)
    | inr h ↦ inr (rw (e, h) refl)
  ]
]

-- With the dry-run option, whichever statuses arrive: either a run observes no status of the phase
-- "cutover", or the program that came out of the seal, and whose statuses it has observed, has a step
-- that is labelled "cutover" without being flagged as one.
pub run-NoCutover :
    (w : World) (opt : Options) (input : PlanInput)
    → opt.dry_run ≡ true
    → All NoCutover (run w input opt).0.result.observations
      ⊎ ((steps : List OpaqueStep) × (IsUnsealed w steps
            × (((run w input opt).0.result.observations ≡ run_program w.deliver true steps)
                × (any is_mislabelled steps ≡ true))))
run-NoCutover w opt input dry = elim (run-observations w opt input) [
  | inl (_, e) ↦ inl (rw e tt)
  | inr (_, (steps, (u, e))) ↦ elim (IsFlagged-is_mislabelled steps) [
    | inl h ↦ inl (rw (e, dry) (run_program-NoCutover w.deliver steps h))
    | inr h ↦ inr (steps, (u, (rw (sym dry) e, h)))
  ]
]
