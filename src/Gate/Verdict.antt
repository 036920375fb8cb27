-- ===== src/Gate/Verdict.antt =====
-- What a verdict of the deploy gate means (internal/driftdeploygate/gate.go).
use terraform_provider_pyxcl.Prelude.{
  ℕ, String, ◌≡◌, refl, ap, ◌∙◌, Bool, true, false, not, ◌&&◌, ◌||◌, Option, none, some, List, [],
  ◌∷◌, any, all, arith, Bool-cases, inl, inr, ◌==◌, ltb, length,
}
use terraform_provider_pyxcl.GoLang.Float.{Float64}
use terraform_provider_pyxcl.GoLang.Value.{Fields}
use terraform_provider_pyxcl.Plan.{DriftDetail, PlanSummary}
use terraform_provider_pyxcl.Plan.Sensitive.{is_security_sensitive}
use terraform_provider_pyxcl.Plan.Parse.{parse_plan}
use terraform_provider_pyxcl.Plan.Counts.{is_create, is_delete, is_modify, tally, parse_plan-counts}
use terraform_provider_pyxcl.Plan.Cost.{PlanJson, no_bytes, malformed, decoded, CostSignal}
use terraform_provider_pyxcl.Scan.{is_high, scan, scan_with_result}
use terraform_provider_pyxcl.Scan.Types.{Resource, Finding}
use terraform_provider_pyxcl.Gate.{
  PolicyVerdict, risky_resources, judge, evaluate_drift_policy, advise_cost,
  evaluate_drift_policy_with_cost, apply_finding, apply_findings, apply_scan,
  evaluate_drift_policy_with_sec_scan,
}

-- A change that the gate lets through: the creation of a resource whose type is not sensitive.
unfoldable pub is_safe : DriftDetail → Bool
is_safe d = is_create d.change_action && not (is_security_sensitive d.resource_type)

-- The verdict's `allowed` from the risky resources and the two counters.
abbrev harmless : List (String × String) → ℕ → ℕ → Bool
harmless [] removed changed = not (ltb 0 removed || ltb 0 changed)
harmless (r ∷ rs) removed changed = false

harmless-all_safe :
    (ds : List DriftDetail)
    → harmless (risky_resources ds) (tally is_delete ds) (tally is_modify ds) ≡ all is_safe ds
unfolding risky_resources is_safe
harmless-all_safe [] = refl
harmless-all_safe (d ∷ ds) = ground (arith, harmless-all_safe ds)

module _ (F : Float64) where
  judge-allowed :
      (s : PlanSummary) (rs : List (String × String))
      → (judge {F = F} s rs).allowed ≡ harmless rs s.removed s.changed
  unfolding judge
  judge-allowed s [] = ground arith
  judge-allowed s (r ∷ rs) = refl

module _ {F : Float64} where
  apply_findings-allowed :
      (v : PolicyVerdict F) (fs : List (Finding F))
      → (apply_findings v fs).allowed ≡ (v.allowed && not (any is_high fs))
  unfolding apply_findings apply_finding
  apply_findings-allowed v [] = ground arith
  apply_findings-allowed v (f ∷ fs) = ground (arith, apply_findings-allowed (apply_finding v f) fs)

  apply_scan-allowed :
      (v : PolicyVerdict F) (rs : List (Resource F))
      → (apply_scan v rs).allowed ≡ (v.allowed && (scan_with_result rs).ok)
  unfolding apply_scan scan_with_result scan
  apply_scan-allowed v [] = ground arith
  apply_scan-allowed v (r ∷ rs) = apply_findings-allowed v (scan (r ∷ rs))

  advise_cost-allowed :
      (threshold ceiling : F.Num) (v : PolicyVerdict F) (o : Option (List (CostSignal F)))
      → (advise_cost threshold ceiling v o).allowed ≡ v.allowed
  unfolding advise_cost
  advise_cost-allowed threshold ceiling v none = refl
  advise_cost-allowed threshold ceiling v (some []) = refl
  advise_cost-allowed threshold ceiling v (some (s ∷ ss)) = refl

all_safe_of_empty : (ds : List DriftDetail) → length ds ≡ 0 → all is_safe ds ≡ true
all_safe_of_empty [] h = refl
all_safe_of_empty (d ∷ ds) h = absurd (omega arith)

-- The drift policy allows the summary of a plan exactly when every change in it creates a resource
-- whose type is not security-sensitive.
pub evaluate_drift_policy-parse_plan :
    {F : Float64} (plan : Option (Fields F))
    → (evaluate_drift_policy {F = F} (some (parse_plan plan))).allowed
      ≡ all is_safe (parse_plan plan).drift_details
unfolding evaluate_drift_policy
evaluate_drift_policy-parse_plan {F} plan =
    let s = parse_plan plan in
    let (_, removed, changed, total) = parse_plan-counts plan in
    elim (Bool-cases (s.resources_changed == 0)) [
      | inl idle ↦ rw idle (ground (arith, all_safe_of_empty s.drift_details))
      | inr busy ↦
          rw (busy, judge-allowed F s (risky_resources s.drift_details), removed, changed)
            (harmless-all_safe s.drift_details)
    ]

-- Whatever the plan, the thresholds and the resources, the full gate allows a deployment exactly when
-- the drift policy allows the summary and the security scan is OK: cost advisories never decide.
pub sec_scan-allowed :
    {F : Float64} (threshold ceiling : F.Num) (summary : Option PlanSummary) (plan : PlanJson F)
    (resources : List (Resource F))
    → (evaluate_drift_policy_with_sec_scan threshold ceiling summary plan resources).allowed
      ≡ ((evaluate_drift_policy {F = F} summary).allowed && (scan_with_result resources).ok)
unfolding evaluate_drift_policy_with_sec_scan evaluate_drift_policy_with_cost
sec_scan-allowed threshold ceiling summary no_bytes resources = apply_scan-allowed _ resources
sec_scan-allowed {F} threshold ceiling summary malformed resources =
    apply_scan-allowed (advise_cost {F = F} threshold ceiling _ _) resources
    ∙ ap (λ b. b && (scan_with_result resources).ok)
        (advise_cost-allowed threshold ceiling (evaluate_drift_policy summary) _)
sec_scan-allowed {F} threshold ceiling summary (decoded rcs) resources =
    apply_scan-allowed (advise_cost {F = F} threshold ceiling _ _) resources
    ∙ ap (λ b. b && (scan_with_result resources).ok)
        (advise_cost-allowed threshold ceiling (evaluate_drift_policy summary) _)
