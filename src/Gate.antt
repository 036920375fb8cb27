-- ===== src/Gate.antt =====
-- internal/driftdeploygate/gate.go: whether a plan with drift may be deployed.
pub mod Verdict
pub mod Advisories
mod Tests
use terraform_provider_pyxcl.Prelude.{
  ℕ, String, Bool, true, false, ◌||◌, Option, none, some, List, [], ◌∷◌, ◌++◌, map, ◌==◌, ltb,
  if◌then◌else◌,
}
use terraform_provider_pyxcl.GoLang.Float.{Float64}
use terraform_provider_pyxcl.Plan.{DriftDetail, PlanSummary}
use terraform_provider_pyxcl.Plan.Sensitive.{is_security_sensitive}
use terraform_provider_pyxcl.Plan.Cost.{
  PlanJson, no_bytes, CostSignal, CostMessage, extract_cost_signals, evaluate_over_provisioning,
  evaluate_cost_trend,
}
use terraform_provider_pyxcl.Scan.{is_high, scan_with_result}
use terraform_provider_pyxcl.Scan.Types.{Resource, Finding}

pub data Action : Type 0 where
  approve open_pr block : Action

-- The `Reason` of a verdict, as the data that its text prints.
pub data Reason (F : Float64) : Type 0 where
  no_drift : Reason F
  risky : List (String × String) → Reason F
  destructive : ℕ → ℕ → Reason F
  safe_additive : Reason F
  security_blocked : Finding F → Reason F

-- An entry of `CostAdvisories`, by the prefix of its text.
pub data Advisory (F : Float64) : Type 0 where
  over_provisioning : CostMessage F → Advisory F
  budget : CostMessage F → Advisory F
  security : Finding F → Advisory F

pub record PolicyVerdict (F : Float64) : Type 0 where
  pub allowed : Bool
  pub reason : Reason F
  pub action : Action
  pub cost_advisories : List (Advisory F)

-- riskyResources: address and type of the security-sensitive details.
unfoldable pub risky_resources : List DriftDetail → List (String × String)
risky_resources [] = []
risky_resources (d ∷ ds) =
    let rest = risky_resources ds in
    if is_security_sensitive d.resource_type then (d.address, d.resource_type) ∷ rest else rest

abbrev approved : {F : Float64} → PolicyVerdict F
approved = record { allowed = true; reason = no_drift; action = approve; cost_advisories = [] }

-- The verdict on a summary with changes, given its risky resources.
unfoldable pub judge : {F : Float64} → PlanSummary → List (String × String) → PolicyVerdict F
judge s (r ∷ rs) = record {
  allowed = false;
  reason = risky (r ∷ rs);
  action = block;
  cost_advisories = [];
}
judge s [] =
    if ltb 0 s.removed || ltb 0 s.changed
    then record {
      allowed = false;
      reason = destructive s.changed s.removed;
      action = block;
      cost_advisories = [];
    }
    else record { allowed = true; reason = safe_additive; action = open_pr; cost_advisories = [] }

-- EvaluateDriftPolicy; `none` is a nil summary.
unfoldable pub evaluate_drift_policy : {F : Float64} → Option PlanSummary → PolicyVerdict F
evaluate_drift_policy none = approved
evaluate_drift_policy (some s) =
    if s.resources_changed == 0 then approved else judge s (risky_resources s.drift_details)

module _ {F : Float64} where
  abbrev advise : PolicyVerdict F → List (Advisory F) → PolicyVerdict F
  advise v as' = record v { cost_advisories = v.cost_advisories ++ as' }

module _ {F : Float64} (over_provision_threshold budget_monthly : F.Num) where
  -- Both rules on the signals of a plan; no signal or an error leaves the verdict.
  unfoldable pub advise_cost : PolicyVerdict F → Option (List (CostSignal F)) → PolicyVerdict F
  advise_cost v none = v
  advise_cost v (some []) = v
  advise_cost v (some (s ∷ ss)) =
      advise
        (advise v
          (map over_provisioning (evaluate_over_provisioning over_provision_threshold (s ∷ ss))))
        (map budget (evaluate_cost_trend budget_monthly (s ∷ ss)))

  -- EvaluateDriftPolicyWithCost
  unfoldable pub evaluate_drift_policy_with_cost : Option PlanSummary → PlanJson F → PolicyVerdict F
  evaluate_drift_policy_with_cost summary no_bytes = evaluate_drift_policy summary
  evaluate_drift_policy_with_cost summary plan =
      advise_cost (evaluate_drift_policy summary) (extract_cost_signals plan)

module _ {F : Float64} where
  -- The loop over the findings: a HIGH finding blocks, and each is added to the advisories.
  unfoldable pub apply_finding : PolicyVerdict F → Finding F → PolicyVerdict F
  apply_finding v f =
      advise
        (if is_high f
          then record v { allowed = false; reason = security_blocked f; action = block }
          else v)
        (security f ∷ [])

  unfoldable pub apply_findings : PolicyVerdict F → List (Finding F) → PolicyVerdict F
  apply_findings v [] = v
  apply_findings v (f ∷ fs) = apply_findings (apply_finding v f) fs

  -- The scan, which an empty list of resources skips.
  unfoldable pub apply_scan : PolicyVerdict F → List (Resource F) → PolicyVerdict F
  apply_scan v [] = v
  apply_scan v (r ∷ rs) = apply_findings v (scan_with_result (r ∷ rs)).findings

-- EvaluateDriftPolicyWithSecScan
unfoldable pub evaluate_drift_policy_with_sec_scan :
    {F : Float64}
    → F.Num
    → F.Num
    → Option PlanSummary
    → PlanJson F
    → List (Resource F)
    → PolicyVerdict F
evaluate_drift_policy_with_sec_scan threshold ceiling summary plan resources =
    apply_scan (evaluate_drift_policy_with_cost threshold ceiling summary plan) resources
