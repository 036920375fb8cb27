-- ===== src/Gate/Advisories.antt =====
-- The action, the reason and the advisories of a gate verdict (internal/driftdeploygate/gate.go).
use mathlib.Core.List.{append-nil, append_assoc}
use terraform_provider_pyxcl.Prelude.{
  String, ◌≡◌, refl, ap, sym, ◌∙◌, Bool, true, false, not, Option, none, some, List, [], ◌∷◌, ◌++◌,
  map, arith, Bool-cases, inl, inr,
}
use terraform_provider_pyxcl.GoLang.Float.{Float64}
use terraform_provider_pyxcl.Plan.{PlanSummary}
use terraform_provider_pyxcl.Plan.Cost.{PlanJson, no_bytes, malformed, decoded, CostSignal}
use terraform_provider_pyxcl.Scan.{is_high, scan, scan_with_result}
use terraform_provider_pyxcl.Scan.Types.{Resource, Finding}
use terraform_provider_pyxcl.Gate.{
  Action, block, PolicyVerdict, security, judge, risky_resources, evaluate_drift_policy,
  advise_cost, evaluate_drift_policy_with_cost, apply_finding, apply_findings, apply_scan,
  evaluate_drift_policy_with_sec_scan,
}

abbrev pub is_block : Action → Bool
is_block block = true
is_block _ = false

-- The action is "block" exactly in a verdict that does not allow.
abbrev Agrees : {F : Float64} → PolicyVerdict F → Type 0
Agrees v = v.allowed ≡ not (is_block v.action)

module _ {F : Float64} where
  apply_findings-Agrees :
      (v : PolicyVerdict F) (fs : List (Finding F)) → Agrees v → Agrees (apply_findings v fs)
  unfolding apply_findings apply_finding
  apply_findings-Agrees v [] h = h
  apply_findings-Agrees v (f ∷ fs) h =
      apply_findings-Agrees (apply_finding v f) fs
        (elim (Bool-cases (is_high f)) [ inl severe ↦ rw severe | inr mild ↦ rw mild h ])

  apply_finding-advisories :
      (v : PolicyVerdict F) (f : Finding F)
      → (apply_finding v f).cost_advisories ≡ v.cost_advisories ++ security f ∷ []
  unfolding apply_finding
  apply_finding-advisories v f = elim (Bool-cases (is_high f)) [
    | inl severe ↦ rw severe
    | inr mild ↦ rw mild
  ]

  apply_findings-advisories :
      (v : PolicyVerdict F) (fs : List (Finding F))
      → (apply_findings v fs).cost_advisories ≡ v.cost_advisories ++ map security fs
  unfolding apply_findings
  apply_findings-advisories v [] = sym (append-nil _)
  apply_findings-advisories v (f ∷ fs) =
      apply_findings-advisories (apply_finding v f) fs
      ∙ ap (λ as'. as' ++ map security fs) (apply_finding-advisories v f)
      ∙ append_assoc v.cost_advisories (security f ∷ []) (map security fs)

  -- What cost signals leave alone.
  abbrev SameVerdict : PolicyVerdict F → PolicyVerdict F → Type 0
  SameVerdict v w = (v.allowed ≡ w.allowed) × (v.action ≡ w.action) × (v.reason ≡ w.reason)

module _ (F : Float64) where
  judge-Agrees : (s : PlanSummary) (rs : List (String × String)) → Agrees {F = F} (judge s rs)
  unfolding judge
  judge-Agrees s [] = ground arith
  judge-Agrees s (r ∷ rs) = refl

  policy-Agrees : (summary : Option PlanSummary) → Agrees {F = F} (evaluate_drift_policy summary)
  unfolding evaluate_drift_policy
  policy-Agrees none = refl
  policy-Agrees (some s) = ground (arith, judge-Agrees s (risky_resources s.drift_details))

module _ {F : Float64} (threshold ceiling : F.Num) where
  advise_cost-SameVerdict :
      (v : PolicyVerdict F) (o : Option (List (CostSignal F)))
      → SameVerdict (advise_cost threshold ceiling v o) v
  unfolding advise_cost
  advise_cost-SameVerdict v none = (refl, refl, refl)
  advise_cost-SameVerdict v (some []) = (refl, refl, refl)
  advise_cost-SameVerdict v (some (s ∷ ss)) = (refl, refl, refl)

  -- Cost advisories do not block: with any thresholds and any plan, decodable or not, the verdict has
  -- the drift policy's `allowed`, action and reason.
  pub with_cost-SameVerdict :
      (summary : Option PlanSummary) (plan : PlanJson F)
      → SameVerdict
          (evaluate_drift_policy_with_cost threshold ceiling summary plan)
          (evaluate_drift_policy summary)
  unfolding evaluate_drift_policy_with_cost
  with_cost-SameVerdict summary no_bytes = (refl, refl, refl)
  with_cost-SameVerdict summary malformed = advise_cost-SameVerdict _ _
  with_cost-SameVerdict summary (decoded rcs) = advise_cost-SameVerdict _ _

  with_cost-Agrees :
      (summary : Option PlanSummary) (plan : PlanJson F)
      → Agrees (evaluate_drift_policy_with_cost threshold ceiling summary plan)
  with_cost-Agrees summary plan =
      let (allowed, action, _) = with_cost-SameVerdict summary plan in
      rw (allowed, action) (policy-Agrees F summary)

  apply_scan-Agrees :
      (v : PolicyVerdict F) (rs : List (Resource F)) → Agrees v → Agrees (apply_scan v rs)
  unfolding apply_scan
  apply_scan-Agrees v [] h = h
  apply_scan-Agrees v (r ∷ rs) h = apply_findings-Agrees v _ h

  -- On every input of the full gate the action is "block" exactly when the deployment is not allowed.
  pub sec_scan-action :
      (summary : Option PlanSummary) (plan : PlanJson F) (resources : List (Resource F))
      → let v = evaluate_drift_policy_with_sec_scan threshold ceiling summary plan resources in
        v.allowed ≡ not (is_block v.action)
  unfolding evaluate_drift_policy_with_sec_scan
  sec_scan-action summary plan resources =
      apply_scan-Agrees _ resources (with_cost-Agrees summary plan)

  -- The full gate reports every finding of the scan, in its order, after the cost advisories.
  pub sec_scan-advisories :
      (summary : Option PlanSummary) (plan : PlanJson F) (resources : List (Resource F))
      → (evaluate_drift_policy_with_sec_scan threshold ceiling summary plan
          resources).cost_advisories
        ≡ (evaluate_drift_policy_with_cost threshold ceiling summary plan).cost_advisories
          ++ map security (scan_with_result resources).findings
  unfolding evaluate_drift_policy_with_sec_scan apply_scan scan_with_result scan
  sec_scan-advisories summary plan [] = sym (append-nil _)
  sec_scan-advisories summary plan (r ∷ rs) = apply_findings-advisories _ _
