-- ===== src/Signal/Policy.antt =====
-- The drift signal against the deploy gate's drift policy
-- (internal/driftsignalrule/rule.go and internal/driftdeploygate/gate.go).
use terraform_provider_pyxcl.Prelude.{
  String, ◌≡◌, refl, ap, Bool, true, false, ◌||◌, Option, none, some, List, [], ◌∷◌, ◌==◌, ltb, map,
  if◌then◌else◌, Bool-cases, inl, inr,
}
use terraform_provider_pyxcl.GoLang.Float.{Float64}
use terraform_provider_pyxcl.Plan.{DriftDetail, PlanSummary}
use terraform_provider_pyxcl.Plan.Sensitive.{is_security_sensitive}
use terraform_provider_pyxcl.Gate.{
  Reason, no_drift, risky, judge, evaluate_drift_policy, risky_resources,
}
use terraform_provider_pyxcl.Signal.{
  DriftEvent, sensitive_addresses, is_approved, event_of, evaluate_and_signal, is_listed, listed,
}

-- The addresses that a reason names as risky.
abbrev pub risky_addresses : {F : Float64} → Reason F → List String
risky_addresses (risky rs) = map (λ (r : String × String). r.0) rs
risky_addresses _ = []

abbrev pub is_no_drift : {F : Float64} → Reason F → Bool
is_no_drift no_drift = true
is_no_drift _ = false

sensitive_addresses-risky :
    (ds : List DriftDetail)
    → map (λ (r : String × String). r.0) (risky_resources ds) ≡ sensitive_addresses ds
unfolding sensitive_addresses risky_resources
sensitive_addresses-risky [] = refl
sensitive_addresses-risky (d ∷ ds) = elim (Bool-cases (is_security_sensitive d.resource_type)) [
  | inl sensitive ↦ rw sensitive (ap (λ as'. d.address ∷ as') (sensitive_addresses-risky ds))
  | inr plain ↦ rw plain (sensitive_addresses-risky ds)
]

abbrev pub listed_addresses : Option (List String) → List String
listed_addresses none = []
listed_addresses (some as') = as'

listed_addresses-listed : (as' : List String) → listed_addresses (listed as') ≡ as'
listed_addresses-listed [] = refl
listed_addresses-listed (a ∷ as') = refl

-- What an event tells of the risk.
abbrev pub risk : DriftEvent → Bool × List String
risk e = (e.payload.risky, listed_addresses e.payload.security_sensitive_resources)

-- What the gate's reason tells of the risk.
abbrev pub judged_risk : {F : Float64} → Reason F → Bool × List String
judged_risk r = (is_listed (risky_addresses r), risky_addresses r)

module _ (F : Float64) where
  judge-risky :
      (s : PlanSummary) (rs : List (String × String))
      → risky_addresses (judge {F = F} s rs).reason ≡ map (λ (r : String × String). r.0) rs
  unfolding judge
  judge-risky s [] = elim (Bool-cases (ltb 0 s.removed || ltb 0 s.changed)) [
    | inl destroys ↦ rw destroys
    | inr harmless ↦ rw harmless
  ]
  judge-risky s (r ∷ rs) = refl

  judge-drift :
      (s : PlanSummary) (rs : List (String × String))
      → is_no_drift (judge {F = F} s rs).reason ≡ false
  unfolding judge
  judge-drift s [] = elim (Bool-cases (ltb 0 s.removed || ltb 0 s.changed)) [
    | inl destroys ↦ rw destroys
    | inr harmless ↦ rw harmless
  ]
  judge-drift s (r ∷ rs) = refl

  event_of-risk :
      (s : PlanSummary) (approved_shas : List String) (change_sha : String)
      → risk (event_of s approved_shas change_sha)
        ≡ judged_risk (judge {F = F} s (risky_resources s.drift_details)).reason
  unfolding event_of
  event_of-risk s approved_shas change_sha = rw (
    judge-risky s (risky_resources s.drift_details),
    sensitive_addresses-risky s.drift_details,
    listed_addresses-listed (sensitive_addresses s.drift_details),
  )

-- Whatever the client answers, the call fires one event exactly if the drift policy's reason is not
-- that there is no drift and the change is not approved; that event is risky exactly if the reason
-- names risky resources, and lists their addresses in the reason's order.
pub evaluate_and_signal-risk :
    (F : Float64) {Error : Type 0} (fire_event : DriftEvent → Option Error)
    (summary : Option PlanSummary) (approved_shas : List String) (change_sha : String)
    → let reason = (evaluate_drift_policy {F = F} summary).reason in
      map risk (evaluate_and_signal fire_event summary approved_shas change_sha).fired ≡ (
        if is_no_drift reason || is_approved approved_shas change_sha
        then []
        else judged_risk reason ∷ [])
unfolding evaluate_and_signal evaluate_drift_policy
evaluate_and_signal-risk F fire_event none approved_shas change_sha = refl
evaluate_and_signal-risk F fire_event (some s) approved_shas change_sha =
    elim (Bool-cases (s.resources_changed == 0)) [
      | inl idle ↦ rw idle
      | inr busy ↦ elim (Bool-cases (is_approved approved_shas change_sha)) [
        | inl ok ↦ rw (busy, ok, judge-drift F s (risky_resources s.drift_details))
        | inr rogue ↦
            rw (busy, rogue, judge-drift F s (risky_resources s.drift_details))
              (ap (λ r. r ∷ []) (event_of-risk F s approved_shas change_sha))
      ]
    ]
