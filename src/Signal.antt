-- ===== src/Signal.antt =====
-- internal/driftsignalrule/rule.go: the event for drift that no approved change explains.
-- The package's copy of isSecuritySensitive is the one of Plan/Sensitive.
pub mod Policy
mod Tests
use text.Mathlib.Text.{◌==◌ as str_eq}
use terraform_provider_pyxcl.Prelude.{
  ℕ, String, Bool, true, false, not, ◌&&◌, Option, none, some, List, [], ◌∷◌, ◌==◌, any,
  if◌then◌else◌,
}
use terraform_provider_pyxcl.Plan.{DriftDetail, PlanSummary}
use terraform_provider_pyxcl.Plan.Sensitive.{is_security_sensitive}

-- The payload map; `security_sensitive_resources` is a key that only a risky payload has.
pub record Payload : Type 0 where
  pub resources_changed : ℕ
  pub added : ℕ
  pub changed : ℕ
  pub removed : ℕ
  pub change_sha : String
  pub approved_shas : List String
  pub security_sensitive_resources : Option (List String)
  pub risky : Bool

-- DriftEvent
pub record DriftEvent : Type 0 where
  pub event_type : String
  pub payload : Payload

-- What a call returns, and the events that it hands to the client.
pub record Outcome (Error : Type 0) : Type 0 where
  pub event : Option DriftEvent
  pub error : Option Error
  pub fired : List DriftEvent

-- secSensitive: the addresses of the security-sensitive details.
unfoldable pub sensitive_addresses : List DriftDetail → List String
sensitive_addresses [] = []
sensitive_addresses (d ∷ ds) =
    let rest = sensitive_addresses ds in
    if is_security_sensitive d.resource_type then d.address ∷ rest else rest

-- isApproved
unfoldable pub is_approved : List String → String → Bool
is_approved approved_shas change_sha =
    not (str_eq change_sha "") && any (λ sha. str_eq sha change_sha) approved_shas

abbrev listed : List String → Option (List String)
listed [] = none
listed (a ∷ as') = some (a ∷ as')

abbrev is_listed : List String → Bool
is_listed [] = false
is_listed (a ∷ as') = true

unfoldable pub event_of : PlanSummary → List String → String → DriftEvent
event_of s approved_shas change_sha = record {
  event_type = "drift_detected";
  payload = record {
    resources_changed = s.resources_changed;
    added = s.added;
    changed = s.changed;
    removed = s.removed;
    change_sha = change_sha;
    approved_shas = approved_shas;
    security_sensitive_resources = listed (sensitive_addresses s.drift_details);
    risky = is_listed (sensitive_addresses s.drift_details);
  };
}

module _ {Error : Type 0} (fire_event : DriftEvent → Option Error) where
  abbrev silent : Outcome Error
  silent = record { event = none; error = none; fired = [] }

  -- EvaluateAndSignal; `none` is a nil summary, and `fire_event` is the client's FireEvent.
  unfoldable pub evaluate_and_signal : Option PlanSummary → List String → String → Outcome Error
  evaluate_and_signal none approved_shas change_sha = silent
  evaluate_and_signal (some s) approved_shas change_sha =
      if s.resources_changed == 0
      then silent
      else if is_approved approved_shas change_sha
      then silent
      else let e = event_of s approved_shas change_sha in
        record { event = some e; error = fire_event e; fired = e ∷ [] }
