-- ===== src/Signal/Tests.antt =====
-- Instances of the theorem on the drift signal.
use terraform_provider_pyxcl.Prelude.{
  String, ◌≡◌, ◌||◌, Option, none, some, [], ◌∷◌, map, if◌then◌else◌,
}
use terraform_provider_pyxcl.GoLang.Exact.{exact}
use terraform_provider_pyxcl.Plan.{PlanSummary, delete}
use terraform_provider_pyxcl.Gate.{evaluate_drift_policy}
use terraform_provider_pyxcl.Signal.{DriftEvent, is_approved, evaluate_and_signal}
use terraform_provider_pyxcl.Signal.Policy.{
  is_no_drift, risk, judged_risk, evaluate_and_signal-risk,
}

abbrev subnet_removed : PlanSummary
subnet_removed = record {
  added = 0;
  changed = 0;
  removed = 1;
  resources_changed = 1;
  drift_details =
      record {
        address = "aws_subnet.a";
        resource_type = "aws_subnet";
        change_action = delete;
        changed_attrs = [];
      }
      ∷ [];
}

abbrev accept : DriftEvent → Option String
accept e = none

evaluate_and_signal-risk_example :
    let reason = (evaluate_drift_policy {F = exact} (some subnet_removed)).reason in
    map risk (evaluate_and_signal accept (some subnet_removed) ("abc" ∷ []) "def").fired
    ≡ (if is_no_drift reason || is_approved ("abc" ∷ []) "def" then [] else judged_risk reason ∷ [])
evaluate_and_signal-risk_example =
    evaluate_and_signal-risk exact accept (some subnet_removed) ("abc" ∷ []) "def"
