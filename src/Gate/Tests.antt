-- ===== src/Gate/Tests.antt =====
-- Instances of the theorems on the deploy gate.
use terraform_provider_pyxcl.Prelude.{◌≡◌, ◌&&◌, Option, some, List, [], ◌∷◌, ◌++◌, map, all}
use terraform_provider_pyxcl.Prelude.Int.{pos}
use terraform_provider_pyxcl.GoLang.Value.{float, str, list, object, nil, cons, Fields, end, field}
use terraform_provider_pyxcl.GoLang.Exact.{exact}
use terraform_provider_pyxcl.Plan.{PlanSummary, create}
use terraform_provider_pyxcl.Plan.Parse.{parse_plan}
use terraform_provider_pyxcl.Plan.Cost.{PlanJson, decoded}
use terraform_provider_pyxcl.Scan.{scan_with_result}
use terraform_provider_pyxcl.Scan.Types.{Resource}
use terraform_provider_pyxcl.Gate.{
  security, evaluate_drift_policy, evaluate_drift_policy_with_cost,
  evaluate_drift_policy_with_sec_scan,
}
use terraform_provider_pyxcl.Gate.Verdict.{
  is_safe, evaluate_drift_policy-parse_plan, sec_scan-allowed,
}
use terraform_provider_pyxcl.Gate.Advisories.{sec_scan-advisories}

abbrev new_subnet : Option (Fields exact)
new_subnet = some (
    field "resource_changes"
      (list (
        cons
          (object (
            field "type" (str "aws_subnet")
              (field "change" (object (field "actions" (list (cons (str "create") nil)) end)) end)))
          nil))
      end)

abbrev one_added : PlanSummary
one_added = record {
  added = 1;
  changed = 0;
  removed = 0;
  resources_changed = 1;
  drift_details =
      record {
        address = "a";
        resource_type = "aws_instance";
        change_action = create;
        changed_attrs = [];
      }
      ∷ [];
}

abbrev costly : PlanJson exact
costly = decoded (
    record {
      address = "a";
      resource_type = "aws_instance";
      actions = "create" ∷ [];
      after = some (field "monthly_cost" (float (pos 900)) end);
    }
    ∷ [])

abbrev volumes : List (Resource exact)
volumes = record { resource_type = "aws_ebs_volume"; attributes = end } ∷ []

evaluate_drift_policy-parse_plan_example :
    (evaluate_drift_policy {F = exact} (some (parse_plan new_subnet))).allowed
    ≡ all is_safe (parse_plan new_subnet).drift_details
evaluate_drift_policy-parse_plan_example = evaluate_drift_policy-parse_plan new_subnet

sec_scan-allowed_example :
    (evaluate_drift_policy_with_sec_scan
      (pos 100)
      (pos 500)
      (some one_added)
      costly
      volumes).allowed
    ≡ ((evaluate_drift_policy {F = exact} (some one_added)).allowed
        && (scan_with_result volumes).ok)
sec_scan-allowed_example = sec_scan-allowed (pos 100) (pos 500) (some one_added) costly volumes

sec_scan-advisories_example :
    (evaluate_drift_policy_with_sec_scan
      (pos 100)
      (pos 500)
      (some one_added)
      costly
      volumes).cost_advisories
    ≡ (evaluate_drift_policy_with_cost (pos 100) (pos 500) (some one_added) costly).cost_advisories
      ++ map security (scan_with_result volumes).findings
sec_scan-advisories_example =
    sec_scan-advisories (pos 100) (pos 500) (some one_added) costly volumes
