-- ===== src/Plan.antt =====
-- internal/tfplanparser/parser.go: what `terraform show -json` says a plan changes.
-- The types stand here; the children hold the functions and, below them, their proofs.
pub mod Diff
pub mod Parse
pub mod Sensitive
pub mod Counts
pub mod Cost
mod Tests
use terraform_provider_pyxcl.Prelude.{ℕ, String, List, []}

-- The four values that ParsePlan gives to `actionStr`.
pub data ChangeAction : Type 0 where
  replace create delete update : ChangeAction

pub record DriftDetail : Type 0 where
  pub address : String
  pub resource_type : String
  pub change_action : ChangeAction
  pub changed_attrs : List String

pub record PlanSummary : Type 0 where
  pub added : ℕ
  pub changed : ℕ
  pub removed : ℕ
  pub resources_changed : ℕ
  pub drift_details : List DriftDetail

-- &PlanSummary{}
abbrev pub empty_summary : PlanSummary
empty_summary = record {
  added = 0;
  changed = 0;
  removed = 0;
  resources_changed = 0;
  drift_details = [];
}
