-- ===== src/Scan/Types.antt =====
-- Resource, Finding, makeFinding and toInt of pkg/iacsecscan/scanner.go.
use terraform_provider_pyxcl.Prelude.{String, if◌then◌else◌}
use terraform_provider_pyxcl.Prelude.Int.{ℤ, pos}
use terraform_provider_pyxcl.GoLang.Float.{Float64}
use terraform_provider_pyxcl.GoLang.Text.{codes, has_prefix}
use terraform_provider_pyxcl.GoLang.Value.{Value, float, int, int64, Fields, get}

pub record Resource (F : Float64) : Type 0 where
  pub resource_type : String
  pub attributes : Fields F

-- `resource_name` is the value that the code prints with %v.
pub record Finding (F : Float64) : Type 0 where
  pub resource_type : String
  pub resource_name : Value F
  pub severity : String
  pub rule_id : String
  pub description : String
  pub remediation : String

abbrev pub high : String
high = "HIGH"

abbrev pub medium : String
medium = "MEDIUM"

unfoldable pub severity_of : String → String
severity_of rule_id = if has_prefix (codes rule_id) (codes "PUBLIC-STORAGE") then medium else high

-- makeFinding
unfoldable pub make_finding : {F : Float64} → Resource F → String → String → String → Finding F
make_finding r rule_id description remediation = record {
  resource_type = r.resource_type;
  resource_name = get "name" r.attributes;
  severity = severity_of rule_id;
  rule_id = rule_id;
  description = description;
  remediation = remediation;
}

-- toInt
unfoldable pub to_int : {F : Float64} → Value F → ℤ
to_int {F} (float x) = F.truncate x
to_int (int n) = n
to_int (int64 n) = n
to_int _ = pos 0
