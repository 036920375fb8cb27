-- ===== src/Scan/Tests.antt =====
-- Runs of the security scanner, and instances of the theorems on it.
use terraform_provider_pyxcl.Prelude.{◌≡◌, refl, not, true, false, [], ◌∷◌, any}
use terraform_provider_pyxcl.Prelude.Int.{pos}
use terraform_provider_pyxcl.GoLang.Text.{has_prefix}
use terraform_provider_pyxcl.GoLang.Value.{
  bool, float, str, list, nil, cons, Fields, end, field, lookup, get,
}
use terraform_provider_pyxcl.GoLang.Exact.{exact}
use terraform_provider_pyxcl.Scan.{scan_resource, scan, scan_with_result, is_high}
use terraform_provider_pyxcl.Scan.Types.{Resource, make_finding, severity_of, to_int}
use terraform_provider_pyxcl.Scan.Ports.{
  blocks_open, range_open, check_open_ports, check_ingress_list, check_ingress, ingress_attrs,
  is_open_ingress,
}
use terraform_provider_pyxcl.Scan.Storage.{
  check_public_storage, check_iam_wildcards, check_unencrypted_storage, is_missing_or_false,
  policy_has,
}
use terraform_provider_pyxcl.Scan.Severity.{blocks, scan_with_result-blocks}

scan_run : Unit {0}
unfolding blocks_open range_open scan_resource scan scan_with_result is_high make_finding
    severity_of to_int check_open_ports check_ingress_list check_ingress ingress_attrs
    is_open_ingress check_public_storage check_iam_wildcards check_unencrypted_storage has_prefix
    is_missing_or_false policy_has lookup get
scan_run = tt

abbrev world : Fields exact → Fields exact
world m = field "cidr_blocks" (list (cons (str "0.0.0.0/0") nil)) m

abbrev ssh_rule : Resource exact
ssh_rule = record {
  resource_type = "aws_security_group_rule";
  attributes = world (field "from_port" (float (pos 20)) (field "to_port" (float (pos 25)) end));
}

abbrev https_rule : Resource exact
https_rule = record {
  resource_type = "aws_security_group_rule";
  attributes = world (field "from_port" (float (pos 443)) end);
}

abbrev public_bucket : Resource exact
public_bucket = record {
  resource_type = "aws_s3_bucket";
  attributes = field "acl" (str "public-read") (field "block_public_acls" (bool false) end);
}

abbrev plain_volume : Resource exact
plain_volume = record { resource_type = "aws_ebs_volume"; attributes = end }

scan_outcomes :
    ((scan_with_result (ssh_rule ∷ [])).ok ≡ false)
    × ((scan_with_result (https_rule ∷ public_bucket ∷ [])).ok ≡ true)
    × ((scan_with_result (plain_volume ∷ [])).ok ≡ false)
unfolding scan_run
scan_outcomes = (refl, refl, refl)

scan_with_result-blocks_example :
    (scan_with_result (https_rule ∷ plain_volume ∷ [])).ok
    ≡ not (any blocks (https_rule ∷ plain_volume ∷ []))
scan_with_result-blocks_example = scan_with_result-blocks (https_rule ∷ plain_volume ∷ [])
