-- ===== src/Catalog/SecurityGroup/Translate.antt =====
-- TranslateSecurityGroup of internal/catalog/securitygroup.go.
use terraform_provider_pyxcl.Prelude.{
  Bool, ◌&&◌, Option, none, some, List, [], ◌∷◌, ◌++◌, map, leb, if◌then◌else◌,
}
use terraform_provider_pyxcl.Prelude.Int.{ℤ, leb_ℤ}
use terraform_provider_pyxcl.Prelude.Results.{Result, ok, err, ◌>>=◌, ◌>>◌, guard}
use terraform_provider_pyxcl.GoLang.Sort.{sort, leb_runes}
use terraform_provider_pyxcl.GoLang.Text.{Runes, codes, text_eq, to_lower, trim_space}
use terraform_provider_pyxcl.GoLang.Map.{lookup_runes}
use terraform_provider_pyxcl.Catalog.Names.{
  aws, gcp, digitalocean, azure, linode, ubicloud, oracle, ibm, alibaba, stackit, normal, RegionRow,
  RegionCatalog, is_empty,
}
use terraform_provider_pyxcl.Catalog.SecurityGroup.Types.{
  tcp, ingress, PrefixEntry, SecurityRule, SecurityGroupSpec, RulePlan, SecurityGroupPlan, Fault,
  region_not_found, empty_list, bad_list_cidr,
}
use terraform_provider_pyxcl.Catalog.SecurityGroup.Checks.{validate_sg_spec}
use terraform_provider_pyxcl.Catalog.SecurityGroup.Limits.{
  enforce_provider_capabilities, enforce_rule_limits,
}

-- asciiOnly
unfoldable pub ascii_runes : Runes → Runes
ascii_runes [] = []
ascii_runes (c ∷ s) =
    let rest = ascii_runes s in if leb 0x20 c && leb c 0x7e then c ∷ rest else rest

unfoldable pub ascii_only : Runes → Runes
unfolding ascii_runes
ascii_only s = trim_space (ascii_runes s)

-- A port of `expose`, opened to everyone.
unfoldable pub expose_rule : ℤ → RulePlan
expose_rule port = record {
  direction = ingress;
  protocol = tcp;
  from_port = port;
  to_port = port;
  cidrs = codes "0.0.0.0/0" ∷ codes "::/0" ∷ [];
  source_sg = [];
  external_source_sg_id = [];
  source_prefix_list = [];
  resolved_prefix_cidrs = [];
}

-- An explicit rule, normalised.
unfoldable pub normalise : SecurityRule → RulePlan
normalise r = record {
  direction = normal r.direction;
  protocol = normal r.protocol;
  from_port = r.from_port;
  to_port = r.to_port;
  cidrs = r.cidrs;
  source_sg = trim_space r.source_sg;
  external_source_sg_id = trim_space r.external_source_sg_id;
  source_prefix_list = trim_space r.source_prefix_list;
  resolved_prefix_cidrs = [];
}

-- The switch over the provider; others have no resource type.
unfoldable pub resource_type : Runes → Runes
resource_type p =
    if text_eq p aws
    then codes "aws_security_group"
    else if text_eq p gcp
    then codes "google_compute_firewall"
    else if text_eq p digitalocean
    then codes "digitalocean_firewall"
    else if text_eq p azure
    then codes "azurerm_network_security_group"
    else if text_eq p linode
    then codes "linode_firewall"
    else if text_eq p ubicloud
    then codes "ubicloud_firewall"
    else if text_eq p oracle
    then codes "oci_core_network_security_group"
    else if text_eq p ibm
    then codes "ibm_is_security_group"
    else if text_eq p alibaba
    then codes "alicloud_security_group"
    else if text_eq p stackit
    then codes "stackit_security_group"
    else []

abbrev or_else : Runes → Runes → Runes
or_else s t = if is_empty s then t else s

-- A provider other than AWS gets the CIDRs inlined.
unfoldable pub inline : Runes → RulePlan → List Runes → RulePlan
inline provider rp cidrs =
    if text_eq provider aws then rp else record rp { resolved_prefix_cidrs = sort leb_runes cidrs }

unfoldable pub sg_plan : SecurityGroupSpec → RegionRow → List RulePlan → SecurityGroupPlan
sg_plan spec row rules = record {
  provider = to_lower spec.provider;
  csp = row.csp;
  region_name = row.region_name;
  csp_region = row.csp_region;
  sg_name = or_else spec.name (codes "pyxcloud-sg");
  network_name = spec.network;
  description = or_else (ascii_only spec.description) (codes "Managed by PyxCloud");
  rules = rules;
  resource_type = resource_type (to_lower spec.provider);
  droplet_tags = spec.droplet_tags;
}

abbrev pub region_row : Option RegionRow → Result Fault RegionRow
region_row none = err region_not_found
region_row (some row) = ok row

module _ (parses : Runes → Bool) where
  -- The CIDRs of a prefix list, each of which has to parse.
  unfoldable pub list_cidrs : Runes → List PrefixEntry → Result Fault (List Runes)
  list_cidrs name [] = ok []
  list_cidrs name (e ∷ es) =
      let rest = list_cidrs name es in
      do
        guard (parses (trim_space e.cidr)) (bad_list_cidr name e.cidr)
        cs ← rest
        ok (trim_space e.cidr ∷ cs)

  unfoldable pub resolve_list : Runes → RulePlan → Option (List PrefixEntry) → Result Fault RulePlan
  resolve_list provider rp none = err (empty_list rp.source_prefix_list)
  resolve_list provider rp (some []) = err (empty_list rp.source_prefix_list)
  resolve_list provider rp (some (e ∷ es)) = do
    cidrs ← list_cidrs rp.source_prefix_list (e ∷ es)
    ok (inline provider rp cidrs)

  module _ (provider : Runes) (lists : List (Runes × List PrefixEntry)) where
    unfoldable pub plan_rule : SecurityRule → Result Fault RulePlan
    plan_rule r =
        let rp = normalise r in
        if is_empty rp.source_prefix_list
        then ok rp
        else resolve_list provider rp (lookup_runes rp.source_prefix_list lists)

    -- The loop over the explicit rules.
    unfoldable pub plan_rules : List SecurityRule → Result Fault (List RulePlan)
    plan_rules [] = ok []
    plan_rules (r ∷ rs) = let rest = plan_rules rs in do rp ← plan_rule r; rps ← rest; ok (rp ∷ rps)

  -- TranslateSecurityGroup
  unfoldable pub translate_security_group :
      RegionCatalog → SecurityGroupSpec → Result Fault SecurityGroupPlan
  translate_security_group resolve spec = do
    validate_sg_spec parses spec
    row ← region_row (resolve spec.region spec.provider)
    explicit ← plan_rules (normal spec.provider) spec.prefix_lists spec.rules
    let rules = map expose_rule (sort leb_ℤ spec.expose) ++ explicit
    enforce_provider_capabilities spec.provider rules
    enforce_rule_limits spec.provider rules
    ok (sg_plan spec row rules)
