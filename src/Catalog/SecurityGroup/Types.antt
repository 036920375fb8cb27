-- ===== src/Catalog/SecurityGroup/Types.antt =====
-- The data of internal/catalog/securitygroup.go and PrefixEntry of internal/catalog/prefixlist.go.
use terraform_provider_pyxcl.Prelude.{ℕ, List}
use terraform_provider_pyxcl.Prelude.Int.{ℤ}
use terraform_provider_pyxcl.GoLang.Text.{Runes, codes}

abbrev pub tcp : Runes
tcp = codes "tcp"

abbrev pub udp : Runes
udp = codes "udp"

abbrev pub icmp : Runes
icmp = codes "icmp"

abbrev pub any_protocol : Runes
any_protocol = codes "all"

abbrev pub ingress : Runes
ingress = codes "ingress"

abbrev pub egress : Runes
egress = codes "egress"

pub record PrefixEntry : Type 0 where
  pub cidr : Runes
  pub description : Runes

pub record SecurityRule : Type 0 where
  pub direction : Runes
  pub protocol : Runes
  pub from_port : ℤ
  pub to_port : ℤ
  pub cidrs : List Runes
  pub source_sg : Runes
  pub external_source_sg_id : Runes
  pub source_prefix_list : Runes

pub record SecurityGroupSpec : Type 0 where
  pub name : Runes
  pub network : Runes
  pub region : Runes
  pub provider : Runes
  pub description : Runes
  pub expose : List ℤ
  pub rules : List SecurityRule
  pub prefix_lists : List (Runes × List PrefixEntry)
  pub droplet_tags : List Runes

pub record RulePlan : Type 0 where
  pub direction : Runes
  pub protocol : Runes
  pub from_port : ℤ
  pub to_port : ℤ
  pub cidrs : List Runes
  pub source_sg : Runes
  pub external_source_sg_id : Runes
  pub source_prefix_list : Runes
  pub resolved_prefix_cidrs : List Runes

pub record SecurityGroupPlan : Type 0 where
  pub provider : Runes
  pub csp : Runes
  pub region_name : Runes
  pub csp_region : Runes
  pub sg_name : Runes
  pub network_name : Runes
  pub description : Runes
  pub rules : List RulePlan
  pub resource_type : Runes
  pub droplet_tags : List Runes

-- What TranslateSecurityGroup complains of; a number is the rule's index.
pub data Fault : Type 0 where
  no_region : Fault
  no_provider : Fault
  unknown_provider : Fault
  nothing_declared : Fault
  bad_expose : ℤ → Fault
  bad_direction : ℕ → Fault
  bad_protocol : ℕ → Fault
  bad_scopes : ℕ → Fault
  bad_external_id : ℕ → Fault
  bad_cidr : ℕ → Runes → Fault
  bad_ports : ℕ → Fault
  reversed_ports : ℕ → Fault
  undefined_list : ℕ → Runes → Fault
  region_not_found : Fault
  empty_list : Runes → Fault
  bad_list_cidr : Runes → Runes → Fault
  external_id_unsupported : Fault
  all_unsupported : Fault
  too_many_ingress : ℕ → Fault
  too_many_egress : ℕ → Fault
  too_many_rules : ℕ → Fault
