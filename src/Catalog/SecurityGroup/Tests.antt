-- ===== src/Catalog/SecurityGroup/Tests.antt =====
-- A translation of a security group, and instances of the theorems on it.
use terraform_provider_pyxcl.Prelude.{◌≡◌, refl, Bool, not, some, [], ◌∷◌}
use terraform_provider_pyxcl.Prelude.Int.{ℤ, pos}
use terraform_provider_pyxcl.Prelude.Results.{ok}
use terraform_provider_pyxcl.GoLang.Sort.{sort, insert, leb_runes}
use terraform_provider_pyxcl.GoLang.Text.{Runes, codes, to_lower, trim_space, has_prefix}
use terraform_provider_pyxcl.Catalog.Names.{
  normal, provider_to_csp, RegionRow, RegionCatalog, is_empty,
}
use terraform_provider_pyxcl.Catalog.SecurityGroup.Types.{
  SecurityGroupSpec, RulePlan, SecurityGroupPlan,
}
use terraform_provider_pyxcl.Catalog.SecurityGroup.Checks.{
  check_cidrs, check_ports, validate_rule, check_rules, check_expose, validate_sg_spec,
}
use terraform_provider_pyxcl.Catalog.SecurityGroup.Limits.{
  enforce_provider_capabilities, enforce_rule_limits, count,
}
use terraform_provider_pyxcl.Catalog.SecurityGroup.Translate.{
  ascii_only, expose_rule, normalise, resource_type, list_cidrs, inline, resolve_list, plan_rule,
  plan_rules, sg_plan, translate_security_group,
}
use terraform_provider_pyxcl.Catalog.SecurityGroup.Admitted.{
  IsAdmitted, translate_security_group-IsAdmitted,
}
use terraform_provider_pyxcl.Catalog.SecurityGroup.Rules.{
  IsFaithful, translate_security_group-IsFaithful,
}

abbrev nonempty : Runes → Bool
nonempty s = not (is_empty s)

abbrev dublin : RegionRow
dublin = record {
  macro_region = codes "europe";
  country = codes "Ireland";
  region_name = codes "Dublin";
  csp_region = codes "eu-west-1";
  csp_region_description = [];
  csp = codes "do";
}

abbrev only_dublin : RegionCatalog
only_dublin region provider = some dublin

abbrev web : SecurityGroupSpec
web = record {
  name = codes "web";
  network = codes "prod";
  region = codes "Dublin";
  provider = codes "DigitalOcean";
  description = codes "front";
  expose = pos 443 ∷ pos 80 ∷ [];
  rules =
      record {
        direction = codes " Ingress";
        protocol = codes "TCP";
        from_port = pos 22;
        to_port = pos 22;
        cidrs = [];
        source_sg = [];
        external_source_sg_id = [];
        source_prefix_list = codes "office";
      }
      ∷ [];
  prefix_lists =
      (
        codes "office",
        record { cidr = codes "10.2.0.0/16"; description = [] }
            ∷ record { cidr = codes "10.1.0.0/16 "; description = [] }
            ∷ [],
      )
      ∷ [];
  droplet_tags = [];
}

abbrev office_rule : RulePlan
office_rule = record {
  direction = codes "ingress";
  protocol = codes "tcp";
  from_port = pos 22;
  to_port = pos 22;
  cidrs = [];
  source_sg = [];
  external_source_sg_id = [];
  source_prefix_list = codes "office";
  resolved_prefix_cidrs = codes "10.1.0.0/16" ∷ codes "10.2.0.0/16" ∷ [];
}

abbrev open_port : ℤ → RulePlan
open_port port = record {
  direction = codes "ingress";
  protocol = codes "tcp";
  from_port = port;
  to_port = port;
  cidrs = codes "0.0.0.0/0" ∷ codes "::/0" ∷ [];
  source_sg = [];
  external_source_sg_id = [];
  source_prefix_list = [];
  resolved_prefix_cidrs = [];
}

abbrev web_plan : SecurityGroupPlan
web_plan = record {
  provider = codes "digitalocean";
  csp = codes "do";
  region_name = codes "Dublin";
  csp_region = codes "eu-west-1";
  sg_name = codes "web";
  network_name = codes "prod";
  description = codes "front";
  rules = open_port (pos 80) ∷ open_port (pos 443) ∷ office_rule ∷ [];
  resource_type = codes "digitalocean_firewall";
  droplet_tags = [];
}

web_translated : translate_security_group nonempty only_dublin web ≡ ok web_plan
unfolding translate_security_group validate_sg_spec check_expose check_rules validate_rule
    check_cidrs check_ports provider_to_csp normal trim_space to_lower has_prefix plan_rules
    plan_rule normalise resolve_list list_cidrs inline sort insert leb_runes expose_rule
    enforce_provider_capabilities enforce_rule_limits count sg_plan ascii_only resource_type
web_translated = refl

bare_provider : trim_space web.provider ≡ web.provider
unfolding trim_space
bare_provider = refl

translate_security_group-IsAdmitted_example : IsAdmitted (codes "DigitalOcean") web_plan
translate_security_group-IsAdmitted_example =
    translate_security_group-IsAdmitted nonempty only_dublin web web_plan bare_provider
      web_translated

translate_security_group-IsFaithful_example : IsFaithful nonempty web web_plan
translate_security_group-IsFaithful_example =
    translate_security_group-IsFaithful nonempty only_dublin web web_plan web_translated
