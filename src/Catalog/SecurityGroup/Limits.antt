-- ===== src/Catalog/SecurityGroup/Limits.antt =====
-- enforceProviderCapabilities and enforceRuleLimits of internal/catalog/securitygroup.go.
use terraform_provider_pyxcl.Prelude.{
  ℕ, suc, Bool, not, ◌&&◌, ◌||◌, List, [], ◌∷◌, length, any, leb, if◌then◌else◌,
}
use terraform_provider_pyxcl.Prelude.Results.{Result, ok, ◌>>◌, guard}
use terraform_provider_pyxcl.GoLang.Text.{Runes, text_eq, to_lower, trim_space}
use terraform_provider_pyxcl.Catalog.Names.{
  aws, gcp, digitalocean, azure, linode, ibm, alibaba, stackit, is_empty,
}
use terraform_provider_pyxcl.Catalog.SecurityGroup.Types.{
  any_protocol, egress, RulePlan, Fault, external_id_unsupported, all_unsupported, too_many_ingress,
  too_many_egress, too_many_rules,
}

abbrev pub has_external_id : RulePlan → Bool
has_external_id r = not (is_empty (trim_space r.external_source_sg_id))

abbrev pub is_any_protocol : RulePlan → Bool
is_any_protocol r = text_eq r.protocol any_protocol

-- Providers whose firewalls have no "all" protocol.
abbrev pub names_protocols : Runes → Bool
names_protocols p = text_eq p digitalocean || text_eq p linode || text_eq p stackit

-- enforceProviderCapabilities
unfoldable pub enforce_provider_capabilities : Runes → List RulePlan → Result Fault (Unit {0})
enforce_provider_capabilities provider rules =
    let p = to_lower provider in
    guard (text_eq p aws || not (any has_external_id rules)) external_id_unsupported
    >> guard (not (names_protocols p && any is_any_protocol rules)) all_unsupported

abbrev pub is_egress : RulePlan → Bool
is_egress r = text_eq r.direction egress

-- How many rules satisfy a test.
unfoldable pub count : (RulePlan → Bool) → List RulePlan → ℕ
count p [] = 0
count p (r ∷ rs) = if p r then suc (count p rs) else count p rs

abbrev pub is_ingress : RulePlan → Bool
is_ingress r = not (is_egress r)

-- A cap on each direction, on all rules, or none.
pub data Limit : Type 0 where
  each : ℕ → Limit
  total : ℕ → Limit
  unlimited : Limit

-- The cases of the switch, by the provider in lower case.
unfoldable pub limit_of : Runes → Limit
limit_of p =
    if text_eq p aws
    then each 60
    else if text_eq p gcp
    then total 100
    else if text_eq p digitalocean
    then each 50
    else if text_eq p azure
    then total 900
    else if text_eq p linode
    then each 25
    else if text_eq p ibm
    then each 100
    else if text_eq p alibaba
    then each 200
    else if text_eq p stackit
    then each 50
    else unlimited

unfoldable pub check_limit : Limit → List RulePlan → Result Fault (Unit {0})
check_limit (each n) rules =
    guard (leb (count is_ingress rules) n) (too_many_ingress (count is_ingress rules))
    >> guard (leb (count is_egress rules) n) (too_many_egress (count is_egress rules))
check_limit (total n) rules = guard (leb (length rules) n) (too_many_rules (length rules))
check_limit unlimited rules = ok tt

-- enforceRuleLimits
unfoldable pub enforce_rule_limits : Runes → List RulePlan → Result Fault (Unit {0})
unfolding check_limit limit_of
enforce_rule_limits provider rules = check_limit (limit_of (to_lower provider)) rules
