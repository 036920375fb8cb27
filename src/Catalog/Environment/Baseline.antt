-- ===== src/Catalog/Environment/Baseline.antt =====
-- internal/catalog/securitybaseline.go: the secure defaults of an environment.
use terraform_provider_pyxcl.Prelude.{
  Bool, false, not, ◌&&◌, ◌||◌, Option, none, some, List, [], ◌∷◌, any, if◌then◌else◌,
}
use terraform_provider_pyxcl.Prelude.Int.{ℤ, pos, leb_ℤ}
use terraform_provider_pyxcl.GoLang.Sort.{sort, ltb_runes}
use terraform_provider_pyxcl.GoLang.Text.{Runes, codes, text_eq}
use terraform_provider_pyxcl.Catalog.Hosts.{AssembleComponent}
use terraform_provider_pyxcl.Catalog.Mitigation.{mitigatable, natively_supported}
use terraform_provider_pyxcl.Catalog.Names.{normal}
use terraform_provider_pyxcl.Catalog.SecurityGroup.Types.{tcp, udp, egress, SecurityRule}

-- baselineEgressDNS
abbrev pub egress_dns : ℤ
egress_dns = pos 53

-- baselineEgressHTTPS
abbrev pub egress_https : ℤ
egress_https = pos 443

-- baselineEgressNTP
abbrev pub egress_ntp : ℤ
egress_ntp = pos 123

-- SecurityBaseline
pub record SecurityBaseline : Type 0 where
  pub egress_rules : List SecurityRule
  pub secrets_force_destroy : Option Bool

abbrev pub anywhere : List Runes
anywhere = codes "0.0.0.0/0" ∷ codes "::/0" ∷ []

-- A rule that lets traffic out to everywhere.
abbrev pub egress_rule : Runes → ℤ → ℤ → SecurityRule
egress_rule protocol from to = record {
  direction = egress;
  protocol = protocol;
  from_port = from;
  to_port = to;
  cidrs = anywhere;
  source_sg = [];
  external_source_sg_id = [];
  source_prefix_list = [];
}

abbrev is_earlier : SecurityRule → SecurityRule → Bool
is_earlier a b =
    if text_eq a.protocol b.protocol
    then leb_ℤ a.from_port b.from_port
    else ltb_runes a.protocol b.protocol

-- baselineEgress
unfoldable pub baseline_egress : List SecurityRule
baseline_egress = sort is_earlier (
    egress_rule udp egress_dns egress_dns
    ∷ egress_rule tcp egress_dns egress_dns
    ∷ egress_rule tcp egress_https egress_https
    ∷ egress_rule udp egress_ntp egress_ntp
    ∷ [])

-- CanonicalSecretsType, whether it knows the type
unfoldable pub is_secrets_type : Runes → Bool
is_secrets_type t = text_eq (normal t) (codes "secrets-manager")

module _ {VmRest Rest : Type 0} where
  -- The components that the derivation takes for compute.
  abbrev pub is_compute : Runes → AssembleComponent VmRest Rest → Bool
  is_compute provider c =
      text_eq c.component_type (codes "virtual-machine")
      || text_eq c.component_type (codes "virtual-machine-scale-group")
      || mitigatable c.component_type && not (natively_supported c.component_type provider)

  -- DeriveSecurityBaseline
  unfoldable pub derive_security_baseline :
      Runes → List (AssembleComponent VmRest Rest) → SecurityBaseline
  derive_security_baseline provider components = record {
    egress_rules = if any (is_compute provider) components then baseline_egress else [];
    secrets_force_destroy =
        if any (λ c. is_secrets_type c.component_type) components then some false else none;
  }
