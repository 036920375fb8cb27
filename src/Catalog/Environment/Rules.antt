-- ===== src/Catalog/Environment/Rules.antt =====
-- The rules of an environment's security group (internal/catalog/assemble.go).
use terraform_provider_pyxcl.Prelude.{◌||◌, List, [], ◌∷◌, ◌++◌, if◌then◌else◌}
use terraform_provider_pyxcl.Prelude.Int.{pos}
use terraform_provider_pyxcl.GoLang.Text.{Runes, text_eq, to_lower}
use terraform_provider_pyxcl.Catalog.Environment.Baseline.{egress_rule}
use terraform_provider_pyxcl.Catalog.Names.{digitalocean, linode, stackit, is_empty}
use terraform_provider_pyxcl.Catalog.SecurityGroup.Types.{
  tcp, udp, icmp, any_protocol, SecurityRule,
}

-- Everything may go out: by protocol on the providers without the protocol "all".
unfoldable pub default_egress : Runes → List SecurityRule
default_egress p =
    if text_eq p digitalocean || text_eq p linode || text_eq p stackit
    then egress_rule tcp (pos 1) (pos 65535)
      ∷ egress_rule udp (pos 1) (pos 65535)
      ∷ egress_rule icmp (pos 0) (pos 0)
      ∷ []
    else egress_rule any_protocol (pos 0) (pos 0) ∷ []

-- The baseline's rules in place of the default ones, if it has any, and then the author's.
unfoldable pub environment_rules : Runes → List SecurityRule → List SecurityRule → List SecurityRule
environment_rules provider baseline ingress =
    (if is_empty baseline then default_egress (to_lower provider) else baseline) ++ ingress
