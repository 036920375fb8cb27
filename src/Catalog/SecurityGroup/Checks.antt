-- ===== src/Catalog/SecurityGroup/Checks.antt =====
-- validateSGSpec and validateRule of internal/catalog/securitygroup.go.
use terraform_provider_pyxcl.Prelude.{
  ℕ, ◌+◌, Bool, true, false, not, ◌&&◌, ◌||◌, List, [], ◌∷◌, ◌==◌, if◌then◌else◌, is_some,
}
use terraform_provider_pyxcl.Prelude.Int.{ℤ, pos, ltb_ℤ}
use terraform_provider_pyxcl.Prelude.Results.{Result, ok, ◌>>◌, guard}
use terraform_provider_pyxcl.GoLang.Text.{Runes, codes, text_eq, has_prefix, trim_space}
use terraform_provider_pyxcl.GoLang.Map.{lookup_runes}
use terraform_provider_pyxcl.Catalog.Names.{normal, provider_to_csp, is_empty}
use terraform_provider_pyxcl.Catalog.SecurityGroup.Types.{
  tcp, udp, icmp, any_protocol, ingress, egress, SecurityRule, SecurityGroupSpec, PrefixEntry,
  Fault, no_region, no_provider, unknown_provider, nothing_declared, bad_expose, bad_direction,
  bad_protocol, bad_scopes, bad_external_id, bad_cidr, bad_ports, reversed_ports, undefined_list,
}

abbrev pub is_direction : Runes → Bool
is_direction dir = text_eq dir ingress || text_eq dir egress

abbrev pub is_protocol : Runes → Bool
is_protocol proto =
    text_eq proto tcp || text_eq proto udp || text_eq proto icmp || text_eq proto any_protocol

abbrev pub has_ports : Runes → Bool
has_ports proto = text_eq proto tcp || text_eq proto udp

-- 0 <= p <= 65535
abbrev pub is_port : ℤ → Bool
is_port p = not (ltb_ℤ p (pos 0) || ltb_ℤ (pos 65535) p)

abbrev pub one_if : Bool → ℕ
one_if true = 1
one_if false = 0

-- How many of the four scopes of a rule are set.
abbrev pub scopes : List Runes → Runes → Runes → Runes → ℕ
scopes cidrs source_sg external_id prefix_list =
    one_if (not (is_empty cidrs))
    + one_if (not (is_empty source_sg))
    + one_if (not (is_empty external_id))
    + one_if (not (is_empty prefix_list))

-- `parses c` says that net.ParseCIDR(c) gives no error.
module _ (parses : Runes → Bool) where
  unfoldable pub check_cidrs : ℕ → List Runes → Result Fault (Unit {0})
  check_cidrs i [] = ok tt
  check_cidrs i (c ∷ cs) = let rest = check_cidrs i cs in guard (parses c) (bad_cidr i c) >> rest

  unfoldable pub check_ports : ℕ → SecurityRule → Result Fault (Unit {0})
  check_ports i r =
      guard (is_port r.from_port && is_port r.to_port) (bad_ports i)
      >> guard (not (ltb_ℤ r.to_port r.from_port)) (reversed_ports i)

  -- validateRule
  unfoldable pub validate_rule : ℕ → SecurityRule → Result Fault (Unit {0})
  validate_rule i r = do
    guard (is_direction (normal r.direction)) (bad_direction i)
    let proto = normal r.protocol
    guard (is_protocol proto) (bad_protocol i)
    let external_id = trim_space r.external_source_sg_id
    guard
        (scopes r.cidrs (trim_space r.source_sg) external_id (trim_space r.source_prefix_list) == 1)
        (bad_scopes i)
    guard (is_empty external_id || has_prefix external_id (codes "sg-")) (bad_external_id i)
    check_cidrs i r.cidrs
    if has_ports proto then check_ports i r else ok tt

  abbrev pub is_defined : List (Runes × List PrefixEntry) → Runes → Bool
  is_defined lists name = is_empty name || is_some (lookup_runes name lists)

  -- The loop over the rules; a prefix list that a rule names is defined.
  unfoldable pub check_rules :
      List (Runes × List PrefixEntry) → ℕ → List SecurityRule → Result Fault (Unit {0})
  check_rules lists i [] = ok tt
  check_rules lists i (r ∷ rs) =
      let rest = check_rules lists (i + 1) rs in
      do
        validate_rule i r
        let name = trim_space r.source_prefix_list
        guard (is_defined lists name) (undefined_list i name)
        rest

  unfoldable pub check_expose : List ℤ → Result Fault (Unit {0})
  check_expose [] = ok tt
  check_expose (p ∷ ps) =
      let rest = check_expose ps in
      guard (not (ltb_ℤ p (pos 1) || ltb_ℤ (pos 65535) p)) (bad_expose p) >> rest

  -- validateSGSpec
  unfoldable pub validate_sg_spec : SecurityGroupSpec → Result Fault (Unit {0})
  validate_sg_spec spec = do
    guard (not (is_empty (trim_space spec.region))) no_region
    guard (not (is_empty (trim_space spec.provider))) no_provider
    guard (is_some (provider_to_csp spec.provider)) unknown_provider
    guard (not (is_empty spec.expose && is_empty spec.rules)) nothing_declared
    check_expose spec.expose
    check_rules spec.prefix_lists 0 spec.rules
