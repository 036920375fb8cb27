-- ===== src/Catalog/SecurityGroup/Valid.antt =====
-- What an explicit rule satisfies once validateSGSpec has passed (internal/catalog/securitygroup.go).
use terraform_provider_pyxcl.Prelude.{ℕ, ◌+◌, ◌≡◌, Bool, true, List, [], ◌∷◌, All, arith}
use terraform_provider_pyxcl.Prelude.Int.{ℤ, pos, ◌≤ℤ◌}
use terraform_provider_pyxcl.Prelude.Results.{ok}
use terraform_provider_pyxcl.GoLang.Text.{Runes, trim_space}
use terraform_provider_pyxcl.Catalog.Names.{normal}
use terraform_provider_pyxcl.Catalog.SecurityGroup.Types.{
  SecurityRule, SecurityGroupSpec, PrefixEntry,
}
use terraform_provider_pyxcl.Catalog.SecurityGroup.Checks.{
  is_direction, is_protocol, has_ports, scopes, check_ports, validate_rule, check_rules,
  check_expose, validate_sg_spec,
}

abbrev pub HasRange : ℤ → ℤ → Type 0
HasRange from to = (pos 0 ≤ℤ from) × (from ≤ℤ to) × (to ≤ℤ pos 65535)

pub record IsValid (r : SecurityRule) : Type 0 where
  pub direction : is_direction (normal r.direction) ≡ true
  pub protocol : is_protocol (normal r.protocol) ≡ true
  pub one_scope :
      scopes r.cidrs
        (trim_space r.source_sg)
        (trim_space r.external_source_sg_id)
        (trim_space r.source_prefix_list)
      ≡ 1
  pub ports : has_ports (normal r.protocol) ≡ true → HasRange r.from_port r.to_port

module _ (parses : Runes → Bool) where
  check_ports-HasRange :
      (i : ℕ) (r : SecurityRule) → check_ports parses i r ≡ ok tt → HasRange r.from_port r.to_port
  unfolding check_ports
  check_ports-HasRange i r h = ground arith

  validate_rule-IsValid : (i : ℕ) (r : SecurityRule) → validate_rule parses i r ≡ ok tt → IsValid r
  unfolding validate_rule
  validate_rule-IsValid i r h = ground (arith, check_ports-HasRange i r)

  check_rules-IsValid :
      (lists : List (Runes × List PrefixEntry)) (i : ℕ) (rs : List SecurityRule)
      → check_rules parses lists i rs ≡ ok tt
      → All IsValid rs
  unfolding check_rules
  check_rules-IsValid lists i [] h = tt
  check_rules-IsValid lists i (r ∷ rs) h =
      ground (arith, validate_rule-IsValid i r, check_rules-IsValid lists (i + 1) rs)

  check_expose-HasRange :
      (ps : List ℤ) → check_expose parses ps ≡ ok tt → All (λ p. HasRange p p) ps
  unfolding check_expose
  check_expose-HasRange [] h = tt
  check_expose-HasRange (p ∷ ps) h = ground (arith, check_expose-HasRange ps)

  pub validate_sg_spec-IsValid :
      (spec : SecurityGroupSpec)
      → validate_sg_spec parses spec ≡ ok tt
      → All (λ p. HasRange p p) spec.expose × All IsValid spec.rules
  unfolding validate_sg_spec
  validate_sg_spec-IsValid spec h =
      ground (
        arith,
        check_expose-HasRange spec.expose,
        check_rules-IsValid spec.prefix_lists 0 spec.rules,
      )
