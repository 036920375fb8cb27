-- ===== src/Catalog/Environment/Locked.antt =====
-- The security group of an environment under the baseline (internal/catalog/assemble.go,
-- securitybaseline.go and securitygroup.go).
use terraform_provider_pyxcl.Prelude.{
  ◌≡◌, refl, Bool, true, false, ◌⊎◌, inl, inr, some, List, [], ◌∷◌, All, append_nil, any, is_some,
  arith,
}
use terraform_provider_pyxcl.Prelude.Int.{ℤ, pos}
use terraform_provider_pyxcl.Prelude.Results.{ok}
use terraform_provider_pyxcl.GoLang.Sort.{sort, insert, ltb_runes}
use terraform_provider_pyxcl.GoLang.Text.{Runes, codes, to_lower, trim_space, has_prefix}
use terraform_provider_pyxcl.Catalog.Environment.{AssembleInput, security_group_spec}
use terraform_provider_pyxcl.Catalog.Environment.Baseline.{
  egress_dns, egress_https, egress_ntp, baseline_egress, is_compute, derive_security_baseline,
}
use terraform_provider_pyxcl.Catalog.Environment.Rules.{environment_rules}
use terraform_provider_pyxcl.Catalog.Names.{
  normal, provider_to_csp, RegionRow, RegionCatalog, is_empty,
}
use terraform_provider_pyxcl.Catalog.SecurityGroup.Types.{
  egress, tcp, udp, SecurityGroupSpec, RulePlan, SecurityGroupPlan,
}
use terraform_provider_pyxcl.Catalog.SecurityGroup.Checks.{
  check_cidrs, check_ports, validate_rule, check_rules, check_expose, validate_sg_spec,
}
use terraform_provider_pyxcl.Catalog.SecurityGroup.Limits.{
  count, limit_of, check_limit, enforce_provider_capabilities, enforce_rule_limits,
}
use terraform_provider_pyxcl.Catalog.SecurityGroup.Translate.{
  normalise, plan_rule, plan_rules, sg_plan, translate_security_group,
}

-- A rule that lets traffic out to one of the three ports.
abbrev pub IsLeastEgress : RulePlan → Type 0
IsLeastEgress r =
    (r.direction ≡ egress)
    × (r.from_port ≡ r.to_port)
    × ((r.from_port ≡ egress_dns) ⊎ (r.from_port ≡ egress_https) ⊎ (r.from_port ≡ egress_ntp))

abbrev locked_rule : Runes → ℤ → RulePlan
locked_rule protocol port = record {
  direction = egress;
  protocol = protocol;
  from_port = port;
  to_port = port;
  cidrs = codes "0.0.0.0/0" ∷ codes "::/0" ∷ [];
  source_sg = [];
  external_source_sg_id = [];
  source_prefix_list = [];
  resolved_prefix_cidrs = [];
}

-- The baseline's rules, as a plan has them.
abbrev locked_rules : List RulePlan
locked_rules =
    locked_rule tcp (pos 53)
    ∷ locked_rule tcp (pos 443)
    ∷ locked_rule udp (pos 53)
    ∷ locked_rule udp (pos 123)
    ∷ []

locked_rules-IsLeastEgress : All IsLeastEgress locked_rules
locked_rules-IsLeastEgress = (
  (refl, refl, inl refl),
  ((refl, refl, inr (inl refl)), ((refl, refl, inl refl), ((refl, refl, inr (inr refl)), tt))),
)

module _ (parses : Runes → Bool) where
  check_baseline :
      parses (codes "0.0.0.0/0") ≡ true
      → parses (codes "::/0") ≡ true
      → check_rules parses [] 0 baseline_egress ≡ ok tt
  unfolding baseline_egress sort insert ltb_runes check_rules validate_rule check_cidrs check_ports
      normal trim_space to_lower has_prefix
  check_baseline h k = rw (h, k) refl

  plan_baseline :
      (provider : Runes) → plan_rules parses provider [] baseline_egress ≡ ok locked_rules
  unfolding baseline_egress sort insert ltb_runes plan_rules plan_rule normalise normal trim_space
      to_lower
  plan_baseline provider = refl

capable : (provider : Runes) → enforce_provider_capabilities provider locked_rules ≡ ok tt
unfolding enforce_provider_capabilities trim_space
capable provider = ground arith

within : (provider : Runes) → enforce_rule_limits provider locked_rules ≡ ok tt
unfolding enforce_rule_limits check_limit limit_of count
within provider = ground arith

-- A spec of the baseline's rules alone, in a region of a known provider.
record IsLockedSpec (spec : SecurityGroupSpec) : Type 0 where
  region : is_empty (trim_space spec.region) ≡ false
  provider : is_empty (trim_space spec.provider) ≡ false
  known : is_some (provider_to_csp spec.provider) ≡ true
  expose : spec.expose ≡ []
  rules : spec.rules ≡ baseline_egress
  lists : spec.prefix_lists ≡ []

-- What the translator relies on of net.ParseCIDR.
pub record ParsesAnywhere (parses : Runes → Bool) : Type 0 where
  pub v4 : parses (codes "0.0.0.0/0") ≡ true
  pub v6 : parses (codes "::/0") ≡ true

some_rule : is_empty baseline_egress ≡ false
unfolding baseline_egress sort insert ltb_runes
some_rule = refl

validate-locked :
    (parses : Runes → Bool) (spec : SecurityGroupSpec)
    → ParsesAnywhere parses
    → IsLockedSpec spec
    → validate_sg_spec parses spec ≡ ok tt
unfolding validate_sg_spec check_expose
validate-locked parses spec p s =
    rw (s.region, s.provider, s.known, s.expose, s.rules, s.lists, some_rule)
      (check_baseline parses p.v4 p.v6)

translate-locked :
    (parses : Runes → Bool) (resolve : RegionCatalog) (spec : SecurityGroupSpec) (row : RegionRow)
    → ParsesAnywhere parses
    → IsLockedSpec spec
    → resolve spec.region spec.provider ≡ some row
    → translate_security_group parses resolve spec ≡ ok (sg_plan spec row locked_rules)
unfolding translate_security_group sort
translate-locked parses resolve spec row p s found =
    rw
      (
        validate-locked parses spec p s,
        found,
        s.lists,
        s.rules,
        s.expose,
        plan_baseline parses (normal spec.provider),
        capable spec.provider,
        within spec.provider,
      )
      refl

module _ {VmRest Rest : Type 0} where
  -- An environment of known provider, with machines that the baseline covers and nothing that the author
  -- opens.
  pub record IsClosed (env : AssembleInput VmRest Rest) : Type 0 where
    pub region : is_empty (trim_space env.region) ≡ false
    pub provider : is_empty (trim_space env.provider) ≡ false
    pub known : is_some (provider_to_csp env.provider) ≡ true
    pub baseline : env.apply_security_baseline ≡ true
    pub compute : any (is_compute env.provider) env.components ≡ true
    pub expose : env.expose ≡ []
    pub ingress : env.ingress_rules ≡ []

module _ {VmRest Rest : Type 0} (tag_of : VmRest → Runes) (set_tag : VmRest → Runes → VmRest) where
  security_group_spec-IsLockedSpec :
      (env : AssembleInput VmRest Rest)
      → IsClosed env
      → IsLockedSpec (security_group_spec tag_of set_tag env)
  unfolding security_group_spec environment_rules derive_security_baseline
  security_group_spec-IsLockedSpec env c = record {
    region = c.region;
    provider = c.provider;
    known = c.known;
    expose = c.expose;
    rules = rw (c.baseline, c.compute, c.ingress, some_rule) (append_nil baseline_egress);
    lists = refl;
  }

  -- On every known provider: where the baseline is on, some component runs on a machine that it covers and
  -- the author opens nothing, the environment's security group is translated, so it breaks no rule or limit
  -- of the provider, and each of its rules lets traffic out on one of the ports of DNS, HTTPS and NTP.
  pub security_group_spec-IsLeastEgress :
      (env : AssembleInput VmRest Rest) (parses : Runes → Bool) (resolve : RegionCatalog)
      (row : RegionRow)
      → IsClosed env
      → ParsesAnywhere parses
      → resolve env.region env.provider ≡ some row
      → (plan : SecurityGroupPlan) × (translate_security_group parses resolve
            (security_group_spec tag_of set_tag env)
          ≡ ok plan)
        × All IsLeastEgress plan.rules
  unfolding sg_plan security_group_spec
  security_group_spec-IsLeastEgress env parses resolve row c p found =
      let spec = security_group_spec tag_of set_tag env in
      (
        sg_plan spec row locked_rules,
        translate-locked parses resolve spec row p (security_group_spec-IsLockedSpec env c) found,
        locked_rules-IsLeastEgress,
      )
