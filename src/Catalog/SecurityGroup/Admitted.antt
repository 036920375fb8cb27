-- ===== src/Catalog/SecurityGroup/Admitted.antt =====
-- The plan of a security group against its provider and its spec (internal/catalog/securitygroup.go).
use mathlib.Core.Path.{subst}
use terraform_provider_pyxcl.Prelude.{
  ◌≡◌, refl, Bool, true, false, not, ◌&&◌, ◌||◌, List, ◌++◌, map, All, All-append, any, length, leb,
  leb_iff, arith,
}
use terraform_provider_pyxcl.Prelude.Int.{leb_ℤ}
use terraform_provider_pyxcl.Prelude.Results.{
  ok, OnOk, OnOk-bind, OnOk-guard, OnOk-guard_last, OnOk-bind_eq, OnOk_apply,
}
use terraform_provider_pyxcl.GoLang.Sort.{sort}
use terraform_provider_pyxcl.GoLang.Text.{Runes, text_eq, to_lower, trim_space}
use terraform_provider_pyxcl.Catalog.Names.{aws, normal, RegionRow, RegionCatalog}
use terraform_provider_pyxcl.Catalog.SecurityGroup.Types.{
  SecurityGroupSpec, RulePlan, SecurityGroupPlan,
}
use terraform_provider_pyxcl.Catalog.SecurityGroup.Checks.{validate_sg_spec}
use terraform_provider_pyxcl.Catalog.SecurityGroup.Limits.{
  has_external_id, is_any_protocol, names_protocols, is_ingress, is_egress, count, Limit, each,
  total, unlimited, limit_of, check_limit, enforce_provider_capabilities, enforce_rule_limits,
}
use terraform_provider_pyxcl.Catalog.SecurityGroup.Translate.{
  expose_rule, plan_rules, sg_plan, region_row, translate_security_group,
}
use terraform_provider_pyxcl.Catalog.SecurityGroup.Valid.{
  HasRange, IsValid, validate_sg_spec-IsValid,
}
use terraform_provider_pyxcl.Catalog.SecurityGroup.Sound.{
  IsSound, Obeys, sort-All, map_expose-IsSound, plan_rules-IsSound,
}

-- What the provider can be given.
pub record IsCapable (p : Runes) (rules : List RulePlan) : Type 0 where
  pub external_ids : text_eq p aws ≡ false → any has_external_id rules ≡ false
  pub protocols : names_protocols p ≡ true → any is_any_protocol rules ≡ false

pub record IsAdmitted (provider : Runes) (plan : SecurityGroupPlan) : Type 0 where
  pub rules : All (IsSound (normal provider)) plan.rules
  pub capable : IsCapable (normal provider) plan.rules
  pub limit : Obeys (limit_of (normal provider)) plan.rules

check_limit-Obeys :
    (l : Limit) (rules : List RulePlan) → OnOk (λ _. Obeys l rules) (check_limit l rules)
unfolding check_limit
check_limit-Obeys (each n) rules =
    OnOk-guard (λ _. Obeys (each n) rules) (leb (count is_ingress rules) n) _ _
      (λ i.
        OnOk-guard_last (λ _. Obeys (each n) rules) (leb (count is_egress rules) n) _
          (λ e. ((leb_iff _ n).0 i, (leb_iff _ n).0 e)))
check_limit-Obeys (total n) rules =
    OnOk-guard_last (λ _. Obeys (total n) rules) (leb (length rules) n) _ (λ h. (leb_iff _ n).0 h)
check_limit-Obeys unlimited rules = tt

module _ (provider : Runes) (rules : List RulePlan) where
  abbrev may_refer : Bool
  may_refer = text_eq (to_lower provider) aws || not (any has_external_id rules)

  abbrev may_admit_all : Bool
  may_admit_all = not (names_protocols (to_lower provider) && any is_any_protocol rules)

  tests-IsCapable : may_refer ≡ true → may_admit_all ≡ true → IsCapable (to_lower provider) rules
  tests-IsCapable i e = ground arith

  capabilities-IsCapable :
      OnOk (λ _. IsCapable (to_lower provider) rules) (enforce_provider_capabilities provider rules)
  unfolding enforce_provider_capabilities
  capabilities-IsCapable =
      OnOk-guard (λ _. IsCapable (to_lower provider) rules) may_refer _ _
        (λ i.
          OnOk-guard_last (λ _. IsCapable (to_lower provider) rules) may_admit_all _
            (λ e. tests-IsCapable i e))

module _ (parses : Runes → Bool) (resolve : RegionCatalog) (spec : SecurityGroupSpec) where
  abbrev pub planned : List RulePlan → List RulePlan
  planned explicit = map expose_rule (sort leb_ℤ spec.expose) ++ explicit

  -- What is known of a plan where the translation returns it.
  pub translate-ends :
      (Q : SecurityGroupPlan → Type 0)
      → ((row : RegionRow) (explicit : List RulePlan)
          → All (λ p. HasRange p p) spec.expose × All IsValid spec.rules
          → plan_rules parses (normal spec.provider) spec.prefix_lists spec.rules ≡ ok explicit
          → IsCapable (to_lower spec.provider) (planned explicit)
          → Obeys (limit_of (to_lower spec.provider)) (planned explicit)
          → Q (sg_plan spec row (planned explicit)))
      → OnOk Q (translate_security_group parses resolve spec)
  unfolding translate_security_group enforce_rule_limits
  translate-ends Q k = OnOk-bind_eq Q (validate_sg_spec parses spec) _ λ _ valid.
      OnOk-bind_eq Q (region_row (resolve spec.region spec.provider)) _ λ row _.
        OnOk-bind_eq Q (plan_rules parses (normal spec.provider) spec.prefix_lists spec.rules) _
          λ explicit e.
            OnOk-bind (λ _. IsCapable (to_lower spec.provider) (planned explicit)) Q
              (enforce_provider_capabilities spec.provider (planned explicit)) _
              (capabilities-IsCapable spec.provider (planned explicit))
              λ _ capable.
                OnOk-bind (λ _. Obeys (limit_of (to_lower spec.provider)) (planned explicit)) Q
                  (check_limit (limit_of (to_lower spec.provider)) (planned explicit)) _
                  (check_limit-Obeys _ (planned explicit))
                  (λ _ obeys.
                    k row explicit (validate_sg_spec-IsValid parses spec valid) e capable obeys)

normal-to_lower : (s : Runes) → trim_space s ≡ s → to_lower s ≡ normal s
unfolding normal
normal-to_lower s h = rw h refl

-- For a provider without white space around its name, every plan of a security group is one that the
-- provider can be given: each rule has a canonical direction and protocol, exactly one scope and, for tcp
-- and udp, an ordered range of ports; a prefix list is inlined, never to nothing, except on AWS;
-- security-group ids occur on AWS alone, and the protocol "all" does not on a provider without it; and the
-- provider's limit on rules, if it has one, is kept.
pub translate_security_group-IsAdmitted :
    (parses : Runes → Bool) (resolve : RegionCatalog) (spec : SecurityGroupSpec)
    (plan : SecurityGroupPlan)
    → trim_space spec.provider ≡ spec.provider
    → translate_security_group parses resolve spec ≡ ok plan
    → IsAdmitted spec.provider plan
unfolding sg_plan
translate_security_group-IsAdmitted parses resolve spec plan bare h =
    let same = normal-to_lower spec.provider bare in
    OnOk_apply (IsAdmitted spec.provider) _ plan
      (translate-ends parses resolve spec (IsAdmitted spec.provider)
        λ row explicit (ports, rules) e capable obeys. record {
          rules =
              All-append (IsSound (normal spec.provider)) _ explicit
                (map_expose-IsSound _ _ (sort-All _ spec.expose ports))
                (OnOk_apply _ _ explicit (plan_rules-IsSound parses _ _ spec.rules rules) e);
          capable = subst (λ p. IsCapable p (planned parses resolve spec explicit)) same capable;
          limit = subst (λ p. Obeys (limit_of p) (planned parses resolve spec explicit)) same obeys;
        })
      h
