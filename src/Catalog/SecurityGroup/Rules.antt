-- ===== src/Catalog/SecurityGroup/Rules.antt =====
-- The rules of a security-group plan against those of its spec (internal/catalog/securitygroup.go).
use mathlib.Core.List.{Perm}
use terraform_provider_pyxcl.Prelude.{
  ◌≡◌, refl, sym, ap, Bool, true, ◌⊎◌, false, Option, none, some, List, [], ◌∷◌, ◌++◌, map, all,
  All₂, Bool-cases, inl, inr,
}
use terraform_provider_pyxcl.Prelude.Int.{ℤ, leb_ℤ}
use terraform_provider_pyxcl.Prelude.Results.{ok, OnOk, OnOk-bind, OnOk-guard, OnOk_apply}
use terraform_provider_pyxcl.GoLang.Map.{lookup_runes}
use terraform_provider_pyxcl.GoLang.Sort.{
  sort, is_sorted, sort-perm, sort-is_sorted, leb_ℤ_total, leb_runes, leb_runes_total,
}
use terraform_provider_pyxcl.GoLang.Text.{Runes, codes, text_eq, text_eq_iff, trim_space, to_lower}
use terraform_provider_pyxcl.Catalog.Names.{aws, normal, RegionCatalog, is_empty}
use terraform_provider_pyxcl.Catalog.SecurityGroup.Types.{
  PrefixEntry, SecurityRule, SecurityGroupSpec, RulePlan, SecurityGroupPlan, bad_list_cidr,
}
use terraform_provider_pyxcl.Catalog.SecurityGroup.Translate.{
  expose_rule, normalise, list_cidrs, inline, resolve_list, plan_rule, plan_rules, sg_plan,
  translate_security_group,
}
use terraform_provider_pyxcl.Catalog.SecurityGroup.Admitted.{translate-ends}

-- A rule that opens a TCP port to everyone, over IPv4 and IPv6.
pub record IsOpenPort (port : ℤ) (rp : RulePlan) : Type 0 where
  pub direction : rp.direction ≡ codes "ingress"
  pub protocol : rp.protocol ≡ codes "tcp"
  pub from_same : rp.from_port ≡ port
  pub to_same : rp.to_port ≡ port
  pub anyone : rp.cidrs ≡ codes "0.0.0.0/0" ∷ codes "::/0" ∷ []
  pub no_sg : rp.source_sg ≡ []
  pub no_external : rp.external_source_sg_id ≡ []
  pub no_list : rp.source_prefix_list ≡ []
  pub no_cidrs : rp.resolved_prefix_cidrs ≡ []

abbrev pub cidr_of : PrefixEntry → Runes
cidr_of e = trim_space e.cidr

-- The CIDRs of the prefix list that a rule names are inlined by ascending order, each of which parses. On
-- AWS, and for a rule that names none, there are none.
abbrev pub IsInlined :
    (Runes → Bool) → Runes → List (Runes × List PrefixEntry) → Runes → List Runes → Type 0
IsInlined parses provider lists name cidrs =
    (cidrs ≡ []) × ((name ≡ []) ⊎ (provider ≡ aws))
    ⊎ (text_eq provider aws ≡ false)
      × ((es : List PrefixEntry) × ((lookup_runes name lists ≡ some es)
            × (Perm cidrs (map cidr_of es)
                × ((is_sorted leb_runes cidrs ≡ true)
                    × (all (λ e. parses (cidr_of e)) es ≡ true)))))

-- A planned rule against the rule of the spec.
pub record Keeps (parses : Runes → Bool) (provider : Runes)
    (lists : List (Runes × List PrefixEntry)) (r : SecurityRule) (rp : RulePlan) : Type 0 where
  pub direction : rp.direction ≡ to_lower (trim_space r.direction)
  pub protocol : rp.protocol ≡ to_lower (trim_space r.protocol)
  pub from_same : rp.from_port ≡ r.from_port
  pub to_same : rp.to_port ≡ r.to_port
  pub cidrs : rp.cidrs ≡ r.cidrs
  pub source : rp.source_sg ≡ trim_space r.source_sg
  pub external : rp.external_source_sg_id ≡ trim_space r.external_source_sg_id
  pub prefix_list : rp.source_prefix_list ≡ trim_space r.source_prefix_list
  pub inlined :
      IsInlined parses provider lists (trim_space r.source_prefix_list) rp.resolved_prefix_cidrs

-- The ports in ascending order, each opened to everyone, and then the spec's rules in its order.
pub record IsFaithful (parses : Runes → Bool) (spec : SecurityGroupSpec) (plan : SecurityGroupPlan)
    : Type 0 where
  pub ports : List ℤ
  pub opened : List RulePlan
  pub explicit : List RulePlan
  pub rules : plan.rules ≡ opened ++ explicit
  pub same_ports : Perm ports spec.expose
  pub ascending : is_sorted leb_ℤ ports ≡ true
  pub opens : All₂ IsOpenPort ports opened
  pub keeps : All₂ (Keeps parses (normal spec.provider) spec.prefix_lists) spec.rules explicit

expose_rule-IsOpenPort : (port : ℤ) → IsOpenPort port (expose_rule port)
unfolding expose_rule
expose_rule-IsOpenPort port = record {
  direction = refl;
  protocol = refl;
  from_same = refl;
  to_same = refl;
  anyone = refl;
  no_sg = refl;
  no_external = refl;
  no_list = refl;
  no_cidrs = refl;
}

map-IsOpenPort : (ports : List ℤ) → All₂ IsOpenPort ports (map expose_rule ports)
map-IsOpenPort [] = tt
map-IsOpenPort (p ∷ ps) = (expose_rule-IsOpenPort p, map-IsOpenPort ps)

module _ (parses : Runes → Bool) (provider : Runes) (lists : List (Runes × List PrefixEntry)) where
  normalise-Keeps :
      (r : SecurityRule) (resolved : List Runes)
      → IsInlined parses provider lists (trim_space r.source_prefix_list) resolved
      → Keeps parses provider lists r (record (normalise r) { resolved_prefix_cidrs = resolved })
  unfolding normalise normal
  normalise-Keeps r resolved h = record {
    direction = refl;
    protocol = refl;
    from_same = refl;
    to_same = refl;
    cidrs = refl;
    source = refl;
    external = refl;
    prefix_list = refl;
    inlined = h;
  }

  -- All entries of a list parse, and give its CIDRs.
  abbrev AreCidrs : List PrefixEntry → List Runes → Type 0
  AreCidrs es cs = (cs ≡ map cidr_of es) × (all (λ e. parses (cidr_of e)) es ≡ true)

  list_cidrs-AreCidrs :
      (name : Runes) (es : List PrefixEntry) → OnOk (AreCidrs es) (list_cidrs parses name es)
  unfolding list_cidrs
  list_cidrs-AreCidrs name [] = (refl, refl)
  list_cidrs-AreCidrs name (e ∷ es) =
      OnOk-guard _ (parses (trim_space e.cidr)) (bad_list_cidr name e.cidr) _ (λ h.
        OnOk-bind (AreCidrs es) _ (list_cidrs parses name es) _ (list_cidrs-AreCidrs name es)
          (λ cs (same, k). (ap (λ rest. trim_space e.cidr ∷ rest) same, rw (h, k) refl)))

  inline-Keeps :
      (r : SecurityRule) (es : List PrefixEntry) (cs : List Runes)
      → lookup_runes (trim_space r.source_prefix_list) lists ≡ some es
      → AreCidrs es cs
      → Keeps parses provider lists r (inline provider (normalise r) cs)
  unfolding inline normalise
  inline-Keeps r es cs found (same, k) = elim (Bool-cases (text_eq provider aws)) [
    | inl e ↦ rw e (normalise-Keeps r [] (inl (refl, inr ((text_eq_iff provider aws).0 e))))
    | inr e ↦ rw e (
        normalise-Keeps r (sort leb_runes cs) (
          inr (
            e,
            (
              es,
              (
                found,
                (
                  rw (sym same) (sort-perm leb_runes cs),
                  (sort-is_sorted leb_runes leb_runes_total cs, k),
                ),
              ),
            ),
          )))
  ]

  resolve_list-Keeps :
      (r : SecurityRule) (o : Option (List PrefixEntry))
      → lookup_runes (trim_space r.source_prefix_list) lists ≡ o
      → OnOk (Keeps parses provider lists r) (resolve_list parses provider (normalise r) o)
  unfolding resolve_list
  resolve_list-Keeps r none found = tt
  resolve_list-Keeps r (some []) found = tt
  resolve_list-Keeps r (some (e ∷ es)) found =
      OnOk-bind (AreCidrs (e ∷ es)) (Keeps parses provider lists r) (list_cidrs parses _ (e ∷ es)) _
        (list_cidrs-AreCidrs _ (e ∷ es)) (λ cs h. inline-Keeps r (e ∷ es) cs found h)

  no_name : (s : Runes) → is_empty s ≡ true → s ≡ []
  no_name [] h = refl
  no_name (c ∷ s) h = cc

  plan_rule-Keeps :
      (r : SecurityRule) → OnOk (Keeps parses provider lists r) (plan_rule parses provider lists r)
  unfolding plan_rule normalise
  plan_rule-Keeps r =
      let name = trim_space r.source_prefix_list in
      elim (Bool-cases (is_empty name)) [
        | inl e ↦ rw e (normalise-Keeps r [] (inl (refl, inl (no_name name e))))
        | inr e ↦ rw e (resolve_list-Keeps r (lookup_runes name lists) refl)
      ]

  plan_rules-Keeps :
      (rs : List SecurityRule)
      → OnOk (All₂ (Keeps parses provider lists) rs) (plan_rules parses provider lists rs)
  unfolding plan_rules
  plan_rules-Keeps [] = tt
  plan_rules-Keeps (r ∷ rs) =
      OnOk-bind (Keeps parses provider lists r) _ (plan_rule parses provider lists r) _
        (plan_rule-Keeps r)
        (λ rp k.
          OnOk-bind (All₂ (Keeps parses provider lists) rs) _ (plan_rules parses provider lists rs)
            _ (plan_rules-Keeps rs) (λ rps ks. (k, ks)))

-- A plan has exactly the rules that its spec asks for: one for each exposed port, by ascending ports, which
-- lets everyone in on that TCP port over IPv4 and IPv6, and then each explicit rule, in the spec's order,
-- with its ports and CIDRs and its other texts trimmed, direction and protocol in lower case. A rule that
-- names a prefix list gets, except on AWS, the CIDRs of that list, in ascending order, all of which parse.
pub translate_security_group-IsFaithful :
    (parses : Runes → Bool) (resolve : RegionCatalog) (spec : SecurityGroupSpec)
    (plan : SecurityGroupPlan)
    → translate_security_group parses resolve spec ≡ ok plan
    → IsFaithful parses spec plan
unfolding sg_plan
translate_security_group-IsFaithful parses resolve spec plan h =
    OnOk_apply (IsFaithful parses spec) _ plan
      (translate-ends parses resolve spec (IsFaithful parses spec) λ row explicit _ e _ _. record {
        ports = sort leb_ℤ spec.expose;
        opened = map expose_rule (sort leb_ℤ spec.expose);
        explicit = explicit;
        rules = refl;
        same_ports = sort-perm leb_ℤ spec.expose;
        ascending = sort-is_sorted leb_ℤ leb_ℤ_total spec.expose;
        opens = map-IsOpenPort (sort leb_ℤ spec.expose);
        keeps =
            OnOk_apply _ _ explicit
              (plan_rules-Keeps parses (normal spec.provider) spec.prefix_lists spec.rules) e;
      })
      h
