-- ===== src/Catalog/SecurityGroup/Sound.antt =====
-- What every security-group plan satisfies (internal/catalog/securitygroup.go).
use terraform_provider_pyxcl.Prelude.{
  ◌≡◌, refl, ◌≤◌, Bool, true, false, ◌||◌, Option, none, some, List, [], ◌∷◌, map, All, length,
  arith, Bool-cases, inl, inr,
}
use terraform_provider_pyxcl.Prelude.Int.{ℤ, leb_ℤ}
use terraform_provider_pyxcl.Prelude.Results.{OnOk, OnOk-bind, OnOk-guard, OnOk-trivial}
use terraform_provider_pyxcl.GoLang.Sort.{sort, insert, leb_runes}
use terraform_provider_pyxcl.GoLang.Text.{Runes, text_eq, trim_space}
use terraform_provider_pyxcl.Catalog.Names.{aws, is_empty}
use terraform_provider_pyxcl.Catalog.SecurityGroup.Types.{PrefixEntry, SecurityRule, RulePlan}
use terraform_provider_pyxcl.Catalog.SecurityGroup.Checks.{
  is_direction, is_protocol, has_ports, scopes,
}
use terraform_provider_pyxcl.Catalog.SecurityGroup.Limits.{
  is_ingress, is_egress, count, Limit, each, total, unlimited,
}
use terraform_provider_pyxcl.Catalog.SecurityGroup.Translate.{
  expose_rule, normalise, list_cidrs, inline, resolve_list, plan_rule, plan_rules,
}
use terraform_provider_pyxcl.Catalog.SecurityGroup.Valid.{HasRange, IsValid}

-- A rule that a provider can be given: the directions and protocols are canonical, exactly one scope is
-- set, ports are a range, and a prefix list is inlined except on AWS, where it is referred to.
pub record IsSound (provider : Runes) (r : RulePlan) : Type 0 where
  pub direction : is_direction r.direction ≡ true
  pub protocol : is_protocol r.protocol ≡ true
  pub one_scope : scopes r.cidrs r.source_sg r.external_source_sg_id r.source_prefix_list ≡ 1
  pub ports : has_ports r.protocol ≡ true → HasRange r.from_port r.to_port
  pub inlined :
      is_empty r.resolved_prefix_cidrs ≡ (is_empty r.source_prefix_list || text_eq provider aws)

-- The rules stay within a limit.
abbrev pub Obeys : Limit → List RulePlan → Type 0
Obeys (each n) rules = (count is_ingress rules ≤ n) × (count is_egress rules ≤ n)
Obeys (total n) rules = length rules ≤ n
Obeys unlimited rules = Unit

expose_rule-IsSound : (provider : Runes) (p : ℤ) → HasRange p p → IsSound provider (expose_rule p)
unfolding expose_rule
expose_rule-IsSound provider p h = record {
  direction = refl;
  protocol = refl;
  one_scope = refl;
  ports = λ _. h;
  inlined = refl;
}

pub map_expose-IsSound :
    (provider : Runes) (ps : List ℤ)
    → All (λ p. HasRange p p) ps
    → All (IsSound provider) (map expose_rule ps)
map_expose-IsSound provider [] h = tt
map_expose-IsSound provider (p ∷ ps) h =
    (expose_rule-IsSound provider p h.0, map_expose-IsSound provider ps h.1)

insert-All : (P : ℤ → Type 0) (p : ℤ) (ps : List ℤ) → P p → All P ps → All P (insert leb_ℤ p ps)
unfolding insert
insert-All P p [] h k = (h, tt)
insert-All P p (q ∷ qs) h k = elim (Bool-cases (leb_ℤ p q)) [
  | inl e ↦ rw e (h, k)
  | inr e ↦ rw e (k.0, insert-All P p qs h k.1)
]

pub sort-All : (P : ℤ → Type 0) (ps : List ℤ) → All P ps → All P (sort leb_ℤ ps)
unfolding sort
sort-All P [] h = tt
sort-All P (p ∷ ps) h = insert-All P p (sort leb_ℤ ps) h.0 (sort-All P ps h.1)

insert_nonempty : (a : Runes) (as' : List Runes) → is_empty (insert leb_runes a as') ≡ false
unfolding insert
insert_nonempty a [] = refl
insert_nonempty a (b ∷ bs) = ground arith

module _ (parses : Runes → Bool) (provider : Runes) where
  -- A rule that is valid and gets the CIDRs of its prefix list, if any, inlined.
  inline-IsSound :
      (r : SecurityRule) (c : Runes) (cs : List Runes)
      → IsValid r
      → is_empty (trim_space r.source_prefix_list) ≡ false
      → IsSound provider (inline provider (normalise r) (c ∷ cs))
  unfolding inline normalise sort
  inline-IsSound r c cs v named = ground (arith, insert_nonempty c (sort leb_runes cs))

  normalise-IsSound :
      (r : SecurityRule)
      → IsValid r
      → is_empty (trim_space r.source_prefix_list) ≡ true
      → IsSound provider (normalise r)
  unfolding normalise
  normalise-IsSound r v unnamed = ground arith

  list_cidrs_nonempty :
      (name : Runes) (e : PrefixEntry) (es : List PrefixEntry)
      → OnOk
          (λ cs. (c : Runes) × (ds : List Runes) × (cs ≡ c ∷ ds))
          (list_cidrs parses name (e ∷ es))
  unfolding list_cidrs
  list_cidrs_nonempty name e es = OnOk-guard _ (parses (trim_space e.cidr)) _ _ (λ _.
      OnOk-bind (λ _. Unit {0}) _ (list_cidrs parses name es) _ (OnOk-trivial _)
        (λ cs _. (trim_space e.cidr, cs, refl)))

  resolve_list-IsSound :
      (r : SecurityRule) (o : Option (List PrefixEntry))
      → IsValid r
      → is_empty (trim_space r.source_prefix_list) ≡ false
      → OnOk (IsSound provider) (resolve_list parses provider (normalise r) o)
  unfolding resolve_list
  resolve_list-IsSound r none v named = tt
  resolve_list-IsSound r (some []) v named = tt
  resolve_list-IsSound r (some (e ∷ es)) v named =
      OnOk-bind _ _ (list_cidrs parses _ (e ∷ es)) _ (list_cidrs_nonempty _ e es)
        (λ cs (c, ds, split). rw split (inline-IsSound r c ds v named))

  plan_rule-IsSound :
      (lists : List (Runes × List PrefixEntry)) (r : SecurityRule)
      → IsValid r
      → OnOk (IsSound provider) (plan_rule parses provider lists r)
  unfolding plan_rule normalise
  plan_rule-IsSound lists r v = elim (Bool-cases (is_empty (trim_space r.source_prefix_list))) [
    | inl unnamed ↦ rw unnamed (normalise-IsSound r v unnamed)
    | inr named ↦ rw named (resolve_list-IsSound r _ v named)
  ]

  pub plan_rules-IsSound :
      (lists : List (Runes × List PrefixEntry)) (rs : List SecurityRule)
      → All IsValid rs
      → OnOk (All (IsSound provider)) (plan_rules parses provider lists rs)
  unfolding plan_rules
  plan_rules-IsSound lists [] v = tt
  plan_rules-IsSound lists (r ∷ rs) v =
      OnOk-bind _ _ (plan_rule parses provider lists r) _ (plan_rule-IsSound lists r v.0) (λ rp s.
        OnOk-bind _ _ (plan_rules parses provider lists rs) _ (plan_rules-IsSound lists rs v.1)
          (λ rps ss. (s, ss)))
