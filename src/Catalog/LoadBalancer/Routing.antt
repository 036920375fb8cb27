-- ===== src/Catalog/LoadBalancer/Routing.antt =====
-- The routing rules of a listener (internal/catalog/loadbalancer.go).
use terraform_provider_pyxcl.Prelude.{
  ℕ, ◌+◌, ◌≡◌, refl, Bool, true, false, not, ◌&&◌, ◌||◌, List, [], ◌∷◌, map, any, all, length, leb,
  arith, inl, inr, In, ap, ◌∙◌,
}
use terraform_provider_pyxcl.Prelude.Int.{ℤ, pos, leb_ℤ, ltb_ℤ, eq_ℤ}
use terraform_provider_pyxcl.Prelude.Results.{Result, ok, is_ok, ◌>>◌, guard}
use terraform_provider_pyxcl.GoLang.Sort.{sort, is_sorted, all-sort, insert-ascends}
use terraform_provider_pyxcl.GoLang.Text.{Runes, trim_space}
use terraform_provider_pyxcl.Catalog.Names.{is_empty}

-- awsListenerConditionValuesMax
abbrev pub values_max : ℕ
values_max = 5

-- LBRoutingRule
pub record LbRoutingRule : Type 0 where
  pub priority : ℤ
  pub host_headers : List Runes
  pub path_patterns : List Runes
  pub admin_vpn_cidrs : List Runes
  pub target_name : Runes

-- LBRoutingRulePlan
pub record LbRoutingRulePlan : Type 0 where
  pub priority : ℤ
  pub host_headers : List Runes
  pub path_patterns : List Runes
  pub admin_vpn_cidrs : List Runes
  pub target_name : Runes

pub data RuleFault : Type 0 where
  no_condition : RuleFault
  bad_priority : RuleFault
  duplicate_priority : RuleFault
  too_many_values : RuleFault

-- Between awsListenerRulePriorityMin and awsListenerRulePriorityMax.
abbrev pub is_priority : ℤ → Bool
is_priority p = leb_ℤ (pos 1) p && leb_ℤ p (pos 50000)

abbrev values : LbRoutingRule → ℕ
values r = length r.host_headers + length r.path_patterns + length r.admin_vpn_cidrs

-- The loop of validateRoutingRules, with the priorities seen so far.
unfoldable pub check_rules : Bool → List ℤ → List LbRoutingRule → Result RuleFault (Unit {0})
check_rules on_aws seen [] = ok tt
check_rules on_aws seen (r ∷ rs) =
    let rest = check_rules on_aws (r.priority ∷ seen) rs in
    guard (not (is_empty r.host_headers && is_empty r.path_patterns)) no_condition
    >> (guard (is_priority r.priority) bad_priority
        >> (guard (not (any (eq_ℤ r.priority) seen)) duplicate_priority
            >> (guard (not on_aws || leb (values r) values_max) too_many_values >> rest)))

-- validateRoutingRules
unfoldable pub validate_routing_rules : Bool → List LbRoutingRule → Result RuleFault (Unit {0})
validate_routing_rules on_aws rules = check_rules on_aws [] rules

unfoldable pub resolve_routing_rule : LbRoutingRule → LbRoutingRulePlan
resolve_routing_rule r = record {
  priority = r.priority;
  host_headers = r.host_headers;
  path_patterns = r.path_patterns;
  admin_vpn_cidrs = r.admin_vpn_cidrs;
  target_name = trim_space r.target_name;
}

abbrev pub by_priority : LbRoutingRulePlan → LbRoutingRulePlan → Bool
by_priority a b = leb_ℤ a.priority b.priority

-- resolveRoutingRules
unfoldable pub resolve_routing_rules : List LbRoutingRule → List LbRoutingRulePlan
resolve_routing_rules rules = sort by_priority (map resolve_routing_rule rules)

-- A rule that matches on something, with a priority in range and, on AWS, at most five values.
abbrev pub is_rule : Bool → LbRoutingRule → Bool
is_rule on_aws r =
    not (is_empty r.host_headers && is_empty r.path_patterns)
    && is_priority r.priority
    && (not on_aws || leb (values r) values_max)

abbrev pub no_duplicates : List ℤ → List LbRoutingRule → Bool
no_duplicates seen [] = true
no_duplicates seen (r ∷ rs) =
    not (any (eq_ℤ r.priority) seen) && no_duplicates (r.priority ∷ seen) rs

check_rules-is_rule :
    (on_aws : Bool) (seen : List ℤ) (rules : List LbRoutingRule)
    → is_ok (check_rules on_aws seen rules)
      ≡ (all (is_rule on_aws) rules && no_duplicates seen rules)
unfolding check_rules
check_rules-is_rule on_aws seen [] = refl
check_rules-is_rule on_aws seen (r ∷ rs) =
    ground (arith, check_rules-is_rule on_aws (r.priority ∷ seen) rs)

pub validate_routing_rules-is_rule :
    (on_aws : Bool) (rules : List LbRoutingRule)
    → is_ok (validate_routing_rules on_aws rules)
      ≡ (all (is_rule on_aws) rules && no_duplicates [] rules)
unfolding validate_routing_rules
validate_routing_rules-is_rule on_aws rules = check_rules-is_rule on_aws [] rules

any-In :
    {A : Type 0} (q : A → Bool) (p : A) (xs : List A) → any q xs ≡ false → In p xs → q p ≡ false
any-In q p [] h k = absurd k
any-In q p (x ∷ xs) h (inl e) = rw e (ground arith)
any-In q p (x ∷ xs) h (inr k) = any-In q p xs (ground arith) k

-- A rule of another priority.
abbrev is_apart : ℤ → LbRoutingRulePlan → Bool
is_apart p r = not (eq_ℤ r.priority p)

no_duplicates-is_apart :
    (p : ℤ) (seen : List ℤ) (rules : List LbRoutingRule)
    → In p seen
    → no_duplicates seen rules ≡ true
    → all (is_apart p) (map resolve_routing_rule rules) ≡ true
unfolding resolve_routing_rule
no_duplicates-is_apart p seen [] k h = refl
no_duplicates-is_apart p seen (r ∷ rs) k h =
    let other = any-In (eq_ℤ r.priority) p seen (ground arith) k in
    let rest = no_duplicates-is_apart p (r.priority ∷ seen) rs (inr k) (ground arith) in
    ground arith

-- Each priority is less than the next.
abbrev pub is_before : LbRoutingRulePlan → LbRoutingRulePlan → Bool
is_before a b = ltb_ℤ a.priority b.priority

below_is_before :
    (a b : LbRoutingRulePlan)
    → by_priority a b ≡ true
    → is_apart a.priority b ≡ true
    → is_before a b ≡ true
below_is_before a b h k = ground arith

above_is_before : (a b : LbRoutingRulePlan) → by_priority a b ≡ false → is_before b a ≡ true
above_is_before a b h = ground arith

pub resolve_routing_rules-is_before :
    (seen : List ℤ) (rules : List LbRoutingRule)
    → no_duplicates seen rules ≡ true
    → is_sorted is_before (resolve_routing_rules rules) ≡ true
unfolding resolve_routing_rules sort resolve_routing_rule
resolve_routing_rules-is_before seen [] h = refl
resolve_routing_rules-is_before seen (r ∷ rs) h =
    insert-ascends by_priority is_before (λ a b. is_apart a.priority b) below_is_before
      above_is_before (resolve_routing_rule r) (resolve_routing_rules rs)
      (all-sort by_priority (is_apart r.priority) (map resolve_routing_rule rs)
        ∙ no_duplicates-is_apart r.priority (r.priority ∷ seen) rs (inl refl) (ground arith))
      (resolve_routing_rules-is_before (r.priority ∷ seen) rs (ground arith))

-- A rule of a plan that matches on something, with a priority in range and, on AWS, at most five values.
abbrev pub is_rule_plan : Bool → LbRoutingRulePlan → Bool
is_rule_plan on_aws r =
    not (is_empty r.host_headers && is_empty r.path_patterns)
    && is_priority r.priority
    && (not on_aws
        || leb (length r.host_headers + length r.path_patterns + length r.admin_vpn_cidrs)
            values_max)

all-resolve_routing_rule :
    (on_aws : Bool) (rules : List LbRoutingRule)
    → all (is_rule_plan on_aws) (map resolve_routing_rule rules) ≡ all (is_rule on_aws) rules
unfolding resolve_routing_rule
all-resolve_routing_rule on_aws [] = refl
all-resolve_routing_rule on_aws (r ∷ rs) =
    ap (λ b. is_rule on_aws r && b) (all-resolve_routing_rule on_aws rs)

pub resolve_routing_rules-is_rule :
    (on_aws : Bool) (rules : List LbRoutingRule)
    → all (is_rule_plan on_aws) (resolve_routing_rules rules) ≡ all (is_rule on_aws) rules
unfolding resolve_routing_rules
resolve_routing_rules-is_rule on_aws rules =
    all-sort by_priority (is_rule_plan on_aws) (map resolve_routing_rule rules)
    ∙ all-resolve_routing_rule on_aws rules
