-- ===== src/CostRules/Fired.antt =====
-- Which cost rules fire (internal/costsignalrule/rule.go, pkg/billingscan/scanner.go), described
-- apart from the loops. Sums are in the order in which Go visits a map; nothing else depends on it.
use mathlib.Core.List.{Permᴰ}
use mathlib.Core.List.Permᴰ.{nil, cons, swap, trans}
use terraform_provider_pyxcl.Prelude.{
  ℕ, suc, String, ◌≡◌, refl, sym, ◌∙◌, ap, Bool, true, false, ◌&&◌, Option, none, some, List, [],
  ◌∷◌, map, any, arith, if◌then◌else◌, Bool-cases, ◌||◌, inl, inr,
}
use terraform_provider_pyxcl.GoLang.Float.{Float64}
use terraform_provider_pyxcl.CostRules.{
  RuleType, budget_overrun, cost_spike, resource_cost_anomaly, other, Rule, Signal, Pass, lookup,
  sum, deviates, signal_of, first_anomaly, evaluate_budget, evaluate_spike, evaluate_type, evaluate,
}
use terraform_provider_pyxcl.CostRules.Billing.{
  Input, no_signals, collect, signals_from, scan_costs,
}

any-perm {ℓ} : {A : Type ℓ} (p : A → Bool) {xs ys : List A} → Permᴰ xs ys → any p xs ≡ any p ys
any-perm p nil = refl
any-perm p (cons e d) = rw (e, any-perm p d)
any-perm p (swap e f) = rw (e, f) (ground arith)
any-perm p (trans d d') = any-perm p d ∙ any-perm p d'

module _ (F : Float64) where
  -- 100 (now - was) / was
  abbrev pub change : F.Num → F.Num → F.Num
  change now was = F.mul (F.div (F.sub now was) was) (F.lit 100)

  abbrev is_off_from : F.Num → F.Num → Option F.Num → Bool
  is_off_from threshold now none = false
  is_off_from threshold now (some was) =
      if F.lt (F.lit 0) was
      then F.lt threshold (change now was) || F.lt (change now was) (F.neg threshold)
      else false

  -- The cost of a resource that had one before is off by more than the threshold, in percent, above or
  -- below.
  abbrev pub is_off : F.Num → List (String × F.Num) → String × F.Num → Bool
  is_off threshold baseline e = is_off_from threshold e.1 (lookup e.0 baseline)

  -- Whether a rule of this type fires, where the sums are added in the order of a pass.
  abbrev pub fires_type :
      Pass F → List (String × F.Num) → List (String × F.Num) → RuleType → F.Num → Bool
  fires_type p current baseline budget_overrun threshold = F.lt threshold (sum F p.cost_order)
  fires_type p current baseline cost_spike threshold =
      F.lt (F.lit 0) (sum F p.baseline_order)
      && F.lt threshold (change (sum F p.cost_order) (sum F p.baseline_order))
  fires_type p current baseline resource_cost_anomaly threshold =
      any (is_off threshold baseline) current
  fires_type p current baseline (other t) threshold = false

  abbrev pub fires : Pass F → List (String × F.Num) → List (String × F.Num) → Rule F → Bool
  fires p current baseline r = r.enabled && fires_type p current baseline r.rule_type r.threshold

  -- The ids of the rules that fire, the n-th in the n-th pass.
  abbrev pub firing_ids :
      ℕ → (ℕ → Pass F) → List (String × F.Num) → List (String × F.Num) → List (Rule F) → List String
  firing_ids n pass current baseline [] = []
  firing_ids n pass current baseline (r ∷ rs) =
      let rest = firing_ids (suc n) pass current baseline rs in
      if fires (pass n) current baseline r then r.id ∷ rest else rest

  deviates-is_off_from :
      (threshold now : F.Num) (was : Option F.Num)
      → deviates F threshold now was ≡ is_off_from threshold now was
  unfolding deviates
  deviates-is_off_from threshold now none = refl
  deviates-is_off_from threshold now (some was) = ground arith

abbrev signal_id : {F : Float64} → Option (Signal F) → Option String
signal_id none = none
signal_id (some s) = some s.rule_id

abbrev id_if : Bool → String → Option String
id_if b id = if b then some id else none

guarded :
    {F : Float64} (enabled fired : Bool) (o : Option (Signal F)) (id : String)
    → signal_id o ≡ id_if fired id
    → signal_id (if enabled then o else none) ≡ id_if (enabled && fired) id
guarded true fired o id h = h
guarded false fired o id h = refl

module _ {F : Float64} (r : Rule F) (current baseline : List (String × F.Num)) where
  first_anomaly-fires :
      (now : ℕ) (es : List (String × F.Num))
      → signal_id (first_anomaly r now baseline es)
        ≡ id_if (any (is_off F r.threshold baseline) es) r.id
  unfolding first_anomaly signal_of
  first_anomaly-fires now [] = refl
  first_anomaly-fires now (e ∷ es) =
      let same = deviates-is_off_from F r.threshold e.1 (lookup e.0 baseline) in
      elim (Bool-cases (is_off F r.threshold baseline e)) [
        | inl far ↦ rw (same, far)
        | inr near ↦ rw (same, near) (first_anomaly-fires now es)
      ]

  evaluate_budget-fires :
      (p : Pass F)
      → signal_id (evaluate_budget r p) ≡ id_if (F.lt r.threshold (sum F p.cost_order)) r.id
  unfolding evaluate_budget signal_of
  evaluate_budget-fires p = elim (Bool-cases (F.lt r.threshold (sum F p.cost_order))) [
    | inl e ↦ rw e
    | inr e ↦ rw e
  ]

  evaluate_spike-fires :
      (p : Pass F)
      → signal_id (evaluate_spike r p)
        ≡ id_if (fires_type F p current baseline cost_spike r.threshold) r.id
  unfolding evaluate_spike signal_of
  evaluate_spike-fires p =
      elim (Bool-cases (fires_type F p current baseline cost_spike r.threshold)) [
        | inl e ↦ rw e
        | inr e ↦ rw e
      ]

  module _ (p : Pass F) (costs : Permᴰ p.cost_order current) where
    evaluate_type-fires :
        (t : RuleType)
        → signal_id (evaluate_type t r baseline p)
          ≡ id_if (fires_type F p current baseline t r.threshold) r.id
    unfolding evaluate_type
    evaluate_type-fires budget_overrun = evaluate_budget-fires p
    evaluate_type-fires cost_spike = evaluate_spike-fires p
    evaluate_type-fires resource_cost_anomaly =
        rw (first_anomaly-fires p.now p.cost_order, any-perm (is_off F r.threshold baseline) costs)
    evaluate_type-fires (other t) = refl

    evaluate-fires : signal_id (evaluate r baseline p) ≡ id_if (fires F p current baseline r) r.id
    unfolding evaluate
    evaluate-fires = guarded r.enabled _ _ r.id (evaluate_type-fires r.rule_type)

collect-fires :
    {F : Float64} (o : Option (Signal F)) (ss : List (Signal F)) (id : String) (fired : Bool)
    → signal_id o ≡ id_if fired id
    → map (λ (s : Signal F). s.rule_id) (collect o ss) ≡ (
        if fired
        then id ∷ map (λ (s : Signal F). s.rule_id) ss
        else map (λ (s : Signal F). s.rule_id) ss)
unfolding collect
collect-fires none ss id false h = refl
collect-fires (some s) ss id true h = cc
collect-fires none ss id true h = cc
collect-fires (some s) ss id false h = cc

module _ (F : Float64) (input : Input F) (pass : ℕ → Pass F)
    (costs : (n : ℕ) → Permᴰ (pass n).cost_order input.current) where
  signals_from-fires :
      (n : ℕ) (rules : List (Rule F))
      → map (λ (s : Signal F). s.rule_id) (signals_from n rules input.baseline pass)
        ≡ firing_ids F n pass input.current input.baseline rules
  unfolding signals_from
  signals_from-fires n [] = refl
  signals_from-fires n (r ∷ rs) = rw⁻¹ (signals_from-fires (suc n) rs) (
      collect-fires (evaluate r input.baseline (pass n)) _ r.id _
        (evaluate-fires r input.current input.baseline (pass n) (costs n)))

abbrev pub no_ids : List String → Bool
no_ids [] = true
no_ids (id ∷ ids) = false

no_ids-rule_id :
    {F : Float64} (ss : List (Signal F))
    → no_ids (map (λ (s : Signal F). s.rule_id) ss) ≡ no_signals ss
no_ids-rule_id [] = refl
no_ids-rule_id (s ∷ ss) = refl

-- Whatever the orders in which each pass visits the maps: the scanner reports, in the order of the rules,
-- exactly the enabled ones that fire. A budget fires if the total of the current costs, in floating point
-- and in the order of its pass, exceeds the threshold; a spike, if the baseline's total is positive and
-- the change of the totals in percent exceeds the threshold; an anomaly, in any order, if some resource
-- with a positive baseline is off from it by more than the threshold in percent, above or below. The scan
-- is OK exactly if no rule fires.
pub scan_costs-firing_ids :
    (F : Float64) (rules : List (Rule F)) (input : Input F) (pass : ℕ → Pass F) (now : ℕ)
    (costs : (n : ℕ) → Permᴰ (pass n).cost_order input.current)
    → let result = scan_costs rules input pass now in
      (map (λ (s : Signal F). s.rule_id) result.signals
        ≡ firing_ids F 0 pass input.current input.baseline rules)
      × (result.ok ≡ no_ids (firing_ids F 0 pass input.current input.baseline rules))
unfolding scan_costs
scan_costs-firing_ids F rules input pass now costs =
    let ids = signals_from-fires F input pass costs 0 rules in
    (ids, sym (no_ids-rule_id (signals_from 0 rules input.baseline pass)) ∙ ap no_ids ids)
