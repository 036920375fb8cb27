-- ===== src/CostRules.antt =====
-- internal/costsignalrule/rule.go: rules that detect a cost blowout.
pub mod Billing
pub mod Fired
mod Tests
use text.Mathlib.Text.{◌==◌ as str_eq}
use terraform_provider_pyxcl.Prelude.{
  ℕ, String, Bool, true, false, ◌&&◌, ◌||◌, Option, none, some, List, [], ◌∷◌, if◌then◌else◌,
}
use terraform_provider_pyxcl.Prelude.Int.{ℤ, pos}
use terraform_provider_pyxcl.GoLang.Float.{Float64}

-- CostBlowoutRuleType; a text that is none of the constants matches no case.
pub data RuleType : Type 0 where
  budget_overrun cost_spike resource_cost_anomaly : RuleType
  other : String → RuleType

-- CostBlowoutRule; a duration is its nanoseconds.
pub record Rule (F : Float64) : Type 0 where
  pub id : String
  pub rule_type : RuleType
  pub threshold : F.Num
  pub window : ℤ
  pub enabled : Bool
  pub description : String

-- The `Message` of a signal, as the data that it prints.
pub data Message (F : Float64) : Type 0 where
  total_exceeds : F.Num → F.Num → Message F
  spike : F.Num → F.Num → F.Num → Message F
  anomaly : String → F.Num → F.Num → F.Num → Message F

-- CostBlowoutSignal
pub record Signal (F : Float64) : Type 0 where
  pub rule_id : String
  pub rule_type : RuleType
  pub current_cost : F.Num
  pub threshold : F.Num
  pub window : ℤ
  pub timestamp : ℕ
  pub message : Message F

-- What Go leaves to the run in one call of Evaluate: the orders in which `range` visits the two maps,
-- and the clock.
pub record Pass (F : Float64) : Type 0 where
  pub cost_order : List (String × F.Num)
  pub baseline_order : List (String × F.Num)
  pub now : ℕ

-- v, ok := m[k]
unfoldable pub lookup {ℓ} : {A : Type ℓ} → String → List (String × A) → Option A
lookup k [] = none
lookup k (e ∷ es) = let rest = lookup k es in if str_eq e.0 k then some e.1 else rest

module _ (F : Float64) where
  -- total += v
  unfoldable pub sum_from : F.Num → List (String × F.Num) → F.Num
  sum_from total [] = total
  sum_from total (e ∷ es) = sum_from (F.add total e.1) es

  abbrev pub sum : List (String × F.Num) → F.Num
  sum es = sum_from (F.lit 0) es

  -- ((current - expected) / expected) * 100
  abbrev pub percent_over : F.Num → F.Num → F.Num
  percent_over current expected = F.mul (F.div (F.sub current expected) expected) (F.lit 100)

  -- The conditions under which one resource is reported.
  unfoldable pub deviates : F.Num → F.Num → Option F.Num → Bool
  deviates threshold current none = false
  deviates threshold current (some expected) =
      F.lt (F.lit 0) expected
      && (F.lt threshold (percent_over current expected)
          || F.lt (percent_over current expected) (F.neg threshold))

  abbrev or_zero : Option F.Num → F.Num
  or_zero none = F.lit 0
  or_zero (some x) = x

module _ {F : Float64} where
  unfoldable pub signal_of : Rule F → ℕ → F.Num → Message F → Signal F
  signal_of r now current message = record {
    rule_id = r.id;
    rule_type = r.rule_type;
    current_cost = current;
    threshold = r.threshold;
    window = r.window;
    timestamp = now;
    message = message;
  }

  -- The loop of the anomaly rule; it returns at the first resource that deviates.
  unfoldable pub first_anomaly :
      Rule F → ℕ → List (String × F.Num) → List (String × F.Num) → Option (Signal F)
  first_anomaly r now baseline [] = none
  first_anomaly r now baseline (e ∷ es) =
      let rest = first_anomaly r now baseline es in
      let expected = or_zero F (lookup e.0 baseline) in
      if deviates F r.threshold e.1 (lookup e.0 baseline)
      then some (signal_of r now e.1 (anomaly e.0 (percent_over F e.1 expected) e.1 expected))
      else rest

  unfoldable pub evaluate_budget : Rule F → Pass F → Option (Signal F)
  evaluate_budget r p =
      let total = sum F p.cost_order in
      if F.lt r.threshold total
      then some (signal_of r p.now total (total_exceeds total r.threshold))
      else none

  unfoldable pub evaluate_spike : Rule F → Pass F → Option (Signal F)
  evaluate_spike r p =
      let total = sum F p.cost_order in
      let baseline_total = sum F p.baseline_order in
      let increase = percent_over F total baseline_total in
      if F.lt (F.lit 0) baseline_total && F.lt r.threshold increase
      then some (signal_of r p.now total (spike increase total baseline_total))
      else none

  unfoldable pub evaluate_type :
      RuleType → Rule F → List (String × F.Num) → Pass F → Option (Signal F)
  evaluate_type budget_overrun r baseline p = evaluate_budget r p
  evaluate_type cost_spike r baseline p = evaluate_spike r p
  evaluate_type resource_cost_anomaly r baseline p = first_anomaly r p.now baseline p.cost_order
  evaluate_type (other t) r baseline p = none

  -- Evaluate; `baseline` is the map that is read by key, the pass gives both maps in visiting order.
  unfoldable pub evaluate : Rule F → List (String × F.Num) → Pass F → Option (Signal F)
  evaluate r baseline p = if r.enabled then evaluate_type r.rule_type r baseline p else none

-- The built-in rules.
unfoldable pub default_rules : (F : Float64) → List (Rule F)
default_rules F =
    record {
      id = "budget-overrun-monthly";
      rule_type = budget_overrun;
      threshold = F.lit 10000;
      window = pos 2592000000000000;
      enabled = true;
      description = "Monthly budget overrun alert at $10,000";
    }
    ∷ record {
      id = "cost-spike-24h";
      rule_type = cost_spike;
      threshold = F.lit 50;
      window = pos 86400000000000;
      enabled = true;
      description = "Cost spike >50% in 24 hours";
    }
    ∷ record {
      id = "resource-cost-anomaly";
      rule_type = resource_cost_anomaly;
      threshold = F.lit 30;
      window = pos 604800000000000;
      enabled = true;
      description = "Resource cost anomaly >30% deviation from 7-day baseline";
    }
    ∷ []
