-- ===== src/CostRules/Billing.antt =====
-- The two loops over a list of rules: Detector (internal/costsignalrule/detector.go) and Scanner
-- (pkg/billingscan/scanner.go).
use terraform_provider_pyxcl.Prelude.{
  ℕ, suc, String, Bool, true, false, Option, none, some, List, [], ◌∷◌, ◌++◌, length,
}
use terraform_provider_pyxcl.GoLang.Float.{Float64}
use terraform_provider_pyxcl.CostRules.{Rule, Signal, Pass, evaluate}

-- Input
pub record Input (F : Float64) : Type 0 where
  pub current : List (String × F.Num)
  pub baseline : List (String × F.Num)

-- Result
pub record Result (F : Float64) : Type 0 where
  pub signals : List (Signal F)
  pub ok : Bool
  pub scanned_at : ℕ

abbrev pub no_signals : {F : Float64} → List (Signal F) → Bool
no_signals [] = true
no_signals (s ∷ ss) = false

module _ {F : Float64} where
  unfoldable pub collect : Option (Signal F) → List (Signal F) → List (Signal F)
  collect none ss = ss
  collect (some s) ss = s ∷ ss

  -- The loops' body, with the pass of each call of Evaluate: `pass n` is that of the n-th rule.
  unfoldable pub signals_from :
      ℕ → List (Rule F) → List (String × F.Num) → (ℕ → Pass F) → List (Signal F)
  signals_from n [] baseline pass = []
  signals_from n (r ∷ rs) baseline pass =
      collect (evaluate r baseline (pass n)) (signals_from (suc n) rs baseline pass)

  -- EvaluateAll
  unfoldable pub evaluate_all : List (Rule F) → Input F → (ℕ → Pass F) → List (Signal F)
  evaluate_all rules input pass = signals_from 0 rules input.baseline pass

  -- AddRule and RuleCount
  unfoldable pub add_rule : List (Rule F) → Rule F → List (Rule F)
  add_rule rules r = rules ++ (r ∷ [])

  abbrev pub rule_count : List (Rule F) → ℕ
  rule_count rules = length rules

  -- Scan
  unfoldable pub scan_costs : List (Rule F) → Input F → (ℕ → Pass F) → ℕ → Result F
  scan_costs rules input pass now =
      let signals = signals_from 0 rules input.baseline pass in
      record { signals = signals; ok = no_signals signals; scanned_at = now }
