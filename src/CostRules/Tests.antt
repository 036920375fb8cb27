-- ===== src/CostRules/Tests.antt =====
-- An instance of the theorem on the billing scan.
use mathlib.Core.List.Permᴰ.{swap}
use terraform_provider_pyxcl.Prelude.{ℕ, ◌≡◌, refl, [], ◌∷◌, map}
use terraform_provider_pyxcl.Prelude.Int.{pos}
use terraform_provider_pyxcl.GoLang.Exact.{exact}
use terraform_provider_pyxcl.CostRules.{Signal, Pass, default_rules}
use terraform_provider_pyxcl.CostRules.Billing.{Input, scan_costs}
use terraform_provider_pyxcl.CostRules.Fired.{firing_ids, no_ids, scan_costs-firing_ids}

abbrev bill : Input exact
bill = record {
  current = ("ec2", pos 9000) ∷ ("rds", pos 4000) ∷ [];
  baseline = ("rds", pos 1000) ∷ [];
}

abbrev backwards : ℕ → Pass exact
backwards n = record {
  cost_order = ("rds", pos 4000) ∷ ("ec2", pos 9000) ∷ [];
  baseline_order = ("rds", pos 1000) ∷ [];
  now = n;
}

scan_costs-firing_ids_example :
    let result = scan_costs (default_rules exact) bill backwards 7 in
    (map (λ (s : Signal exact). s.rule_id) result.signals
      ≡ firing_ids exact 0 backwards bill.current bill.baseline (default_rules exact))
    × (result.ok
        ≡ no_ids (firing_ids exact 0 backwards bill.current bill.baseline (default_rules exact)))
scan_costs-firing_ids_example =
    scan_costs-firing_ids exact (default_rules exact) bill backwards 7 (λ n. swap refl refl)
