-- ===== src/Catalog/Network/Subnets.antt =====
-- The subnets of a network plan: their CIDRs, names and zones (internal/catalog/network.go).
use mathlib.Core.List.{append_cancel_left}
use mathlib.Core.Option.{some-injective}
use terraform_provider_pyxcl.Prelude.{
  ℕ, zero, suc, ◌+◌, ◌<◌, ◌≡◌, refl, sym, ap, ◌∙◌, ◌↔◌, some, List, [], ◌∷◌, ◌++◌, map, length,
  get_elem?, arith,
}
use terraform_provider_pyxcl.Prelude.Results.{ok, OnOk-bind_eq, OnOk_apply}
use terraform_provider_pyxcl.GoLang.Strconv.{itoa, itoa_injective}
use terraform_provider_pyxcl.GoLang.Text.{Runes, codes, to_lower}
use terraform_provider_pyxcl.Catalog.Names.{RegionRow, RegionCatalog}
use terraform_provider_pyxcl.Catalog.Network.Zones.{at_index, zone_of, derive_zones}
use terraform_provider_pyxcl.Catalog.Network.Spread.{
  spread_of, Coincide, zone_of-Names, zones_if-Coincide,
}
use terraform_provider_pyxcl.Catalog.Network.{
  Net, NetworkSpec, SubnetPlan, NetworkPlan, validate_spec, region_row, network_name, subnet_plans,
  network_plan, translate_network,
}

-- The i-th subnet plan.
record IsNth (name : Runes) (zones : List Runes) (k n i : ℕ) (s : SubnetPlan) : Type 0 where
  within : i < n
  name_eq : s.name ≡ name ++ (codes "-subnet-" ++ itoa (k + i + 1))
  zone_eq : s.zone ≡ at_index zones (k + i)

subnet_plans-IsNth :
    (name : Runes) (zones : List Runes) (k : ℕ) (cidrs : List Runes) (i : ℕ) (s : SubnetPlan)
    → get_elem? (subnet_plans name zones k cidrs) i ≡ some s
    → IsNth name zones k (length cidrs) i s
unfolding subnet_plans
subnet_plans-IsNth name zones k [] i s h = cc
subnet_plans-IsNth name zones k (c ∷ cs) zero s h = rw (sym (some-injective _ s h)) (record {
  within = omega arith;
  name_eq = ap (λ n. name ++ (codes "-subnet-" ++ itoa n)) (omega arith);
  zone_eq = ap (at_index zones) (omega arith);
})
subnet_plans-IsNth name zones k (c ∷ cs) (suc i) s h =
    let nth = subnet_plans-IsNth name zones (suc k) cs i s h in
    record {
      within = omega arith;
      name_eq = nth.name_eq ∙ ap (λ n. name ++ (codes "-subnet-" ++ itoa n)) (omega arith);
      zone_eq = nth.zone_eq ∙ ap (at_index zones) (omega arith);
    }

subnet_plans-cidrs :
    (name : Runes) (zones : List Runes) (k : ℕ) (cidrs : List Runes)
    → map (λ (s : SubnetPlan). s.cidr) (subnet_plans name zones k cidrs) ≡ cidrs
unfolding subnet_plans
subnet_plans-cidrs name zones k [] = refl
subnet_plans-cidrs name zones k (c ∷ cs) =
    ap (λ cs'. c ∷ cs') (subnet_plans-cidrs name zones (suc k) cs)

pub record IsSpread (spec : NetworkSpec) (plan : NetworkPlan) : Type 0 where
  pub cidrs : map (λ (s : SubnetPlan). s.cidr) plan.subnets ≡ spec.subnets
  pub names :
      (i j : ℕ) (s t : SubnetPlan)
      → get_elem? plan.subnets i ≡ some s
      → get_elem? plan.subnets j ≡ some t
      → s.name ≡ t.name
      → i ≡ j
  pub zones :
      (i j : ℕ) (s t : SubnetPlan)
      → get_elem? plan.subnets i ≡ some s
      → get_elem? plan.subnets j ≡ some t
      → (s.zone ≡ t.zone) ↔ Coincide (spread_of plan.provider) i j

network_plan-IsSpread :
    (spec : NetworkSpec) (row : RegionRow) → IsSpread spec (network_plan spec row)
unfolding network_plan derive_zones
network_plan-IsSpread spec row =
    let name = network_name spec in
    let zones = derive_zones (to_lower spec.provider) row.csp_region (length spec.subnets) in
    record {
      cidrs = subnet_plans-cidrs name zones 0 spec.subnets;
      names = λ i j s t h k e.
          let nth = subnet_plans-IsNth name zones 0 spec.subnets i s h in
          let mth = subnet_plans-IsNth name zones 0 spec.subnets j t k in
          let same = itoa_injective (0 + i + 1) (0 + j + 1) (
            append_cancel_left (codes "-subnet-") _ _
              (append_cancel_left name _ _ (sym nth.name_eq ∙ (e ∙ mth.name_eq)))) in
          omega arith;
      zones = λ i j s t h k.
          let nth = subnet_plans-IsNth name zones 0 spec.subnets i s h in
          let mth = subnet_plans-IsNth name zones 0 spec.subnets j t k in
          let s_zone : s.zone ≡ at_index zones i =
            nth.zone_eq ∙ ap (at_index zones) (omega arith) in
          let t_zone : t.zone ≡ at_index zones j =
            mth.zone_eq ∙ ap (at_index zones) (omega arith) in
          let told =
            zones_if-Coincide (zone_of (to_lower spec.provider) row.csp_region)
              (spread_of (to_lower spec.provider)) (length spec.subnets) i j
              (zone_of-Names (to_lower spec.provider) row.csp_region) nth.within mth.within in
          (λ e. told.0 (sym s_zone ∙ (e ∙ t_zone)), λ e. s_zone ∙ (told.1 e ∙ sym t_zone));
    }

-- A plan has the subnets of its spec, in order, under names that are all different. Two of them share
-- a zone exactly if their places in the list differ by a multiple of six on AWS, Alibaba and GCP, or of
-- three on IBM and StackIt; never on Oracle, which numbers a zone for each; and always on the others,
-- whose subnets have no zone.
pub translate_network-IsSpread :
    (net : Net) (resolve : RegionCatalog) (spec : NetworkSpec) (plan : NetworkPlan)
    → translate_network net resolve spec ≡ ok plan
    → IsSpread spec plan
unfolding translate_network
translate_network-IsSpread net resolve spec plan h =
    OnOk_apply (IsSpread spec) _ plan
      (OnOk-bind_eq (IsSpread spec) (validate_spec net spec) _ λ _ _.
        OnOk-bind_eq (IsSpread spec) (region_row (resolve spec.region spec.provider)) _
          λ row _. network_plan-IsSpread spec row)
      h
