-- ===== src/Catalog/Environment/Hosting.antt =====
-- Which environments have machines, and which of them the baseline covers (internal/catalog/assemble.go and
-- securitybaseline.go).
use terraform_provider_pyxcl.Prelude.{◌≡◌, refl, Bool, not, ◌||◌, List, [], ◌∷◌, any, arith}
use terraform_provider_pyxcl.GoLang.Sort.{sort, insert, ltb_runes}
use terraform_provider_pyxcl.GoLang.Text.{Runes}
use terraform_provider_pyxcl.Catalog.Environment.{AssembleInput, needs_vm, has_vm}
use terraform_provider_pyxcl.Catalog.Environment.Baseline.{
  baseline_egress, is_compute, derive_security_baseline,
}
use terraform_provider_pyxcl.Catalog.Hosts.{AssembleComponent}
use terraform_provider_pyxcl.Catalog.Mitigation.{is_self_hosted, forces_vm_placement}
use terraform_provider_pyxcl.Catalog.Names.{is_empty}

has_baseline_egress : not (is_empty baseline_egress) ≡ Bool.true
unfolding baseline_egress sort insert ltb_runes
has_baseline_egress = refl

module _ {VmRest Rest : Type 0} where
  any-needs_vm :
      (provider : Runes) (cs : List (AssembleComponent VmRest Rest))
      → any (needs_vm provider) cs ≡ (any (is_compute provider) cs || any forces_vm_placement cs)
  unfolding is_self_hosted
  any-needs_vm provider [] = refl
  any-needs_vm provider (c ∷ cs) = ground (arith, any-needs_vm provider cs)

  -- An environment has machines exactly if its baseline has rules for what goes out, or it has a droplet
  -- for Vault, or an author places one of its services on a machine: in the last two cases there may be
  -- machines without these rules.
  pub has_vm-derive_security_baseline :
      (env : AssembleInput VmRest Rest)
      → has_vm env ≡ (
          not (is_empty (derive_security_baseline env.provider env.components).egress_rules)
          || env.has_vault_droplet
          || any forces_vm_placement env.components)
  unfolding has_vm derive_security_baseline
  has_vm-derive_security_baseline env =
      ground (arith, has_baseline_egress, any-needs_vm env.provider env.components)
