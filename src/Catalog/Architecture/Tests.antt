-- ===== src/Catalog/Architecture/Tests.antt =====
-- Two environments, and an instance of the theorem on the architecture checks. A machine has its CPUs and
-- nothing else, and a component no other fields.
use terraform_provider_pyxcl.Prelude.{
  ◌≡◌, refl, not, ◌&&◌, ◌||◌, Option, none, some, List, [], ◌∷◌, any, ltb, ◌==◌,
}
use terraform_provider_pyxcl.Prelude.Int.{pos}
use terraform_provider_pyxcl.GoLang.Strconv.{digits_from, digits, positive, negative, atoi_codes}
use terraform_provider_pyxcl.GoLang.Text.{Runes, codes, to_lower, trim_space}
use terraform_provider_pyxcl.Catalog.Architecture.{
  cargo_cult_operator, premature_split, is_cargo_cult_operator, cargo_cult_findings, split_findings,
  single_vm_findings, detect_architecture_mismatches,
}
use terraform_provider_pyxcl.Catalog.Architecture.Silent.{
  has_operator, hosts_operators, is_named_cluster, is_machine, is_group, is_small, tally,
  detect_architecture_mismatches-is_empty,
}
use terraform_provider_pyxcl.Catalog.Hosts.{AssembleComponent, AssembleVm}
use terraform_provider_pyxcl.Catalog.Mitigation.{has_operator_alternative}
use terraform_provider_pyxcl.Catalog.Names.{normal, is_empty}

abbrev Component : Type 0
Component = AssembleComponent Runes (Unit {0})

abbrev same : Runes → Runes
same r = r

abbrev component : Runes → Runes → Option (AssembleVm Runes (Unit {0})) → Component
component name component_type vm = record {
  name = name;
  component_type = component_type;
  count = pos 1;
  host_vm = [];
  host_bootstrap = [];
  placement = [];
  vm = vm;
  rest = tt;
}

abbrev machine : Runes → Runes → Component
machine name cpu =
    component name (codes "virtual-machine") (some (record { user_data = []; rest = cpu }))

-- Four small machines and an operator without a cluster.
abbrev micro : List Component
micro =
    machine (codes "a") (codes "1")
    ∷ machine (codes "b") (codes " 2 ")
    ∷ machine (codes "c") (codes "2")
    ∷ machine (codes "d") (codes "1")
    ∷ machine (codes "e") (codes "4")
    ∷ component (codes "traces") (codes "Tracing") none
    ∷ []

finds_both :
    detect_architecture_mismatches same micro
    ≡ cargo_cult_operator (codes "traces") (codes "Tracing")
      ∷ premature_split (codes "a" ∷ codes "b" ∷ codes "c" ∷ codes "d" ∷ [])
      ∷ []
unfolding detect_architecture_mismatches cargo_cult_findings is_cargo_cult_operator
    has_operator_alternative split_findings single_vm_findings normal to_lower trim_space atoi_codes
    digits digits_from positive negative
finds_both = refl

detect_architecture_mismatches-is_empty_example :
    is_empty (detect_architecture_mismatches same micro) ≡ (
      (not (any has_operator micro) || any hosts_operators micro)
      && ltb (tally (is_small same) micro) 4
      && (not (any is_named_cluster micro)
          || not (tally is_machine micro == 1)
          || ltb 0 (tally is_group micro)))
detect_architecture_mismatches-is_empty_example = detect_architecture_mismatches-is_empty same micro
