-- ===== src/Catalog/Architecture.antt =====
-- IsCargoCultOperator of internal/catalog/operator.go and DetectArchitectureMismatches of
-- internal/catalog/architecture_detect.go. The CPUs of a machine are read by the function `cpu_of`.
pub mod Silent
mod Tests
use terraform_provider_pyxcl.Prelude.{
  ℕ, suc, ◌+◌, Bool, true, false, not, ◌&&◌, ◌||◌, Option, none, some, List, [], ◌∷◌, ◌++◌, map,
  any, filter, length, leb, ◌==◌, if◌then◌else◌,
}
use terraform_provider_pyxcl.Prelude.Int.{ℤ, pos, leb_ℤ, ltb_ℤ}
use terraform_provider_pyxcl.GoLang.Strconv.{atoi_codes}
use terraform_provider_pyxcl.GoLang.Text.{Runes, codes, text_eq, trim_space}
use terraform_provider_pyxcl.Catalog.Hosts.{AssembleComponent, AssembleVm}
use terraform_provider_pyxcl.Catalog.Mitigation.{has_operator_alternative}
use terraform_provider_pyxcl.Catalog.Names.{normal}

-- PrematureSplitVMThreshold
abbrev pub premature_split_vm_threshold : ℕ
premature_split_vm_threshold = 4

-- What a finding describes: the component and its type, or the machines.
pub data Mismatch : Type 0 where
  cargo_cult_operator : Runes → Runes → Mismatch
  premature_split : List Runes → Mismatch
  kubernetes_for_single_vm : Mismatch

abbrev pub is_cluster : Runes → Bool
is_cluster t = text_eq t (codes "managed-kubernetes") || text_eq t (codes "container-service")

-- IsCargoCultOperator
unfoldable pub is_cargo_cult_operator : Runes → List Runes → Bool
is_cargo_cult_operator component_type env_types =
    if not (has_operator_alternative component_type)
    then false
    else not (any (λ t. is_cluster (normal t)) env_types)

abbrev pub value_or_zero : Option ℤ → ℤ
value_or_zero none = pos 0
value_or_zero (some n) = n

module _ {VmRest Rest : Type 0} where
  abbrev pub type_is : Runes → AssembleComponent VmRest Rest → Bool
  type_is t c = text_eq c.component_type t

  abbrev pub name_of : AssembleComponent VmRest Rest → Runes
  name_of c = c.name

  abbrev pub type_of : AssembleComponent VmRest Rest → Runes
  type_of c = c.component_type

  -- The first rule's loop.
  unfoldable pub cargo_cult_findings :
      List Runes → List (AssembleComponent VmRest Rest) → List Mismatch
  cargo_cult_findings types [] = []
  cargo_cult_findings types (c ∷ cs) =
      let rest = cargo_cult_findings types cs in
      if is_cargo_cult_operator c.component_type types
      then cargo_cult_operator c.name c.component_type ∷ rest
      else rest

  -- The third rule.
  unfoldable pub single_vm_findings : List (AssembleComponent VmRest Rest) → List Mismatch
  single_vm_findings cs =
      if any (λ c. is_cluster c.component_type) cs
        && length (filter (type_is (codes "virtual-machine")) cs) == 1
        && length (filter (type_is (codes "virtual-machine-scale-group")) cs) == 0
      then kubernetes_for_single_vm ∷ []
      else []

module _ {VmRest Rest : Type 0} (cpu_of : VmRest → Runes) where
  -- A number out of the range of int, which strconv.Atoi cuts to its bound, counts as 0: both are not
  -- between 1 and 2.
  abbrev pub is_tiny_vm : Option (AssembleVm VmRest Rest) → Bool
  is_tiny_vm none = false
  is_tiny_vm (some vm) =
      let cpu = value_or_zero (atoi_codes (trim_space (cpu_of vm.rest))) in
      ltb_ℤ (pos 0) cpu && leb_ℤ cpu (pos 2)

  abbrev pub is_tiny : AssembleComponent VmRest Rest → Bool
  is_tiny c = type_is (codes "virtual-machine") c && is_tiny_vm c.vm

  -- The second rule.
  unfoldable pub split_findings : List (AssembleComponent VmRest Rest) → List Mismatch
  split_findings cs =
      let tiny = map name_of (filter is_tiny cs) in
      if leb premature_split_vm_threshold (length tiny) then premature_split tiny ∷ [] else []

  -- DetectArchitectureMismatches
  unfoldable pub detect_architecture_mismatches :
      List (AssembleComponent VmRest Rest) → List Mismatch
  detect_architecture_mismatches cs =
      (cargo_cult_findings (map type_of cs) cs ++ split_findings cs) ++ single_vm_findings cs
