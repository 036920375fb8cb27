-- ===== src/Catalog/Hosts.antt =====
-- internal/catalog/host_placement.go: the placement of services on machines, with ExplicitVMPlacement of
-- mitigation.go. The fields of a component and of a machine that placement does not read are one field.
pub mod Scripts
mod Holds
mod Follows
pub mod Placed
mod Tests
use terraform_provider_pyxcl.Prelude.{
  ℕ, zero, suc, Bool, true, false, not, ◌&&◌, ◌||◌, Option, none, some, List, [], ◌∷◌, ◌++◌,
  if◌then◌else◌, get_elem?, is_some,
}
use terraform_provider_pyxcl.Prelude.Int.{ℤ, pos, eq_ℤ}
use terraform_provider_pyxcl.Prelude.Results.{Result, ok, err, ◌>>=◌, ◌>>◌, guard}
use terraform_provider_pyxcl.GoLang.Map.{Map, lookup_runes, set}
use terraform_provider_pyxcl.GoLang.Text.{Runes, codes, text_eq, has_prefix}
use terraform_provider_pyxcl.Catalog.Names.{normal, is_empty}

-- ExplicitVMPlacement
unfoldable pub explicit_vm_placement : Runes → Bool
explicit_vm_placement component_type =
    text_eq (normal component_type) (codes "managed-database")
    || text_eq (normal component_type) (codes "cache")

-- The first line of a script, with its end.
abbrev pub shebang : Runes
shebang = codes "#!/bin/bash" ++ b'\n' ∷ []

-- What bindServiceHosts complains of.
pub data HostFault : Type 0 where
  duplicate_host : Runes → HostFault
  bootstrap_without_host : Runes → HostFault
  no_single_host : Runes → HostFault
  incompatible_bootstrap : Runes → HostFault

-- strings.TrimPrefix(s, "\n")
unfoldable pub trim_newline : Runes → Runes
trim_newline s = if has_prefix s (b'\n' ∷ []) then drop_one s else s
  where
    drop_one : Runes → Runes
    drop_one [] = []
    drop_one (c ∷ r) = r

module _ (VmRest Rest : Type 0) where
  -- AssembleVM
  pub record AssembleVm : Type 0 where
    pub user_data : Runes
    pub rest : VmRest

  -- AssembleComponent
  pub record AssembleComponent : Type 0 where
    pub name : Runes
    pub component_type : Runes
    pub count : ℤ
    pub host_vm : Runes
    pub host_bootstrap : Runes
    pub placement : Runes
    pub vm : Option AssembleVm
    pub rest : Rest

module _ {VmRest Rest : Type 0} where
  -- The map from the names of machines to their places, from the i-th component on.
  unfoldable pub hosts_from :
      Map ℕ → ℕ → List (AssembleComponent VmRest Rest) → Result HostFault (Map ℕ)
  hosts_from hosts i [] = ok hosts
  hosts_from hosts i (c ∷ cs) =
      let skipped = hosts_from hosts (suc i) cs in
      let added = hosts_from (set c.name i hosts) (suc i) cs in
      if not (text_eq c.component_type (codes "virtual-machine"))
      then skipped
      else if is_some (lookup_runes c.name hosts)
      then err (duplicate_host c.name)
      else added

  -- components[i].VM = &vm
  unfoldable pub put_vm :
      ℕ
      → AssembleVm VmRest Rest
      → List (AssembleComponent VmRest Rest)
      → List (AssembleComponent VmRest Rest)
  put_vm i vm [] = []
  put_vm zero vm (c ∷ cs) = record c { vm = some vm } ∷ cs
  put_vm (suc i) vm (c ∷ cs) = c ∷ put_vm i vm cs

  -- The host is a single machine, and the service and its script may be placed.
  unfoldable pub may_host : AssembleComponent VmRest Rest → AssembleComponent VmRest Rest → Bool
  may_host host c =
      eq_ℤ host.count (pos 1)
      && text_eq c.placement (codes "vm")
      && explicit_vm_placement c.component_type
      && has_prefix c.host_bootstrap shebang

  -- The machine's script, followed by the one of the service.
  unfoldable pub with_bootstrap : AssembleVm VmRest Rest → Runes → AssembleVm VmRest Rest
  with_bootstrap vm bootstrap = record vm {
    user_data = trim_newline (vm.user_data ++ b'\n' ∷ bootstrap);
  }

  unfoldable pub attach :
      ℕ
      → AssembleComponent VmRest Rest
      → AssembleComponent VmRest Rest
      → Option (AssembleVm VmRest Rest)
      → List (AssembleComponent VmRest Rest)
      → Result HostFault (List (AssembleComponent VmRest Rest))
  attach i host c none components = err (no_single_host c.name)
  attach i host c (some vm) components =
      guard (may_host host c) (no_single_host c.name)
      >> (guard (is_empty vm.user_data || has_prefix vm.user_data shebang)
            (incompatible_bootstrap c.name)
          >> ok (put_vm i (with_bootstrap vm c.host_bootstrap) components))

  unfoldable pub attach_at :
      ℕ
      → AssembleComponent VmRest Rest
      → Option (AssembleComponent VmRest Rest)
      → List (AssembleComponent VmRest Rest)
      → Result HostFault (List (AssembleComponent VmRest Rest))
  attach_at i c none components = err (no_single_host c.name)
  attach_at i c (some host) components = attach i host c host.vm components

  unfoldable pub attach_to :
      AssembleComponent VmRest Rest
      → Option ℕ
      → List (AssembleComponent VmRest Rest)
      → Result HostFault (List (AssembleComponent VmRest Rest))
  attach_to c none components = err (no_single_host c.name)
  attach_to c (some i) components = attach_at i c (get_elem? components i) components

  -- The body of the second loop.
  unfoldable pub bind_service :
      Map ℕ
      → AssembleComponent VmRest Rest
      → List (AssembleComponent VmRest Rest)
      → Result HostFault (List (AssembleComponent VmRest Rest))
  bind_service hosts c components =
      if is_empty c.host_vm
      then (if is_empty c.host_bootstrap
          then ok components
          else err (bootstrap_without_host c.name))
      else attach_to c (lookup_runes c.host_vm hosts) components

  unfoldable pub bind_services :
      Map ℕ
      → List (AssembleComponent VmRest Rest)
      → List (AssembleComponent VmRest Rest)
      → Result HostFault (List (AssembleComponent VmRest Rest))
  bind_services hosts [] components = ok components
  bind_services hosts (c ∷ cs) components =
      bind_service hosts c components >>= λ components'. bind_services hosts cs components'

  -- bindServiceHosts, on the components
  unfoldable pub bind_service_hosts :
      List (AssembleComponent VmRest Rest) → Result HostFault (List (AssembleComponent VmRest Rest))
  bind_service_hosts components =
      hosts_from [] 0 components >>= λ hosts. bind_services hosts components components
