-- ===== src/Catalog/VirtualMachine/Accepts.antt =====
-- Which machines are translated (internal/catalog/virtualmachine.go).
use terraform_provider_pyxcl.Prelude.{
  ◌≡◌, Bool, false, not, ◌&&◌, Option, none, some, arith, is_some,
}
use terraform_provider_pyxcl.Prelude.Int.{pos, leb_ℤ}
use terraform_provider_pyxcl.Prelude.Results.{is_ok}
use terraform_provider_pyxcl.GoLang.Text.{trim_space}
use terraform_provider_pyxcl.Catalog.Names.{normal, provider_to_csp, RegionRow, is_empty}
use terraform_provider_pyxcl.Catalog.VirtualMachine.{
  VmSpec, VmCatalog, validate_vm_spec, vm_architecture, vm_os, vm_os_version, translate_vm,
  is_choice, x86_64, arm64, ubuntu, debian,
}

-- A spec with a region, a known provider, an architecture and a system that are known or left out, and
-- numbers in their bounds.
abbrev pub is_valid_vm : VmSpec → Bool
is_valid_vm spec =
    not (is_empty (trim_space spec.region))
    && not (is_empty (trim_space spec.provider))
    && is_some (provider_to_csp spec.provider)
    && is_choice x86_64 arm64 (normal spec.architecture)
    && is_choice ubuntu debian (normal spec.os)
    && leb_ℤ (pos 1) spec.cpu
    && leb_ℤ (pos 1) spec.ram
    && leb_ℤ (pos 0) spec.count

-- The catalog has the region, and there a machine and an image.
abbrev pub is_available : VmCatalog → VmSpec → Option RegionRow → Bool
is_available cat spec none = false
is_available cat spec (some row) =
    is_ok (cat.resolve_sku row.csp row.csp_region (vm_architecture spec) spec.cpu spec.ram)
    && is_some (
        cat.resolve_image row.csp row.csp_region (vm_os spec) (vm_os_version spec)
          (vm_architecture spec))

validate_vm_spec-is_valid_vm : (spec : VmSpec) → is_ok (validate_vm_spec spec) ≡ is_valid_vm spec
unfolding validate_vm_spec
validate_vm_spec-is_valid_vm spec = ground arith

-- A machine is translated exactly when its region and provider are not blank, the provider is known, the
-- architecture and the operating system are known or left out, there are at least one CPU and one GiB,
-- the count is not negative, and the catalog has the region for the provider and, in it, a machine of
-- the size and an image of the system, with the defaults for what was left out.
pub translate_vm-accepts :
    (cat : VmCatalog) (spec : VmSpec)
    → is_ok (translate_vm cat spec)
      ≡ (is_valid_vm spec && is_available cat spec (cat.resolve_region spec.region spec.provider))
unfolding translate_vm
translate_vm-accepts cat spec = ground (arith, validate_vm_spec-is_valid_vm spec)
