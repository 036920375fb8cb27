-- ===== src/Catalog/ScaleGroup/Accepts.antt =====
-- Which scale groups are translated (internal/catalog/scalegroup.go).
use terraform_provider_pyxcl.Prelude.{
  ◌≡◌, Bool, false, not, ◌&&◌, Option, none, some, arith, is_some,
}
use terraform_provider_pyxcl.Prelude.Int.{ℤ, pos, leb_ℤ}
use terraform_provider_pyxcl.Prelude.Results.{is_ok}
use terraform_provider_pyxcl.GoLang.Text.{trim_space}
use terraform_provider_pyxcl.Catalog.Names.{normal, provider_to_csp, RegionRow, is_empty}
use terraform_provider_pyxcl.Catalog.VirtualMachine.{
  VmCatalog, is_choice, x86_64, arm64, ubuntu, debian,
}
use terraform_provider_pyxcl.Catalog.ScaleGroup.{
  ScaleGroupSpec, is_health, validate_bounds, validate_scale_group_spec, is_fixed_size,
  group_architecture, group_os, group_os_version, translate_scale_group,
}
use terraform_provider_pyxcl.Catalog.ScaleGroup.Bounds.{are_bounds}

-- A spec with a region, a known provider, an architecture, a system and a kind of health that are known
-- or left out, and numbers in their bounds.
abbrev pub is_valid_group : ScaleGroupSpec → Bool
is_valid_group spec =
    not (is_empty (trim_space spec.region))
    && not (is_empty (trim_space spec.provider))
    && is_some (provider_to_csp spec.provider)
    && is_choice x86_64 arm64 (normal spec.architecture)
    && is_choice ubuntu debian (normal spec.os)
    && leb_ℤ (pos 1) spec.cpu
    && leb_ℤ (pos 1) spec.ram
    && are_bounds spec.min spec.max spec.desired
    && is_health (normal spec.health)

-- The provider scales machines, and the catalog has the region, and there a machine and an image.
abbrev pub is_scalable : VmCatalog → ScaleGroupSpec → Option RegionRow → Bool
is_scalable cat spec none = false
is_scalable cat spec (some row) =
    not (is_fixed_size (normal spec.provider))
    && is_ok (cat.resolve_sku row.csp row.csp_region (group_architecture spec) spec.cpu spec.ram)
    && is_some (
        cat.resolve_image row.csp row.csp_region (group_os spec) (group_os_version spec)
          (group_architecture spec))

pub validate_bounds-are_bounds :
    (min max desired : ℤ) → is_ok (validate_bounds min max desired) ≡ are_bounds min max desired
unfolding validate_bounds
validate_bounds-are_bounds min max desired = ground arith

validate_scale_group_spec-is_valid_group :
    (spec : ScaleGroupSpec) → is_ok (validate_scale_group_spec spec) ≡ is_valid_group spec
unfolding validate_scale_group_spec
validate_scale_group_spec-is_valid_group spec =
    ground (arith, validate_bounds-are_bounds spec.min spec.max spec.desired)

-- A scale group is translated exactly when its region and provider are not blank, the provider is known
-- and is neither Linode nor StackIt, the architecture, the operating system and the kind of health are
-- known or left out, there are at least one CPU and one GiB, none of its three bounds is negative, those
-- that are not left out are in their order, and the catalog has the region for the provider and, in it,
-- a machine of the size and an image of the system.
pub translate_scale_group-accepts :
    (cat : VmCatalog) (spec : ScaleGroupSpec)
    → is_ok (translate_scale_group cat spec)
      ≡ (is_valid_group spec && is_scalable cat spec (cat.resolve_region spec.region spec.provider))
unfolding translate_scale_group
translate_scale_group-accepts cat spec =
    ground (arith, validate_scale_group_spec-is_valid_group spec)
