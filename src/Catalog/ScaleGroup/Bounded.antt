-- ===== src/Catalog/ScaleGroup/Bounded.antt =====
-- The bounds and the user data of a plan of a scale group (internal/catalog/scalegroup.go).
use terraform_provider_pyxcl.Prelude.{◌≡◌, true, false, not, arith}
use terraform_provider_pyxcl.Prelude.Results.{ok, OnOk, OnOk-bind_eq, OnOk-guard, OnOk_apply}
use terraform_provider_pyxcl.Catalog.Names.{normal}
use terraform_provider_pyxcl.Catalog.VirtualMachine.{VmCatalog}
use terraform_provider_pyxcl.Catalog.ScaleGroup.{
  ScaleGroupSpec, ScaleGroupPlan, region_not_found, image_not_found, is_fixed_size, unsupported,
  group_architecture, group_os, group_os_version, group_found, group_sku, validate_scale_group_spec,
  scale_group_plan, translate_scale_group,
}
use terraform_provider_pyxcl.Catalog.ScaleGroup.Accepts.{validate_bounds-are_bounds}
use terraform_provider_pyxcl.Catalog.ScaleGroup.Bounds.{
  are_bounds, AreBounded, normalize_bounds-AreBounded,
}
use terraform_provider_pyxcl.Catalog.ScaleGroup.UserData.{IsOverride, resolve_user_data-IsOverride}

validated-are_bounds :
    (spec : ScaleGroupSpec)
    → validate_scale_group_spec spec ≡ ok tt
    → are_bounds spec.min spec.max spec.desired ≡ true
unfolding validate_scale_group_spec
validated-are_bounds spec h =
    ground (arith, validate_bounds-are_bounds spec.min spec.max spec.desired)

-- A plan of a provider that scales machines, with bounds in their order and the user data of the
-- provider.
pub record IsScaled (spec : ScaleGroupSpec) (plan : ScaleGroupPlan) : Type 0 where
  pub scales : is_fixed_size plan.provider ≡ false
  pub bounded :
      AreBounded plan.provider spec.min spec.max spec.desired
        (record { min = plan.min; max = plan.max; desired = plan.desired })
  pub user_data : IsOverride spec.user_data spec.user_data_by_provider plan.provider plan.user_data

module _ (cat : VmCatalog) (spec : ScaleGroupSpec) where
  scaled : OnOk (IsScaled spec) (translate_scale_group cat spec)
  unfolding translate_scale_group scale_group_plan
  scaled = OnOk-bind_eq _ (validate_scale_group_spec spec) _ (λ u valid.
      OnOk-bind_eq _ (group_found region_not_found (cat.resolve_region spec.region spec.provider)) _
        (λ row _.
          OnOk-guard _ (not (is_fixed_size (normal spec.provider)))
            (unsupported (normal spec.provider) row) _
            (λ scales.
              OnOk-bind_eq _
                (group_sku (
                  cat.resolve_sku row.csp row.csp_region (group_architecture spec) spec.cpu
                    spec.ram))
                _
                (λ sku _.
                  OnOk-bind_eq _
                    (group_found image_not_found (
                      cat.resolve_image row.csp row.csp_region (group_os spec)
                        (group_os_version spec) (group_architecture spec)))
                    _
                    (λ img _. record {
                      scales = ground arith;
                      bounded =
                          normalize_bounds-AreBounded (normal spec.provider) spec.min spec.max
                            spec.desired (validated-are_bounds spec valid);
                      user_data =
                          resolve_user_data-IsOverride spec.user_data spec.user_data_by_provider
                            (normal spec.provider);
                    })))))

  -- Whatever the catalog: a plan of a scale group is of a provider that scales machines; its minimum is
  -- at most the desired number, and that at most the maximum, which is positive. They are the spec's but
  -- where it leaves the maximum or the desired number out (which is then the minimum), and on
  -- DigitalOcean, where the minimum is positive. The user data are the provider's own if the entries of
  -- its name agree on some that are not blank, and the generic ones if it has no entry.
  pub translate_scale_group-IsScaled :
      (plan : ScaleGroupPlan) → translate_scale_group cat spec ≡ ok plan → IsScaled spec plan
  translate_scale_group-IsScaled plan h = OnOk_apply _ _ plan scaled h
