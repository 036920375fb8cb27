-- ===== src/Catalog/VirtualMachine/Instances.antt =====
-- The instances of a plan (internal/catalog/virtualmachine.go).
use mathlib.Core.List.{append_cancel_left}
use mathlib.Core.Option.{some-injective}
use terraform_provider_pyxcl.Prelude.{
  ℕ, zero, suc, ◌+◌, ◌<◌, ◌≡◌, refl, sym, ap, ◌∙◌, some, List, ◌++◌, arith, length, get_elem?,
}
use terraform_provider_pyxcl.Prelude.Int.{ℤ, pos}
use terraform_provider_pyxcl.Prelude.Results.{ok, OnOk, OnOk-bind_eq, OnOk_apply}
use terraform_provider_pyxcl.GoLang.Strconv.{itoa, itoa_injective}
use terraform_provider_pyxcl.GoLang.Text.{Runes, codes}
use terraform_provider_pyxcl.Catalog.VirtualMachine.{
  VmSpec, VmPlan, VmCatalog, found, sku_found, validate_vm_spec, vm_architecture, vm_os,
  vm_os_version, vm_count, vm_name, instance_names, vm_plan, translate_vm, region_not_found,
  image_not_found,
}

-- The i-th of n names from number k on.
record IsNth (name : Runes) (k n i : ℕ) (s : Runes) : Type 0 where
  within : i < n
  numbered : s ≡ name ++ (codes "-" ++ itoa (k + i + 1))

instance_names-IsNth :
    (name : Runes) (k n i : ℕ) (s : Runes)
    → get_elem? (instance_names name k n) i ≡ some s
    → IsNth name k n i s
unfolding instance_names
instance_names-IsNth name k zero i s h = cc
instance_names-IsNth name k (suc n) zero s h = rw (sym (some-injective _ s h)) (record {
  within = omega arith;
  numbered = ap (λ m. name ++ (codes "-" ++ itoa m)) (omega arith);
})
instance_names-IsNth name k (suc n) (suc i) s h =
    let nth = instance_names-IsNth name (suc k) n i s h in
    record {
      within = omega arith;
      numbered = nth.numbered ∙ ap (λ m. name ++ (codes "-" ++ itoa m)) (omega arith);
    }

length-instance_names : (name : Runes) (k n : ℕ) → length (instance_names name k n) ≡ n
unfolding instance_names
length-instance_names name k zero = refl
length-instance_names name k (suc n) = ap suc (length-instance_names name (suc k) n)

-- As many instances as requested, or one, and no two of the same name.
pub record AreInstances (count : ℤ) (instances : List Runes) : Type 0 where
  pub as_many : (n : ℕ) → count ≡ pos (suc n) → length instances ≡ suc n
  pub one : count ≡ pos 0 → length instances ≡ 1
  pub distinct :
      (i j : ℕ) (s : Runes)
      → get_elem? instances i ≡ some s
      → get_elem? instances j ≡ some s
      → i ≡ j

vm_count-suc : (spec : VmSpec) (n : ℕ) → spec.count ≡ pos (suc n) → vm_count spec ≡ suc n
vm_count-suc spec n h = rw h (ground arith)

vm_count-zero : (spec : VmSpec) → spec.count ≡ pos 0 → vm_count spec ≡ 1
vm_count-zero spec h = rw h (ground arith)

instance_names-AreInstances :
    (spec : VmSpec) → AreInstances spec.count (instance_names (vm_name spec) 0 (vm_count spec))
instance_names-AreInstances spec =
    let name = vm_name spec in
    let n = vm_count spec in
    record {
      as_many = λ m h. length-instance_names name 0 n ∙ vm_count-suc spec m h;
      one = λ h. length-instance_names name 0 n ∙ vm_count-zero spec h;
      distinct = λ i j s h k.
          let nth = instance_names-IsNth name 0 n i s h in
          let mth = instance_names-IsNth name 0 n j s k in
          let same = itoa_injective (0 + i + 1) (0 + j + 1) (
            append_cancel_left (codes "-") _ _
              (append_cancel_left name _ _ (sym nth.numbered ∙ mth.numbered))) in
          omega arith;
    }

module _ (cat : VmCatalog) (spec : VmSpec) where
  instances_of : OnOk (λ plan. AreInstances spec.count plan.instances) (translate_vm cat spec)
  unfolding translate_vm vm_plan
  instances_of = OnOk-bind_eq _ (validate_vm_spec spec) _ (λ _ _.
      OnOk-bind_eq _ (found region_not_found (cat.resolve_region spec.region spec.provider)) _
        (λ row _.
          OnOk-bind_eq _
            (sku_found
              (cat.resolve_sku row.csp row.csp_region (vm_architecture spec) spec.cpu spec.ram))
            _
            (λ sku _.
              OnOk-bind_eq _
                (found image_not_found (
                  cat.resolve_image row.csp row.csp_region (vm_os spec) (vm_os_version spec)
                    (vm_architecture spec)))
                _ (λ img _. instance_names-AreInstances spec))))

  -- Whatever the catalog: a plan has as many instances as the count says, one for a count of 0, and no
  -- two of its instances have the same name.
  pub translate_vm-AreInstances :
      (plan : VmPlan) → translate_vm cat spec ≡ ok plan → AreInstances spec.count plan.instances
  translate_vm-AreInstances plan h = OnOk_apply _ _ plan instances_of h
