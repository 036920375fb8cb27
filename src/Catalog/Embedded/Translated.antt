-- ===== src/Catalog/Embedded/Translated.antt =====
-- TranslateVM over the catalog in memory (internal/catalog/virtualmachine.go and embedded.go).
use terraform_provider_pyxcl.Prelude.{
  ◌≡◌, refl, sym, ◌∙◌, true, Option, none, some, inl, inr, find, Option-cases,
}
use terraform_provider_pyxcl.Prelude.Results.{Result, ok, err, OnOk, OnOk-bind_eq, OnOk_apply}
use terraform_provider_pyxcl.GoLang.Map.{lookup_runes, keyed}
use terraform_provider_pyxcl.GoLang.Text.{Runes}
use terraform_provider_pyxcl.Catalog.Names.{provider_to_csp, RegionRow}
use terraform_provider_pyxcl.Catalog.VirtualMachine.{
  SkuFault, VmRow, OsImageRow, VmSpec, VmPlan, VmFault, found, sku_found, validate_vm_spec,
  vm_architecture, vm_os, vm_os_version, vm_plan, translate_vm, region_not_found, image_not_found,
}
use terraform_provider_pyxcl.Catalog.Embedded.{
  EmbeddedCatalog, key_of_region, region_key, vm_region_arch_key, Offers, is_offered,
  resolve_region, resolve_sku, resolve_image, embedded, os_key,
}
use terraform_provider_pyxcl.Catalog.Embedded.Indexed.{IsIndexed}
use terraform_provider_pyxcl.Catalog.Embedded.Best.{IsBest, resolve_sku-Resolves}

-- A plan that comes from rows of the catalog: the first region row of this name and provider, the best
-- row of machines for the requested size there, and the image of the requested system.
pub record IsResolved (offers : Offers) (c : EmbeddedCatalog) (spec : VmSpec) (plan : VmPlan)
    : Type 0 where
  pub csp : Runes
  pub known : provider_to_csp spec.provider ≡ some csp
  pub row : RegionRow
  pub located : find (keyed key_of_region (region_key csp spec.region)) c.rows ≡ some row
  pub csp_same : plan.csp ≡ row.csp
  pub region_same : plan.csp_region ≡ row.csp_region
  pub sku : VmRow
  pub best :
      IsBest c.vm_rows
        (vm_region_arch_key plan.csp plan.csp_region plan.architecture)
        spec.cpu
        spec.ram
        sku
  pub offered : is_offered offers plan.csp plan.csp_region plan.instance_type ≡ true
  pub type_same : plan.instance_type ≡ sku.name
  pub cpu_same : plan.cpu ≡ spec.cpu
  pub ram_same : plan.ram ≡ spec.ram
  pub image_row : OsImageRow
  pub image_found :
      lookup_runes
        (os_key plan.csp plan.csp_region plan.os_name plan.os_version plan.architecture)
        c.os_by_key
      ≡ some image_row
  pub image_same : plan.image ≡ image_row.image

pub resolve_region-located :
    (c : EmbeddedCatalog) (name provider : Runes) (row : RegionRow)
    → IsIndexed c
    → resolve_region c name provider ≡ some row
    → (csp : Runes) × (provider_to_csp provider ≡ some csp)
      × (find (keyed key_of_region (region_key csp name)) c.rows ≡ some row)
unfolding resolve_region
resolve_region-located c name provider row h e = elim (Option-cases (provider_to_csp provider)) [
  | inl none_known ↦ let e' = rw none_known at e in cc e'
  | inr (csp, known) ↦
      let e' = rw known at e in (csp, known, sym (h.regions (region_key csp name)) ∙ e')
]

found_ok {ℓ} :
    {A : Type ℓ} (fault : VmFault) (o : Option A) (a : A) → found fault o ≡ ok a → o ≡ some a
found_ok fault none a h = cc
found_ok fault (some b) a h = cc

sku_found_ok : (m : Result SkuFault VmRow) (sku : VmRow) → sku_found m ≡ ok sku → m ≡ ok sku
sku_found_ok (ok s) sku h = cc
sku_found_ok (err fault) sku h = cc

module _ (offers : Offers) (c : EmbeddedCatalog) (spec : VmSpec) (indexed : IsIndexed c) where
  resolved : OnOk (IsResolved offers c spec) (translate_vm (embedded offers c) spec)
  unfolding translate_vm embedded vm_plan resolve_image
  resolved = OnOk-bind_eq _ (validate_vm_spec spec) _ (λ _ _.
      OnOk-bind_eq _ (found region_not_found (resolve_region c spec.region spec.provider)) _
        (λ row e.
          OnOk-bind_eq _
            (sku_found (
              resolve_sku offers c row.csp row.csp_region (vm_architecture spec) spec.cpu spec.ram))
            _
            (λ sku f.
              OnOk-bind_eq _
                (found image_not_found (
                  resolve_image c row.csp row.csp_region (vm_os spec) (vm_os_version spec)
                    (vm_architecture spec)))
                _
                (λ img g.
                  let region =
                    resolve_region-located c spec.region spec.provider row indexed
                      (found_ok _ _ row e) in
                  let h =
                    resolve_sku-Resolves offers c row.csp row.csp_region (vm_architecture spec)
                      spec.cpu spec.ram indexed in
                  let h' = rw (sku_found_ok _ sku f) at h in
                  let size = h'.0.1 in
                  record {
                    csp = region.0;
                    known = region.1;
                    row = row;
                    located = region.2;
                    csp_same = refl;
                    region_same = refl;
                    sku = sku;
                    best = h'.0;
                    offered = h'.1;
                    type_same = refl;
                    cpu_same = size.1;
                    ram_same = size.2;
                    image_row = img;
                    image_found = found_ok _ _ img g;
                    image_same = refl;
                  }))))

  -- Over a catalog whose indexes agree with its rows: a plan has the region row that the catalog lists
  -- first for this name and provider, the machine type that ranks first for the requested CPUs, memory,
  -- architecture and region and that is on offer, just those CPUs and memory, and the image that the
  -- catalog has for the operating system and its version there.
  pub translate_vm-IsResolved :
      (plan : VmPlan)
      → translate_vm (embedded offers c) spec ≡ ok plan
      → IsResolved offers c spec plan
  translate_vm-IsResolved plan h = OnOk_apply _ _ plan resolved h
