-- ===== src/Catalog/Mitigation/Hosted.antt =====
-- The substitutes that run on a machine (internal/catalog/mitigation.go).
use terraform_provider_pyxcl.Prelude.{
  ◌≡◌, refl, true, ◌&&◌, Option, none, some, inl, inr, Option-cases, length, arith,
}
use terraform_provider_pyxcl.Prelude.Int.{pos, leb_ℤ}
use terraform_provider_pyxcl.Prelude.Results.{
  Result, ok, err, is_ok, OnOk, OnOk-bind_eq, OnOk_apply,
}
use terraform_provider_pyxcl.GoLang.Text.{Runes, equal_fold_ascii}
use terraform_provider_pyxcl.Catalog.Embedded.{EmbeddedCatalog, Offers, embedded}
use terraform_provider_pyxcl.Catalog.Embedded.Indexed.{IsIndexed}
use terraform_provider_pyxcl.Catalog.Embedded.Translated.{IsResolved, translate_vm-IsResolved}
use terraform_provider_pyxcl.Catalog.Hosts.{AssembleComponent}
use terraform_provider_pyxcl.Catalog.Mitigation.{
  Mitigated, mitigatable, recipe_found, machine_found, mitigation_recipe, is_self_hosted,
  forces_vm_placement, mitigation_vm_sizing, mitigation_spec, self_host_user_data,
  mitigate_component,
}
use terraform_provider_pyxcl.Catalog.Mitigation.Consistent.{mitigatable-IsConsistent}
use terraform_provider_pyxcl.Catalog.Mitigation.Recipes.{SelfHostRecipe}
use terraform_provider_pyxcl.Catalog.Names.{ubicloud}
use terraform_provider_pyxcl.Catalog.VirtualMachine.{
  VmCatalog, VmSpec, VmPlan, VmFault, translate_vm,
}
use terraform_provider_pyxcl.Catalog.VirtualMachine.Instances.{translate_vm-AreInstances}

-- A machine that is large enough for the recipe, and for Ubicloud.
pub record IsEnough (recipe : SelfHostRecipe) (provider : Runes) (spec : VmSpec) : Type 0 where
  pub enough_cpu : leb_ℤ recipe.cpu spec.cpu ≡ true
  pub enough_ram : leb_ℤ recipe.ram spec.ram ≡ true
  pub on_ubicloud :
      equal_fold_ascii provider ubicloud ≡ true
      → (leb_ℤ (pos 2) spec.cpu && leb_ℤ (pos 8) spec.ram) ≡ true

mitigation_spec-IsEnough :
    (recipe : SelfHostRecipe) (provider region name network subnet sg : Runes)
    → IsEnough recipe provider (mitigation_spec recipe provider region name network subnet sg)
unfolding mitigation_spec mitigation_vm_sizing
mitigation_spec-IsEnough recipe provider region name network subnet sg = record {
  enough_cpu = ground arith;
  enough_ram = ground arith;
  on_ubicloud = ground arith;
}

-- A machine of the catalog that runs the recipe of a type.
pub record IsHosted (offers : Offers) (c : EmbeddedCatalog) (component_type : Runes)
    (spec_of : SelfHostRecipe → VmSpec) (provider : Runes) (plan : VmPlan) : Type 0 where
  pub recipe : SelfHostRecipe
  pub known : mitigation_recipe component_type ≡ some recipe
  pub enough : IsEnough recipe provider (spec_of recipe)
  pub machine : VmPlan
  pub resolved : IsResolved offers c (spec_of recipe) machine
  pub plan_same : plan ≡ record machine { user_data = self_host_user_data recipe }
  pub one : length plan.instances ≡ 1

recipe_found_ok :
    (o : Option SelfHostRecipe) (recipe : SelfHostRecipe)
    → recipe_found o ≡ ok recipe
    → o ≡ some recipe
recipe_found_ok none recipe h = cc
recipe_found_ok (some r) recipe h = cc

machine_found_ok :
    (m : Result VmFault VmPlan) (plan : VmPlan) → machine_found m ≡ ok plan → m ≡ ok plan
machine_found_ok (ok p) plan h = cc
machine_found_ok (err fault) plan h = cc

module _ {VmRest Rest : Type 0} (comp : AssembleComponent VmRest Rest)
    (provider region network subnet sg : Runes) where
  abbrev pub spec_for : SelfHostRecipe → VmSpec
  spec_for recipe = mitigation_spec recipe provider region comp.name network subnet sg

  hosted :
      (offers : Offers) (c : EmbeddedCatalog)
      → IsIndexed c
      → OnOk
          (λ m. IsHosted offers c comp.component_type spec_for provider m.plan)
          (mitigate_component (embedded offers c) provider region comp network subnet sg)
  unfolding mitigate_component mitigation_spec
  hosted offers c indexed =
      OnOk-bind_eq _ (recipe_found (mitigation_recipe comp.component_type)) _ (λ recipe e.
        let spec = mitigation_spec recipe provider region comp.name network subnet sg in
        OnOk-bind_eq _ (machine_found (translate_vm (embedded offers c) spec)) _ (λ machine f.
          let translated = machine_found_ok _ machine f in
          let instances = translate_vm-AreInstances (embedded offers c) spec machine translated in
          record {
            recipe = recipe;
            known = recipe_found_ok _ recipe e;
            enough = mitigation_spec-IsEnough recipe provider region comp.name network subnet sg;
            machine = machine;
            resolved = translate_vm-IsResolved offers c spec indexed machine translated;
            plan_same = refl;
            one = instances.as_many 0 refl;
          }))

  -- Over a catalog whose indexes agree with its rows: the substitute of a component is one machine that
  -- comes from the rows of the catalog, has at least the CPUs and the memory of its type's recipe, and on
  -- Ubicloud at least 2 and 8, and whose user data start that recipe.
  pub mitigate_component-IsHosted :
      (offers : Offers) (c : EmbeddedCatalog)
      → IsIndexed c
      → (m : Mitigated)
      → mitigate_component (embedded offers c) provider region comp network subnet sg ≡ ok m
      → IsHosted offers c comp.component_type spec_for provider m.plan
  mitigate_component-IsHosted offers c indexed m h = OnOk_apply _ _ m (hosted offers c indexed) h

  self_hosted-mitigatable :
      is_self_hosted provider comp ≡ true → mitigatable comp.component_type ≡ true
  unfolding is_self_hosted forces_vm_placement
  self_hosted-mitigatable h =
      let consistent = mitigatable-IsConsistent comp.component_type in
      ground (arith, consistent.placed)

  -- The assembler hosts a component itself only if its type has a recipe; the substitute is then planned
  -- exactly if the catalog has the recipe's machine.
  pub mitigate_component-accepts :
      (cat : VmCatalog)
      → is_self_hosted provider comp ≡ true
      → (recipe : SelfHostRecipe) × (mitigation_recipe comp.component_type ≡ some recipe)
        × (is_ok (mitigate_component cat provider region comp network subnet sg)
            ≡ is_ok (translate_vm cat (spec_for recipe)))
  unfolding mitigate_component mitigatable
  mitigate_component-accepts cat h = elim (Option-cases (mitigation_recipe comp.component_type)) [
    | inl e ↦ absurd (cc (e, self_hosted-mitigatable h))
    | inr (recipe, e) ↦ (recipe, e, rw e (ground arith))
  ]
