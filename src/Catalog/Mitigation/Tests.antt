-- ===== src/Catalog/Mitigation/Tests.antt =====
-- A cache on Ubicloud, which runs on a machine, and instances of the theorems on it.
use terraform_provider_pyxcl.Prelude.{◌≡◌, refl, true, false, none, [], ◌∷◌}
use terraform_provider_pyxcl.Prelude.Int.{pos}
use terraform_provider_pyxcl.Prelude.Results.{ok}
use terraform_provider_pyxcl.GoLang.Map.{lookup_runes, set, set_absent, entries, append_at}
use terraform_provider_pyxcl.GoLang.Text.{codes, to_lower, trim_space, fold_rune, equal_fold_ascii}
use terraform_provider_pyxcl.Catalog.Embedded.{
  EmbeddedCatalog, Offers, region_key, vm_region_arch_key, os_key, is_offered, best_of, pick_sku,
  resolve_region, resolve_sku, resolve_image, embedded,
}
use terraform_provider_pyxcl.Catalog.Embedded.Load.{index_regions, index_vms, index_images, indexed}
use terraform_provider_pyxcl.Catalog.Embedded.Indexed.{IsIndexed, indexed-IsIndexed}
use terraform_provider_pyxcl.Catalog.Hosts.{AssembleComponent, explicit_vm_placement}
use terraform_provider_pyxcl.Catalog.Mitigation.{
  Mitigated, mitigation, mitigation_recipe, mitigatable, natively_supported, forces_vm_placement,
  is_self_hosted, mitigation_vm_sizing, mitigation_spec, self_host_user_data, mitigate_component,
}
use terraform_provider_pyxcl.Catalog.Mitigation.Consistent.{IsConsistent, mitigatable-IsConsistent}
use terraform_provider_pyxcl.Catalog.Mitigation.Hosted.{
  IsHosted, spec_for, mitigate_component-IsHosted,
}
use terraform_provider_pyxcl.Catalog.Mitigation.Native.{native_support}
use terraform_provider_pyxcl.Catalog.Mitigation.Recipes.{SelfHostRecipe, self_host_recipes}
use terraform_provider_pyxcl.Catalog.Names.{normal, provider_to_csp, RegionRow}
use terraform_provider_pyxcl.Catalog.VirtualMachine.{
  VmRow, OsImageRow, default_os_version, validate_vm_spec, vm_plan, translate_vm,
}

abbrev helsinki : RegionRow
helsinki = record {
  macro_region = codes "europe";
  country = codes "Finland";
  region_name = codes "Helsinki";
  csp_region = codes "eu-north-h1";
  csp_region_description = [];
  csp = codes "ubicloud";
}

abbrev standard_2 : VmRow
standard_2 = record {
  name = codes "standard-2";
  family = codes "standard";
  csp = codes "ubicloud";
  csp_region = codes "eu-north-h1";
  architecture = codes "x86_64";
  cpu = pos 2;
  ram = pos 8;
  gpu = [];
  supports_autoscale = true;
}

abbrev noble : OsImageRow
noble = record {
  csp = codes "ubicloud";
  csp_region = codes "eu-north-h1";
  os_name = codes "ubuntu";
  os_version = codes "24.04";
  architecture = codes "x86_64";
  image = codes "ubuntu-noble";
}

abbrev small_catalog : EmbeddedCatalog
small_catalog = indexed (helsinki ∷ []) (standard_2 ∷ []) (noble ∷ []) []

abbrev no_tools : Offers
no_tools = record {
  bypass = true;
  aws_offers = λ region name. none;
  gcp_offers = λ region name. none;
}

abbrev sessions : AssembleComponent (Unit {0}) (Unit {0})
sessions = record {
  name = codes "sessions";
  component_type = codes "cache";
  count = pos 1;
  host_vm = [];
  host_bootstrap = [];
  placement = [];
  vm = none;
  rest = tt;
}

abbrev redis : SelfHostRecipe
redis = record {
  image = codes "redis:7";
  port = 6379;
  cpu = pos 2;
  ram = pos 4;
  env_note = codes "Redis (cache)";
  degraded = false;
}

sessions_self_hosted : is_self_hosted (codes "ubicloud") sessions ≡ true
unfolding is_self_hosted mitigatable mitigation_recipe natively_supported forces_vm_placement
    explicit_vm_placement normal to_lower trim_space lookup_runes self_host_recipes native_support
sessions_self_hosted = refl

abbrev hosted_sessions : Mitigated
hosted_sessions = record {
  header =
      mitigation (codes "ubicloud") (codes "cache") (codes "Redis (cache)") false (codes "redis:7");
  plan =
      record (vm_plan (spec_for sessions (codes "ubicloud") (codes "Helsinki") [] [] [] redis)
        helsinki standard_2 noble) { user_data = self_host_user_data redis };
}

hosts_sessions :
    mitigate_component
      (embedded no_tools small_catalog)
      (codes "ubicloud")
      (codes "Helsinki")
      sessions
      []
      []
      []
    ≡ ok hosted_sessions
unfolding mitigate_component mitigation_recipe self_host_recipes mitigation_spec
    mitigation_vm_sizing forces_vm_placement equal_fold_ascii fold_rune translate_vm
    validate_vm_spec normal provider_to_csp trim_space to_lower default_os_version embedded
    resolve_region resolve_sku resolve_image pick_sku best_of is_offered region_key
    vm_region_arch_key os_key entries append_at lookup_runes set set_absent index_vms index_regions
    index_images indexed
hosts_sessions = refl

small_catalog-IsIndexed : IsIndexed small_catalog
small_catalog-IsIndexed = indexed-IsIndexed (helsinki ∷ []) (standard_2 ∷ []) (noble ∷ []) []

mitigate_component-IsHosted_example :
    IsHosted no_tools small_catalog
      (codes "cache")
      (spec_for sessions (codes "ubicloud") (codes "Helsinki") [] [] [])
      (codes "ubicloud")
      hosted_sessions.plan
mitigate_component-IsHosted_example =
    mitigate_component-IsHosted sessions (codes "ubicloud") (codes "Helsinki") [] [] [] no_tools
      small_catalog small_catalog-IsIndexed hosted_sessions hosts_sessions

mitigatable-IsConsistent_example : IsConsistent (codes " Secrets-Manager")
mitigatable-IsConsistent_example = mitigatable-IsConsistent (codes " Secrets-Manager")
