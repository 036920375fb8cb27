-- ===== src/Catalog/Embedded/Tests.antt =====
-- A catalog of a few rows, its loading, a translation, and instances of the theorems on them.
use terraform_provider_pyxcl.Prelude.{◌≡◌, refl, true, false, Option, none, some, List, [], ◌∷◌}
use terraform_provider_pyxcl.Prelude.Int.{ℤ, pos}
use terraform_provider_pyxcl.Prelude.Results.{ok, err, OnOk}
use terraform_provider_pyxcl.GoLang.Int64.{add64, sub64, mul64, of_word, to_word}
use terraform_provider_pyxcl.GoLang.Map.{lookup_runes, set, set_absent, entries, append_at}
use terraform_provider_pyxcl.GoLang.Sort.{sort, insert, leb_runes, ltb_runes}
use terraform_provider_pyxcl.GoLang.Text.{Runes, codes, to_lower, trim_space}
use terraform_provider_pyxcl.Catalog.Names.{normal, provider_to_csp, RegionRow}
use terraform_provider_pyxcl.Catalog.VirtualMachine.{
  VmRow, OsImageRow, VmSpec, VmPlan, sku_not_found, validate_vm_spec, default_os_version, vm_plan,
  translate_vm,
}
use terraform_provider_pyxcl.Catalog.VirtualMachine.Sizes.{
  family_rank, abs, distance, is_nearer, nearest_sizes,
}
use terraform_provider_pyxcl.Catalog.Embedded.{
  EmbeddedCatalog, region_key, vm_region_arch_key, os_key, Offers, is_offered, is_better, best_of,
  pick_sku, resolve_sku, resolve_image, resolve_region, embedded,
}
use terraform_provider_pyxcl.Catalog.Embedded.Load.{
  CsvRecord, column, region_row_of, parse_table, index_regions, index_vms, index_images, Snapshots,
  indexed, load_shared,
}
use terraform_provider_pyxcl.Catalog.Embedded.Linode.{fold_linode_catalog}
use terraform_provider_pyxcl.Catalog.Embedded.Indexed.{
  IsIndexed, indexed-IsIndexed, load_shared-fold_linode_catalog,
}
use terraform_provider_pyxcl.Catalog.Embedded.Best.{Resolves, resolve_sku-Resolves}
use terraform_provider_pyxcl.Catalog.Embedded.Translated.{IsResolved, translate_vm-IsResolved}

abbrev dublin : RegionRow
dublin = record {
  macro_region = codes "europe";
  country = codes "Ireland";
  region_name = codes "Dublin";
  csp_region = codes "eu-west-1";
  csp_region_description = [];
  csp = codes "aws";
}

abbrev machine : Runes → Runes → ℤ → ℤ → VmRow
machine name family cpu ram = record {
  name = name;
  family = family;
  csp = codes "aws";
  csp_region = codes "eu-west-1";
  architecture = codes "x86_64";
  cpu = cpu;
  ram = ram;
  gpu = codes "0";
  supports_autoscale = true;
}

abbrev m5_large : VmRow
m5_large = machine (codes "m5.large") (codes "m5") (pos 2) (pos 8)

abbrev t3_large : VmRow
t3_large = machine (codes "t3.large") (codes "t3") (pos 2) (pos 8)

abbrev t3_medium : VmRow
t3_medium = machine (codes "t3.medium") (codes "t3") (pos 2) (pos 4)

abbrev noble : OsImageRow
noble = record {
  csp = codes "aws";
  csp_region = codes "eu-west-1";
  os_name = codes "ubuntu";
  os_version = codes "24.04";
  architecture = codes "x86_64";
  image = codes "ami-1";
}

abbrev small_catalog : EmbeddedCatalog
small_catalog = indexed (dublin ∷ []) (t3_medium ∷ m5_large ∷ t3_large ∷ []) (noble ∷ []) []

abbrev no_tools : Offers
no_tools = record {
  bypass = false;
  aws_offers = λ region name. none;
  gcp_offers = λ region name. none;
}

abbrev web : VmSpec
web = record {
  name = codes "web";
  region = codes "dublin ";
  provider = codes "AWS";
  architecture = [];
  cpu = pos 2;
  ram = pos 8;
  os = [];
  os_version = [];
  count = pos 2;
  network = [];
  subnet = [];
  security_group = [];
  user_data = [];
  instance_profile = [];
  tag = [];
  ssh_keys = [];
}

-- The family t3 ranks before m5.
prefers_t3 :
    resolve_sku no_tools small_catalog
      (codes "aws")
      (codes "eu-west-1")
      (codes "x86_64")
      (pos 2)
      (pos 8)
    ≡ ok t3_large
unfolding resolve_sku pick_sku best_of is_better is_offered family_rank vm_region_arch_key entries
    append_at lookup_runes set to_lower index_vms indexed ltb_runes
prefers_t3 = refl

-- No machine has 3 CPUs; the nearest come first.
tells_nearest :
    resolve_sku no_tools small_catalog
      (codes "aws")
      (codes "eu-west-1")
      (codes "x86_64")
      (pos 3)
      (pos 4)
    ≡ err (sku_not_found (t3_medium ∷ m5_large ∷ t3_large ∷ []))
unfolding resolve_sku pick_sku best_of is_better is_offered family_rank vm_region_arch_key entries
    append_at lookup_runes set to_lower index_vms indexed ltb_runes nearest_sizes sort insert
    is_nearer distance abs add64 sub64 mul64 of_word to_word leb_runes
tells_nearest = refl

abbrev web_plan : VmPlan
web_plan = vm_plan web dublin t3_large noble

translates_web : translate_vm (embedded no_tools small_catalog) web ≡ ok web_plan
unfolding translate_vm validate_vm_spec normal provider_to_csp trim_space to_lower
    default_os_version embedded resolve_region resolve_sku resolve_image pick_sku best_of is_better
    is_offered family_rank region_key vm_region_arch_key os_key entries append_at lookup_runes set
    set_absent index_vms index_regions index_images indexed ltb_runes
translates_web = refl

small_catalog-IsIndexed : IsIndexed small_catalog
small_catalog-IsIndexed =
    indexed-IsIndexed (dublin ∷ []) (t3_medium ∷ m5_large ∷ t3_large ∷ []) (noble ∷ []) []

resolve_sku-Resolves_example :
    Resolves no_tools small_catalog
      (codes "aws")
      (codes "eu-west-1")
      (codes "x86_64")
      (pos 2)
      (pos 8)
      (resolve_sku no_tools small_catalog
        (codes "aws")
        (codes "eu-west-1")
        (codes "x86_64")
        (pos 2)
        (pos 8))
resolve_sku-Resolves_example =
    resolve_sku-Resolves no_tools small_catalog (codes "aws") (codes "eu-west-1") (codes "x86_64")
      (pos 2) (pos 8) small_catalog-IsIndexed

translate_vm-IsResolved_example : IsResolved no_tools small_catalog web web_plan
translate_vm-IsResolved_example =
    translate_vm-IsResolved no_tools small_catalog web small_catalog-IsIndexed web_plan
      translates_web

abbrev header : List CsvRecord
header = [] ∷ []

abbrev snapshots : Snapshots
snapshots = record {
  regions = some (
      []
      ∷ (codes "europe"
          ∷ codes "Ireland"
          ∷ codes "Dublin"
          ∷ codes "eu-west-1"
          ∷ []
          ∷ codes "aws"
          ∷ [])
      ∷ []);
  ibm_regions = some header;
  cloudflare_regions = some header;
  vms = some header;
  ibm_vms = some header;
  images = some header;
  ibm_images = some header;
  mdbs = some header;
  ibm_mdbs = some header;
}

abbrev linode_records : Option (List CsvRecord)
linode_records = some (
    []
    ∷ (codes "region"
        ∷ codes "europe"
        ∷ codes "Germany"
        ∷ codes "Frankfurt"
        ∷ codes "eu-central"
        ∷ []
        ∷ []
        ∷ []
        ∷ []
        ∷ [])
    ∷ (codes "vm"
        ∷ codes "g6-standard-2"
        ∷ codes "standard"
        ∷ codes "eu-central"
        ∷ codes "x86_64"
        ∷ codes "2"
        ∷ codes "4"
        ∷ codes "0"
        ∷ codes "True"
        ∷ [])
    ∷ [])

loads : load_shared snapshots ≡ ok (indexed (dublin ∷ []) [] [] [])
unfolding load_shared parse_table region_row_of column indexed index_regions set_absent
loads = refl

load_shared-fold_linode_catalog_example :
    OnOk
      (λ c. IsIndexed c × OnOk IsIndexed (fold_linode_catalog c linode_records))
      (load_shared snapshots)
load_shared-fold_linode_catalog_example = load_shared-fold_linode_catalog snapshots linode_records
