-- ===== src/Catalog/Embedded.antt =====
-- internal/catalog/embedded.go: the catalog in memory, its indexes, and how regions, SKUs and images
-- are resolved. Its loading from records is in `Load`.
pub mod Load
pub mod Linode
pub mod Indexed
pub mod Best
pub mod Databases
pub mod Translated
mod Tests
use terraform_provider_pyxcl.Prelude.{
  ℕ, ◌==◌, ltb, Bool, true, false, ◌&&◌, ◌||◌, Option, none, some, List, [], ◌∷◌, ◌++◌,
  if◌then◌else◌, filter,
}
use terraform_provider_pyxcl.Prelude.Int.{ℤ, eq_ℤ}
use terraform_provider_pyxcl.Prelude.Least.{least_by}
use terraform_provider_pyxcl.Prelude.Results.{Result, ok, err, ◌>>=◌, ◌>>◌, guard}
use terraform_provider_pyxcl.GoLang.Map.{Map, lookup_runes, set, set_absent, entries, append_at}
use terraform_provider_pyxcl.GoLang.Sort.{ltb_runes}
use terraform_provider_pyxcl.GoLang.Text.{Runes, codes, text_eq, to_lower}
use terraform_provider_pyxcl.Catalog.Names.{normal, provider_to_csp, RegionRow, RegionCatalog}
use terraform_provider_pyxcl.Catalog.ManagedDatabase.{MdbRow}
use terraform_provider_pyxcl.Catalog.VirtualMachine.{
  VmRow, OsImageRow, SkuFault, sku_not_found, not_offered, VmCatalog,
}
use terraform_provider_pyxcl.Catalog.VirtualMachine.Sizes.{family_rank, nearest_sizes}

-- EmbeddedCatalog
pub record EmbeddedCatalog : Type 0 where
  pub by_csp_region : Map RegionRow
  pub rows : List RegionRow
  pub vm_rows : List VmRow
  pub vm_by_region_arch : Map (List VmRow)
  pub os_by_key : Map OsImageRow
  pub mdb_rows : List MdbRow
  pub mdb_by_region_eng : Map (List MdbRow)

abbrev bar : Runes
bar = codes "|"

-- key
unfoldable pub region_key : Runes → Runes → Runes
region_key csp region_name = csp ++ (bar ++ normal region_name)

-- vmRegionArchKey
unfoldable pub vm_region_arch_key : Runes → Runes → Runes → Runes
vm_region_arch_key csp csp_region arch =
    to_lower csp ++ (bar ++ (to_lower csp_region ++ (bar ++ to_lower arch)))

-- mdbRegionEngineKey
unfoldable pub mdb_region_engine_key : Runes → Runes → Runes → Runes
mdb_region_engine_key csp csp_region engine =
    to_lower csp ++ (bar ++ (to_lower csp_region ++ (bar ++ to_lower engine)))

-- osKey
unfoldable pub os_key : Runes → Runes → Runes → Runes → Runes → Runes
os_key csp csp_region os version arch =
    to_lower csp
    ++ (bar
        ++ (to_lower csp_region
            ++ (bar ++ (to_lower os ++ (bar ++ (to_lower version ++ (bar ++ to_lower arch)))))))

abbrev pub key_of_region : RegionRow → Runes
key_of_region r = region_key r.csp r.region_name

abbrev pub key_of_vm : VmRow → Runes
key_of_vm r = vm_region_arch_key r.csp r.csp_region r.architecture

abbrev pub key_of_mdb : MdbRow → Runes
key_of_mdb r = mdb_region_engine_key r.csp r.csp_region r.engine

abbrev pub key_of_os : OsImageRow → Runes
key_of_os r = os_key r.csp r.csp_region r.os_name r.os_version r.architecture

-- What the command line tools of the providers answer about a type of instance in a region: how many
-- offers there are. `none` is a tool, credentials or an answer that is missing.
pub record Offers : Type 0 where
  -- PYXCLOUD_BYPASS_JIT_CHECK is "true"
  pub bypass : Bool
  pub aws_offers : Runes → Runes → Option ℕ
  pub gcp_offers : Runes → Runes → Option ℕ

abbrev some_offer : Option ℕ → Bool
some_offer none = true
some_offer (some n) = ltb 0 n

-- validateSKUJIT, whether it gives no error
unfoldable pub is_offered : Offers → Runes → Runes → Runes → Bool
is_offered offers csp csp_region instance_type =
    if offers.bypass
    then true
    else if text_eq csp (codes "aws")
    then some_offer (offers.aws_offers csp_region instance_type)
    else if text_eq csp (codes "gcp")
    then some_offer (offers.gcp_offers csp_region instance_type)
    else true

-- The test by which ResolveSKU takes a row in place of the best one so far.
unfoldable pub is_better : VmRow → VmRow → Bool
is_better r best =
    ltb (family_rank r) (family_rank best)
    || family_rank r == family_rank best && ltb_runes r.name best.name

-- The loop over exact[1:]
unfoldable pub best_of : VmRow → List VmRow → VmRow
best_of best rows = least_by is_better best rows

abbrev pub has_size : ℤ → ℤ → VmRow → Bool
has_size cpu ram r = eq_ℤ r.cpu cpu && eq_ℤ r.ram ram

module _ (offers : Offers) where
  -- What follows the loop over the candidates.
  unfoldable pub pick_sku : Runes → Runes → ℤ → ℤ → List VmRow → List VmRow → Result SkuFault VmRow
  pick_sku csp csp_region cpu ram candidates [] =
      err (sku_not_found (nearest_sizes candidates cpu ram 5))
  pick_sku csp csp_region cpu ram candidates (r ∷ rs) =
      let best = best_of r rs in
      if is_offered offers csp csp_region best.name then ok best else err (not_offered best.name)

  -- ResolveSKU
  unfoldable pub resolve_sku :
      EmbeddedCatalog → Runes → Runes → Runes → ℤ → ℤ → Result SkuFault VmRow
  resolve_sku c csp csp_region arch cpu ram =
      let candidates = entries (vm_region_arch_key csp csp_region arch) c.vm_by_region_arch in
      pick_sku csp csp_region cpu ram candidates (filter (has_size cpu ram) candidates)

-- ResolveImage
unfoldable pub resolve_image :
    EmbeddedCatalog → Runes → Runes → Runes → Runes → Runes → Option OsImageRow
resolve_image c csp csp_region os version arch =
    lookup_runes (os_key csp csp_region os version arch) c.os_by_key

abbrev region_of : EmbeddedCatalog → Runes → Option Runes → Option RegionRow
region_of c region_name none = none
region_of c region_name (some csp) = lookup_runes (region_key csp region_name) c.by_csp_region

-- ResolveRegion
unfoldable pub resolve_region : EmbeddedCatalog → RegionCatalog
resolve_region c region_name provider = region_of c region_name (provider_to_csp provider)

-- The catalog as a VMCatalog.
unfoldable pub embedded : Offers → EmbeddedCatalog → VmCatalog
embedded offers c = record {
  resolve_region = resolve_region c;
  resolve_sku = resolve_sku offers c;
  resolve_image = resolve_image c;
}
