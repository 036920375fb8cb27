-- ===== src/Catalog/ManagedDatabase/Tests.antt =====
-- A catalog with database classes, plans over it, and instances of the theorems on them.
use terraform_provider_pyxcl.Prelude.{◌≡◌, refl, true, false, none, some, [], ◌∷◌}
use terraform_provider_pyxcl.Prelude.Int.{ℤ, pos}
use terraform_provider_pyxcl.Prelude.Results.{ok, err}
use terraform_provider_pyxcl.GoLang.Int64.{add64, sub64, mul64, of_word, to_word}
use terraform_provider_pyxcl.GoLang.Map.{lookup_runes, set, set_absent, entries, append_at}
use terraform_provider_pyxcl.GoLang.Sort.{sort, insert, leb_runes, ltb_runes}
use terraform_provider_pyxcl.GoLang.Text.{Runes, codes, to_lower, to_lower_rune, trim_space}
use terraform_provider_pyxcl.Catalog.Names.{normal, provider_to_csp, RegionRow}
use terraform_provider_pyxcl.Catalog.VirtualMachine.Sizes.{abs}
use terraform_provider_pyxcl.Catalog.Embedded.{
  EmbeddedCatalog, region_key, mdb_region_engine_key, resolve_region,
}
use terraform_provider_pyxcl.Catalog.Embedded.Load.{index_regions, index_mdbs, indexed}
use terraform_provider_pyxcl.Catalog.Embedded.Indexed.{IsIndexed, indexed-IsIndexed}
use terraform_provider_pyxcl.Catalog.Embedded.Databases.{
  resolve_db_class, pick_db_class, embedded_mdb,
}
use terraform_provider_pyxcl.Catalog.ManagedDatabase.{
  MdbRow, ManagedDatabaseSpec, ManagedDatabasePlan, class_not_found, canonical_engine,
  validate_managed_database_spec, managed_database_plan, translate_managed_database, db_distance,
  is_nearer_db, nearest_db_sizes,
}
use terraform_provider_pyxcl.Catalog.ManagedDatabase.Planned.{
  IsPlannedDb, translate_managed_database-IsPlannedDb,
}
use terraform_provider_pyxcl.Catalog.ManagedDatabase.Safety.{
  IsGuarded, bool_str, equal_fold, violations, check_data_safety, encrypted, engine,
  check_data_safety-IsGuarded,
}

abbrev frankfurt : RegionRow
frankfurt = record {
  macro_region = codes "europe";
  country = codes "Germany";
  region_name = codes "Frankfurt";
  csp_region = codes "eu-central-1";
  csp_region_description = [];
  csp = codes "aws";
}

abbrev class_row : Runes → ℤ → ℤ → MdbRow
class_row name cpu ram = record {
  name = name;
  family = codes "db.t3";
  csp = codes "aws";
  csp_region = codes "eu-central-1";
  engine = codes "postgres";
  cpu = cpu;
  ram = ram;
}

abbrev t3_micro : MdbRow
t3_micro = class_row (codes "db.t3.micro") (pos 2) (pos 1)

abbrev t3_medium : MdbRow
t3_medium = class_row (codes "db.t3.medium") (pos 2) (pos 4)

abbrev t3_large : MdbRow
t3_large = class_row (codes "db.t3.large") (pos 2) (pos 8)

abbrev db_catalog : EmbeddedCatalog
db_catalog = indexed (frankfurt ∷ []) [] [] (t3_micro ∷ t3_medium ∷ t3_large ∷ [])

abbrev app_db : ManagedDatabaseSpec
app_db = record {
  name = codes "app-db";
  region = codes "Frankfurt";
  provider = codes " AWS";
  engine = codes "pg";
  version = [];
  cpu = pos 2;
  ram = pos 4;
  storage_gb = pos 5;
  ha = false;
  encrypted = true;
  deletion_protection = none;
  skip_final_snapshot = none;
  network = [];
  subnets = [];
  security_group = [];
}

abbrev app_db_plan : ManagedDatabasePlan
app_db_plan = managed_database_plan app_db frankfurt t3_medium

-- 3 CPUs are not in the catalog; the nearest sizes come first.
tells_nearest_class :
    resolve_db_class db_catalog
      (codes "aws")
      (codes "eu-central-1")
      (codes "postgres")
      (pos 3)
      (pos 4)
    ≡ err (class_not_found (t3_medium ∷ t3_micro ∷ t3_large ∷ []))
unfolding resolve_db_class pick_db_class mdb_region_engine_key entries append_at lookup_runes set
    to_lower index_mdbs indexed nearest_db_sizes sort insert is_nearer_db db_distance abs add64
    sub64 mul64 of_word to_word leb_runes
tells_nearest_class = refl

translates_app_db : translate_managed_database (embedded_mdb db_catalog) app_db ≡ ok app_db_plan
unfolding translate_managed_database validate_managed_database_spec normal provider_to_csp
    trim_space to_lower canonical_engine embedded_mdb resolve_region resolve_db_class pick_db_class
    region_key mdb_region_engine_key entries append_at lookup_runes set set_absent index_regions
    index_mdbs indexed ltb_runes
translates_app_db = refl

db_catalog-IsIndexed : IsIndexed db_catalog
db_catalog-IsIndexed =
    indexed-IsIndexed (frankfurt ∷ []) [] [] (t3_micro ∷ t3_medium ∷ t3_large ∷ [])

translate_managed_database-IsPlannedDb_example : IsPlannedDb db_catalog app_db app_db_plan
translate_managed_database-IsPlannedDb_example =
    translate_managed_database-IsPlannedDb db_catalog app_db db_catalog-IsIndexed app_db_plan
      translates_app_db

-- The incident: encryption is switched off on a live database.
abbrev unencrypted : ManagedDatabasePlan
unencrypted =
    managed_database_plan (record app_db { encrypted = false; ha = true }) frankfurt t3_large

check_data_safety-IsGuarded_example :
    IsGuarded to_lower_rune app_db_plan unencrypted
      (check_data_safety to_lower_rune (some app_db_plan) (some unencrypted))
check_data_safety-IsGuarded_example =
    check_data_safety-IsGuarded to_lower_rune app_db_plan unencrypted

-- Changing both encryption and the engine is refused, in this order.
refuses_both :
    check_data_safety to_lower_rune (some app_db_plan) (
      some (
        managed_database_plan
          (record app_db { encrypted = false; engine = codes "MariaDB" })
          frankfurt
          t3_medium))
    ≡ err (record {
      db_name = codes "app-db";
      provider = codes "aws";
      violations =
          record { attribute = encrypted; from = codes "true"; to = codes "false" }
          ∷ record { attribute = engine; from = codes "postgres"; to = codes "mysql" }
          ∷ [];
    })
unfolding check_data_safety violations equal_fold bool_str managed_database_plan canonical_engine
    normal trim_space to_lower to_lower_rune
refuses_both = refl
