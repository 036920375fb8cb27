-- ===== src/Catalog/ManagedDatabase.antt =====
-- internal/catalog/manageddatabase.go: the rows of database classes, the plan of a managed database and
-- the translation. The guard against changes that replace a live database is in `Safety`.
pub mod Safety
pub mod Accepts
pub mod Planned
mod Tests
use terraform_provider_pyxcl.Prelude.{
  ℕ, Bool, true, false, not, ◌&&◌, ◌||◌, Option, none, some, List, [], ◌∷◌, if◌then◌else◌, is_some,
  length,
}
use terraform_provider_pyxcl.Prelude.Int.{ℤ, pos, leb_ℤ, ltb_ℤ, eq_ℤ}
use terraform_provider_pyxcl.Prelude.Results.{Result, ok, err, ◌>>=◌, ◌>>◌, guard}
use terraform_provider_pyxcl.GoLang.Int64.{add64, sub64, mul64}
use terraform_provider_pyxcl.GoLang.Map.{Map, lookup_runes}
use terraform_provider_pyxcl.GoLang.Sort.{sort, leb_runes}
use terraform_provider_pyxcl.GoLang.Text.{Runes, codes, text_eq, trim_space}
use terraform_provider_pyxcl.Catalog.Names.{
  aws, gcp, digitalocean, azure, linode, ubicloud, oracle, ibm, alibaba, ovh, stackit, normal,
  provider_to_csp, RegionRow, RegionCatalog, is_empty, or_default,
}
use terraform_provider_pyxcl.Catalog.Network.Zones.{derive_zones}
use terraform_provider_pyxcl.Catalog.VirtualMachine.Sizes.{abs, take}

abbrev pub postgres : Runes
postgres = codes "postgres"

abbrev pub mysql : Runes
mysql = codes "mysql"

-- defaultEngineVersions
unfoldable pub default_engine_versions : Map Runes
default_engine_versions = (postgres, codes "16") ∷ (mysql, codes "8.0") ∷ []

-- MDBRow
pub record MdbRow : Type 0 where
  pub name : Runes
  pub family : Runes
  pub csp : Runes
  pub csp_region : Runes
  pub engine : Runes
  pub cpu : ℤ
  pub ram : ℤ

-- ManagedDatabaseSpec; `none` is a nil pointer.
pub record ManagedDatabaseSpec : Type 0 where
  pub name : Runes
  pub region : Runes
  pub provider : Runes
  pub engine : Runes
  pub version : Runes
  pub cpu : ℤ
  pub ram : ℤ
  pub storage_gb : ℤ
  pub ha : Bool
  pub encrypted : Bool
  pub deletion_protection : Option Bool
  pub skip_final_snapshot : Option Bool
  pub network : Runes
  pub subnets : List Runes
  pub security_group : Runes

-- ManagedDatabasePlan
pub record ManagedDatabasePlan : Type 0 where
  pub provider : Runes
  pub csp : Runes
  pub region_name : Runes
  pub csp_region : Runes
  pub db_name : Runes
  pub engine : Runes
  pub engine_version : Runes
  pub db_class : Runes
  pub family : Runes
  pub cpu : ℤ
  pub ram : ℤ
  pub storage_gb : ℤ
  pub ha : Bool
  pub encrypted : Bool
  pub deletion_protection : Bool
  pub skip_final_snapshot : Bool
  pub zones : List Runes
  pub network_name : Runes
  pub subnet_names : List Runes
  pub security_group : Runes
  pub resource_type : Runes

-- MinStorageGB
abbrev pub min_storage_gb : ℤ
min_storage_gb = pos 20

-- ErrDBClassNotFound, with the nearest sizes.
pub data ClassFault : Type 0 where
  class_not_found : List MdbRow → ClassFault

-- MDBCatalog
pub record MdbCatalog : Type 0 where
  pub resolve_region : RegionCatalog
  pub resolve_db_class : Runes → Runes → Runes → ℤ → ℤ → Result ClassFault MdbRow

-- What TranslateManagedDatabase complains of.
pub data DbFault : Type 0 where
  no_region : DbFault
  no_provider : DbFault
  unknown_provider : DbFault
  bad_engine : DbFault
  bad_cpu : DbFault
  bad_ram : DbFault
  bad_storage : DbFault
  region_not_found : DbFault
  no_class : ClassFault → DbFault

abbrev pub is_mysql : Runes → Bool
is_mysql e = text_eq e mysql || text_eq e (codes "mariadb")

abbrev pub is_postgres : Runes → Bool
is_postgres e = text_eq e postgres || text_eq e (codes "postgresql") || text_eq e (codes "pg")

-- canonicalEngine
unfoldable pub canonical_engine : Runes → Runes
canonical_engine e =
    if is_mysql (normal e) then mysql else if is_postgres (normal e) then postgres else postgres

-- validateManagedDatabaseSpec
unfoldable pub validate_managed_database_spec : ManagedDatabaseSpec → Result DbFault (Unit {0})
validate_managed_database_spec spec = do
  guard (not (is_empty (trim_space spec.region))) no_region
  guard (not (is_empty (trim_space spec.provider))) no_provider
  guard (is_some (provider_to_csp spec.provider)) unknown_provider
  guard
      (is_empty (normal spec.engine)
        || is_postgres (normal spec.engine)
        || is_mysql (normal spec.engine))
      bad_engine
  guard (leb_ℤ (pos 1) spec.cpu) bad_cpu
  guard (leb_ℤ (pos 1) spec.ram) bad_ram
  guard (leb_ℤ (pos 0) spec.storage_gb) bad_storage

abbrev text_or_empty : Option Runes → Runes
text_or_empty none = []
text_or_empty (some s) = s

abbrev pub engine_version : ManagedDatabaseSpec → Runes
engine_version spec =
    or_default (text_or_empty (lookup_runes (canonical_engine spec.engine) default_engine_versions))
      (trim_space spec.version)

-- A storage below the minimum is raised to it.
abbrev pub db_storage : ℤ → ℤ
db_storage requested = if ltb_ℤ requested min_storage_gb then min_storage_gb else requested

-- The value that a pointer has, or a default.
abbrev pub value_or : Bool → Option Bool → Bool
value_or default none = default
value_or default (some b) = b

abbrev zone_count : List Runes → ℕ
zone_count subnets = if is_empty subnets then 1 else length subnets

-- The switch over the provider; others have no resource type.
unfoldable pub db_resource_type : Runes → Runes → Runes
db_resource_type p engine =
    if text_eq p aws
    then codes "aws_db_instance"
    else if text_eq p gcp
    then codes "google_sql_database_instance"
    else if text_eq p digitalocean
    then codes "digitalocean_database_cluster"
    else if text_eq p azure
    then (if text_eq engine mysql
        then codes "azurerm_mysql_flexible_server"
        else codes "azurerm_postgresql_flexible_server")
    else if text_eq p linode
    then codes "linode_database_postgresql_v2"
    else if text_eq p ubicloud
    then codes "ubicloud_postgres"
    else if text_eq p oracle
    then (if text_eq engine mysql
        then codes "oci_mysql_mysql_db_system"
        else codes "oci_psql_db_system")
    else if text_eq p ibm
    then codes "ibm_database"
    else if text_eq p alibaba
    then codes "alicloud_db_instance"
    else if text_eq p ovh
    then codes "ovh_cloud_project_database"
    else if text_eq p stackit
    then (if text_eq engine mysql
        then codes "stackit_mariadb_instance"
        else codes "stackit_postgresflex_instance")
    else []

unfoldable pub managed_database_plan :
    ManagedDatabaseSpec → RegionRow → MdbRow → ManagedDatabasePlan
managed_database_plan spec row class = record {
  provider = normal spec.provider;
  csp = row.csp;
  region_name = row.region_name;
  csp_region = row.csp_region;
  db_name = or_default (codes "pyxcloud-db") spec.name;
  engine = canonical_engine spec.engine;
  engine_version = engine_version spec;
  db_class = class.name;
  family = class.family;
  cpu = class.cpu;
  ram = class.ram;
  storage_gb = db_storage spec.storage_gb;
  ha = spec.ha;
  encrypted = spec.encrypted;
  deletion_protection = value_or true spec.deletion_protection;
  skip_final_snapshot = value_or false spec.skip_final_snapshot;
  zones = derive_zones (normal spec.provider) row.csp_region (zone_count spec.subnets);
  network_name = spec.network;
  subnet_names = spec.subnets;
  security_group = spec.security_group;
  resource_type = db_resource_type (normal spec.provider) (canonical_engine spec.engine);
}

abbrev pub region_found : Option RegionRow → Result DbFault RegionRow
region_found none = err region_not_found
region_found (some row) = ok row

abbrev pub class_found : Result ClassFault MdbRow → Result DbFault MdbRow
class_found (ok class) = ok class
class_found (err fault) = err (no_class fault)

-- TranslateManagedDatabase
unfoldable pub translate_managed_database :
    MdbCatalog → ManagedDatabaseSpec → Result DbFault ManagedDatabasePlan
translate_managed_database cat spec = do
  validate_managed_database_spec spec
  row ← region_found (cat.resolve_region spec.region spec.provider)
  class ←
      class_found (
        cat.resolve_db_class row.csp row.csp_region (canonical_engine spec.engine) spec.cpu
          spec.ram)
  ok (managed_database_plan spec row class)

-- The distance of a class from the requested size.
unfoldable pub db_distance : ℤ → ℤ → MdbRow → ℤ
db_distance cpu ram r = add64 (mul64 (abs (sub64 r.cpu cpu)) (pos 4)) (abs (sub64 r.ram ram))

-- The order of nearestDBSizes: by distance, then by name.
unfoldable pub is_nearer_db : ℤ → ℤ → MdbRow → MdbRow → Bool
is_nearer_db cpu ram a b =
    ltb_ℤ (db_distance cpu ram a) (db_distance cpu ram b)
    || eq_ℤ (db_distance cpu ram a) (db_distance cpu ram b) && leb_runes a.name b.name

-- nearestDBSizes
unfoldable pub nearest_db_sizes : List MdbRow → ℤ → ℤ → ℕ → List MdbRow
nearest_db_sizes candidates cpu ram n = take n (sort (is_nearer_db cpu ram) candidates)
