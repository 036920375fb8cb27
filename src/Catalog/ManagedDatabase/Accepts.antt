-- ===== src/Catalog/ManagedDatabase/Accepts.antt =====
-- Which databases are translated (internal/catalog/manageddatabase.go).
use terraform_provider_pyxcl.Prelude.{
  ◌≡◌, Bool, false, not, ◌&&◌, ◌||◌, Option, none, some, arith, is_some,
}
use terraform_provider_pyxcl.Prelude.Int.{pos, leb_ℤ}
use terraform_provider_pyxcl.Prelude.Results.{is_ok}
use terraform_provider_pyxcl.GoLang.Text.{trim_space}
use terraform_provider_pyxcl.Catalog.Names.{normal, provider_to_csp, RegionRow, is_empty}
use terraform_provider_pyxcl.Catalog.ManagedDatabase.{
  ManagedDatabaseSpec, MdbCatalog, is_mysql, is_postgres, canonical_engine,
  validate_managed_database_spec, translate_managed_database,
}

-- A spec with a region, a known provider, an engine that is known or left out, and numbers in their
-- bounds.
abbrev pub is_valid_db : ManagedDatabaseSpec → Bool
is_valid_db spec =
    not (is_empty (trim_space spec.region))
    && not (is_empty (trim_space spec.provider))
    && is_some (provider_to_csp spec.provider)
    && (is_empty (normal spec.engine)
        || is_postgres (normal spec.engine)
        || is_mysql (normal spec.engine))
    && leb_ℤ (pos 1) spec.cpu
    && leb_ℤ (pos 1) spec.ram
    && leb_ℤ (pos 0) spec.storage_gb

-- The catalog has the region, and there a class.
abbrev pub has_class : MdbCatalog → ManagedDatabaseSpec → Option RegionRow → Bool
has_class cat spec none = false
has_class cat spec (some row) =
    is_ok
      (cat.resolve_db_class row.csp row.csp_region (canonical_engine spec.engine) spec.cpu spec.ram)

validate_managed_database_spec-is_valid_db :
    (spec : ManagedDatabaseSpec) → is_ok (validate_managed_database_spec spec) ≡ is_valid_db spec
unfolding validate_managed_database_spec
validate_managed_database_spec-is_valid_db spec = ground arith

-- A database is translated exactly when its region and provider are not blank, the provider is known,
-- the engine is known or left out, there are at least one CPU and one GiB, the storage is not negative,
-- and the catalog has the region for the provider and, in it, a class of the size for the engine.
pub translate_managed_database-accepts :
    (cat : MdbCatalog) (spec : ManagedDatabaseSpec)
    → is_ok (translate_managed_database cat spec)
      ≡ (is_valid_db spec && has_class cat spec (cat.resolve_region spec.region spec.provider))
unfolding translate_managed_database
translate_managed_database-accepts cat spec =
    ground (arith, validate_managed_database_spec-is_valid_db spec)
