-- ===== src/Catalog/ManagedDatabase/Planned.antt =====
-- TranslateManagedDatabase over the catalog in memory (internal/catalog/manageddatabase.go and
-- embedded.go).
use terraform_provider_pyxcl.Prelude.{
  ◌≡◌, refl, Bool, true, false, Option, none, some, arith, find, ◌⊎◌,
}
use terraform_provider_pyxcl.Prelude.Int.{ℤ, pos, negsuc, leb_ℤ}
use terraform_provider_pyxcl.Prelude.Results.{Result, ok, err, OnOk, OnOk-bind_eq, OnOk_apply}
use terraform_provider_pyxcl.GoLang.Map.{keyed}
use terraform_provider_pyxcl.GoLang.Text.{Runes}
use terraform_provider_pyxcl.Catalog.Names.{provider_to_csp, RegionRow}
use terraform_provider_pyxcl.Catalog.Embedded.{
  EmbeddedCatalog, key_of_region, region_key, mdb_region_engine_key, resolve_region,
}
use terraform_provider_pyxcl.Catalog.Embedded.Databases.{
  IsClass, resolve_db_class, resolve_db_class-ResolvesDb, embedded_mdb,
}
use terraform_provider_pyxcl.Catalog.Embedded.Indexed.{IsIndexed}
use terraform_provider_pyxcl.Catalog.Embedded.Translated.{resolve_region-located}
use terraform_provider_pyxcl.Catalog.ManagedDatabase.{
  MdbRow, ManagedDatabaseSpec, ManagedDatabasePlan, ClassFault, region_found, class_found, postgres,
  mysql, canonical_engine, min_storage_gb, db_storage, value_or, validate_managed_database_spec,
  managed_database_plan, translate_managed_database,
}

-- Storage that is at least the minimum and the request, and is the request if that is enough.
pub record IsStorage (requested storage : ℤ) : Type 0 where
  pub at_least : leb_ℤ min_storage_gb storage ≡ true
  pub enough : leb_ℤ requested storage ≡ true
  pub as_requested : leb_ℤ min_storage_gb requested ≡ true → storage ≡ requested

db_storage-IsStorage : (requested : ℤ) → IsStorage requested (db_storage requested)
db_storage-IsStorage (pos n) = record {
  at_least = ground arith;
  enough = ground arith;
  as_requested = ground arith;
}
db_storage-IsStorage (negsuc n) = record {
  at_least = ground arith;
  enough = ground arith;
  as_requested = ground arith;
}

-- A switch that is what a spec says, or else its default.
pub record IsSwitched (default : Bool) (said : Option Bool) (value : Bool) : Type 0 where
  pub unsaid : said ≡ none → value ≡ default
  pub as_said : (b : Bool) → said ≡ some b → value ≡ b

value_or-IsSwitched :
    (default : Bool) (said : Option Bool) → IsSwitched default said (value_or default said)
value_or-IsSwitched default none = record { unsaid = λ _. refl; as_said = λ b h. cc h }
value_or-IsSwitched default (some a) = record { unsaid = λ h. cc h; as_said = λ b h. cc h }

canonical_engine-either :
    (e : Runes) → (canonical_engine e ≡ postgres) ⊎ (canonical_engine e ≡ mysql)
unfolding canonical_engine
canonical_engine-either e = ground arith

-- A plan of a database that comes from rows of the catalog, and is safe where the spec says nothing.
pub record IsPlannedDb (c : EmbeddedCatalog) (spec : ManagedDatabaseSpec)
    (plan : ManagedDatabasePlan) : Type 0 where
  pub csp : Runes
  pub known : provider_to_csp spec.provider ≡ some csp
  pub row : RegionRow
  pub located : find (keyed key_of_region (region_key csp spec.region)) c.rows ≡ some row
  pub csp_same : plan.csp ≡ row.csp
  pub region_same : plan.csp_region ≡ row.csp_region
  pub class : MdbRow
  pub chosen :
      IsClass c.mdb_rows
        (mdb_region_engine_key plan.csp plan.csp_region plan.engine)
        spec.cpu
        spec.ram
        class
  pub class_same : plan.db_class ≡ class.name
  pub family_same : plan.family ≡ class.family
  pub cpu_same : plan.cpu ≡ spec.cpu
  pub ram_same : plan.ram ≡ spec.ram
  pub engine_known : (plan.engine ≡ postgres) ⊎ (plan.engine ≡ mysql)
  pub storage : IsStorage spec.storage_gb plan.storage_gb
  pub protection : IsSwitched true spec.deletion_protection plan.deletion_protection
  pub snapshot : IsSwitched false spec.skip_final_snapshot plan.skip_final_snapshot

found_ok : (o : Option RegionRow) (row : RegionRow) → region_found o ≡ ok row → o ≡ some row
found_ok none row h = cc
found_ok (some b) row h = cc

class_found_ok :
    (m : Result ClassFault MdbRow) (class : MdbRow) → class_found m ≡ ok class → m ≡ ok class
class_found_ok (ok s) class h = cc
class_found_ok (err fault) class h = cc

module _ (c : EmbeddedCatalog) (spec : ManagedDatabaseSpec) (indexed : IsIndexed c) where
  planned : OnOk (IsPlannedDb c spec) (translate_managed_database (embedded_mdb c) spec)
  unfolding translate_managed_database embedded_mdb managed_database_plan
  planned = OnOk-bind_eq _ (validate_managed_database_spec spec) _ (λ _ _.
      OnOk-bind_eq _ (region_found (resolve_region c spec.region spec.provider)) _ (λ row e.
        OnOk-bind_eq _
          (class_found (
            resolve_db_class c row.csp row.csp_region (canonical_engine spec.engine) spec.cpu
              spec.ram))
          _
          (λ class f.
            let region =
              resolve_region-located c spec.region spec.provider row indexed (found_ok _ row e) in
            let h =
              resolve_db_class-ResolvesDb c row.csp row.csp_region (canonical_engine spec.engine)
                spec.cpu spec.ram indexed in
            let h' = rw (class_found_ok _ class f) at h in
            let size = h'.sized in
            record {
              csp = region.0;
              known = region.1;
              row = row;
              located = region.2;
              csp_same = refl;
              region_same = refl;
              class = class;
              chosen = h';
              class_same = refl;
              family_same = refl;
              cpu_same = size.1;
              ram_same = size.2;
              engine_known = canonical_engine-either spec.engine;
              storage = db_storage-IsStorage spec.storage_gb;
              protection = value_or-IsSwitched true spec.deletion_protection;
              snapshot = value_or-IsSwitched false spec.skip_final_snapshot;
            })))

  -- Over a catalog whose indexes agree with its rows: a plan of a database has the region row that the
  -- catalog lists first for this name and provider, and the class of the least name for the engine,
  -- CPUs, memory and region, just those CPUs and memory, and PostgreSQL or MySQL as its engine. Its
  -- storage is the request, raised to 20 GiB; it is protected against deletion and takes a final
  -- snapshot unless the spec says otherwise.
  pub translate_managed_database-IsPlannedDb :
      (plan : ManagedDatabasePlan)
      → translate_managed_database (embedded_mdb c) spec ≡ ok plan
      → IsPlannedDb c spec plan
  translate_managed_database-IsPlannedDb plan h = OnOk_apply _ _ plan planned h
