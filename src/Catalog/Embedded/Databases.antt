-- ===== src/Catalog/Embedded/Databases.antt =====
-- What ResolveDBClass of internal/catalog/embedded.go chooses.
use mathlib.Core.List.{Perm}
use terraform_provider_pyxcl.Prelude.{
  ◌≡◌, refl, ◌↔◌, Bool, true, false, ◌&&◌, List, [], ◌∷◌, arith, All, filter, In, All-weaken,
}
use terraform_provider_pyxcl.Prelude.Int.{ℤ, eq_ℤ, eq_ℤ_iff}
use terraform_provider_pyxcl.Prelude.Least.{
  least_by, Leads, Chooses, least_by-Leads, All-filters, In-filters,
}
use terraform_provider_pyxcl.Prelude.Results.{Result, ok, err}
use terraform_provider_pyxcl.GoLang.Map.{keyed, entries}
use terraform_provider_pyxcl.GoLang.Sort.{
  sort, is_sorted, sort-perm, sort-is_sorted, leb_runes, ltb_runes, ltb_runes_leb, leb_runes_total,
  leb_runes_trans, leb_runes_refl,
}
use terraform_provider_pyxcl.GoLang.Text.{Runes}
use terraform_provider_pyxcl.Catalog.ManagedDatabase.{
  MdbRow, ClassFault, class_not_found, MdbCatalog, is_nearer_db, nearest_db_sizes,
}
use terraform_provider_pyxcl.Catalog.VirtualMachine.Sizes.{take}
use terraform_provider_pyxcl.Catalog.Embedded.{
  EmbeddedCatalog, key_of_mdb, mdb_region_engine_key, resolve_region,
}
use terraform_provider_pyxcl.Catalog.Embedded.Indexed.{IsIndexed}

abbrev has_db_size : ℤ → ℤ → MdbRow → Bool
has_db_size cpu ram r = eq_ℤ r.cpu cpu && eq_ℤ r.ram ram

-- The test by which the loop over exact[1:] takes a row.
abbrev is_named_before : MdbRow → MdbRow → Bool
is_named_before r best = ltb_runes r.name best.name

-- What follows the loop over the candidates.
unfoldable pub pick_db_class : ℤ → ℤ → List MdbRow → List MdbRow → Result ClassFault MdbRow
pick_db_class cpu ram candidates [] = err (class_not_found (nearest_db_sizes candidates cpu ram 5))
pick_db_class cpu ram candidates (r ∷ rs) = ok (least_by is_named_before r rs)

-- ResolveDBClass
unfoldable pub resolve_db_class :
    EmbeddedCatalog → Runes → Runes → Runes → ℤ → ℤ → Result ClassFault MdbRow
resolve_db_class c csp csp_region engine cpu ram =
    let candidates = entries (mdb_region_engine_key csp csp_region engine) c.mdb_by_region_eng in
    pick_db_class cpu ram candidates (filter (has_db_size cpu ram) candidates)

-- The catalog as an MDBCatalog.
unfoldable pub embedded_mdb : EmbeddedCatalog → MdbCatalog
embedded_mdb c = record { resolve_region = resolve_region c; resolve_db_class = resolve_db_class c }

-- A row of this key and size.
abbrev pub IsSized : Runes → ℤ → ℤ → MdbRow → Type 0
IsSized k cpu ram r = (keyed key_of_mdb k r ≡ true) × (r.cpu ≡ cpu) × (r.ram ≡ ram)

abbrev IsNamedFirst : MdbRow → MdbRow → Type 0
IsNamedFirst a b = leb_runes a.name b.name ≡ true

is_named_before-Chooses : Chooses is_named_before IsNamedFirst
is_named_before-Chooses = record {
  self = λ a. leb_runes_refl a.name;
  trans = λ a b c h k. leb_runes_trans a.name b.name c.name h k;
  taken =
      λ r best h. ground (arith, ltb_runes_leb r.name best.name, leb_runes_total best.name r.name);
  left = λ r best h. ground (arith, ltb_runes_leb r.name best.name);
}

-- The class that a request should get: it has the size, and of all rows that have it the least name.
pub record IsClass (rows : List MdbRow) (k : Runes) (cpu ram : ℤ) (class : MdbRow) : Type 0 where
  pub listed : In class rows
  pub sized : IsSized k cpu ram class
  pub first : All (λ r. IsSized k cpu ram r → IsNamedFirst class r) rows

-- The first five in the order of nearness.
abbrev AreNearestDbs : List MdbRow → ℤ → ℤ → List MdbRow → Type 0
AreNearestDbs candidates cpu ram near =
    (sorted : List MdbRow) × Perm sorted candidates
    × (is_sorted (is_nearer_db cpu ram) sorted ≡ true)
    × (near ≡ take 5 sorted)

-- What a result tells: the class, or that no row has the size, with the nearest sizes.
abbrev pub ResolvesDb :
    EmbeddedCatalog → Runes → Runes → Runes → ℤ → ℤ → Result ClassFault MdbRow → Type 0
ResolvesDb c csp csp_region engine cpu ram (ok class) =
    IsClass c.mdb_rows (mdb_region_engine_key csp csp_region engine) cpu ram class
ResolvesDb c csp csp_region engine cpu ram (err (class_not_found near)) =
    All (λ r. IsSized (mdb_region_engine_key csp csp_region engine) cpu ram r → ⊥) c.mdb_rows
    × AreNearestDbs
        (filter (keyed key_of_mdb (mdb_region_engine_key csp csp_region engine)) c.mdb_rows) cpu ram
        near

has_db_size-equal :
    (cpu ram : ℤ) (r : MdbRow) → (has_db_size cpu ram r ≡ true) ↔ ((r.cpu ≡ cpu) × (r.ram ≡ ram))
has_db_size-equal cpu ram r = ground (arith, eq_ℤ_iff r.cpu cpu, eq_ℤ_iff r.ram ram)

is_nearer_db_total :
    (cpu ram : ℤ) (a b : MdbRow)
    → is_nearer_db cpu ram a b ≡ false
    → is_nearer_db cpu ram b a ≡ true
unfolding is_nearer_db
is_nearer_db_total cpu ram a b h = ground (arith, leb_runes_total a.name b.name)

nearest_db_sizes-AreNearestDbs :
    (candidates : List MdbRow) (cpu ram : ℤ)
    → AreNearestDbs candidates cpu ram (nearest_db_sizes candidates cpu ram 5)
unfolding nearest_db_sizes
nearest_db_sizes-AreNearestDbs candidates cpu ram = (
  sort (is_nearer_db cpu ram) candidates,
  sort-perm (is_nearer_db cpu ram) candidates,
  sort-is_sorted (is_nearer_db cpu ram) (is_nearer_db_total cpu ram) candidates,
  refl,
)

module _ (c : EmbeddedCatalog) (csp csp_region engine : Runes) (cpu ram : ℤ) where
  abbrev key : Runes
  key = mdb_region_engine_key csp csp_region engine

  abbrev of_key : List MdbRow
  of_key = filter (keyed key_of_mdb key) c.mdb_rows

  abbrev of_size : List MdbRow
  of_size = filter (has_db_size cpu ram) of_key

  of_size-IsSized :
      (Q : MdbRow → Type 0) → All Q of_size → All (λ r. IsSized key cpu ram r → Q r) c.mdb_rows
  of_size-IsSized Q h =
      All-weaken _ _ c.mdb_rows
        (λ r f (keyed, cpu_same, ram_same).
          f keyed ((has_db_size-equal cpu ram r).1 (cpu_same, ram_same)))
        (All-filters Q (keyed key_of_mdb key) (has_db_size cpu ram) c.mdb_rows h)

  Leads-IsClass :
      (class : MdbRow) → Leads IsNamedFirst of_size class → IsClass c.mdb_rows key cpu ram class
  Leads-IsClass class (h, first) =
      let found = In-filters (keyed key_of_mdb key) (has_db_size cpu ram) class c.mdb_rows h in
      let size = (has_db_size-equal cpu ram class).0 found.2 in
      record {
        listed = found.0;
        sized = (found.1, size.0, size.1);
        first = of_size-IsSized (IsNamedFirst class) first;
      }

  pick_db_class-ResolvesDb :
      (xs : List MdbRow)
      → of_size ≡ xs
      → ResolvesDb c csp csp_region engine cpu ram (pick_db_class cpu ram of_key xs)
  unfolding pick_db_class
  pick_db_class-ResolvesDb [] e =
      (of_size-IsSized (λ _. ⊥) (rw e tt), nearest_db_sizes-AreNearestDbs of_key cpu ram)
  pick_db_class-ResolvesDb (r ∷ rs) e =
      Leads-IsClass (least_by is_named_before r rs)
        (rw e (least_by-Leads is_named_before IsNamedFirst is_named_before-Chooses r rs))

  -- In a catalog whose index agrees with its rows: the resolution of a class succeeds with the row of
  -- the least name among those that have the requested provider, region, engine, CPUs and memory; or it
  -- fails since no row has them, and then tells the first five of the provider, region and engine in the
  -- order of their distance.
  pub resolve_db_class-ResolvesDb :
      IsIndexed c
      → ResolvesDb c csp csp_region engine cpu ram
          (resolve_db_class c csp csp_region engine cpu ram)
  unfolding resolve_db_class
  resolve_db_class-ResolvesDb h = rw (h.mdbs key) (pick_db_class-ResolvesDb of_size refl)
