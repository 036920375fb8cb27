-- ===== src/Catalog/Embedded/Indexed.antt =====
-- The indexes of the catalog agree with its rows (internal/catalog/embedded.go).
use terraform_provider_pyxcl.Prelude.{
  refl, Option, none, some, List, [], ◌∷◌, ◌++◌, inl, inr, Bool-cases, append_snoc, append_nil,
}
use terraform_provider_pyxcl.Prelude.Results.{OnOk, OnOk-bind, OnOk-bind_eq, OnOk-weaken}
use terraform_provider_pyxcl.GoLang.Map.{
  Map, lookup_runes, entries, set_absent, append_at, FirstOf, AllOf, FirstOf-set_absent,
  AllOf-append_at,
}
use terraform_provider_pyxcl.GoLang.Text.{codes, text_eq}
use terraform_provider_pyxcl.Catalog.Names.{normal, RegionRow}
use terraform_provider_pyxcl.Catalog.VirtualMachine.{VmRow, OsImageRow}
use terraform_provider_pyxcl.Catalog.Embedded.{
  EmbeddedCatalog, key_of_region, key_of_vm, key_of_mdb,
}
use terraform_provider_pyxcl.Catalog.ManagedDatabase.{MdbRow}
use terraform_provider_pyxcl.Catalog.Embedded.Load.{
  CsvRecord, column, Snapshots, parse_table, region_row_of, vm_row_of, os_row_of, mdb_row_of,
  index_regions, index_vms, index_mdbs, indexed, load_shared, add_region, add_vm, add_image,
  add_mdb,
}
use terraform_provider_pyxcl.Catalog.Embedded.Linode.{
  linode_region, linode_vm, linode_mdb, fold_linode_record, fold_linode_records,
  fold_linode_catalog,
}

-- A region name resolves to the first row with its key, and a key of machines or databases to all the
-- rows with that key, in their order.
pub record IsIndexed (c : EmbeddedCatalog) : Type 0 where
  pub regions : FirstOf key_of_region c.rows c.by_csp_region
  pub vms : AllOf key_of_vm c.vm_rows c.vm_by_region_arch
  pub mdbs : AllOf key_of_mdb c.mdb_rows c.mdb_by_region_eng

index_regions-FirstOf :
    (before rows : List RegionRow) (m : Map RegionRow)
    → FirstOf key_of_region before m
    → FirstOf key_of_region (before ++ rows) (index_regions rows m)
unfolding index_regions
index_regions-FirstOf before [] m h k = rw (append_nil before) (h k)
index_regions-FirstOf before (r ∷ rows) m h k =
    let next =
      index_regions-FirstOf (before ++ r ∷ []) rows (set_absent (key_of_region r) r m)
        (FirstOf-set_absent key_of_region before m r h) k in
    rw (append_snoc before r rows) at next

index_vms-AllOf :
    (before rows : List VmRow) (m : Map (List VmRow))
    → AllOf key_of_vm before m
    → AllOf key_of_vm (before ++ rows) (index_vms rows m)
unfolding index_vms
index_vms-AllOf before [] m h k = rw (append_nil before) (h k)
index_vms-AllOf before (r ∷ rows) m h k =
    let next =
      index_vms-AllOf (before ++ r ∷ []) rows (append_at (key_of_vm r) r m)
        (AllOf-append_at key_of_vm before m r h) k in
    rw (append_snoc before r rows) at next

index_mdbs-AllOf :
    (before rows : List MdbRow) (m : Map (List MdbRow))
    → AllOf key_of_mdb before m
    → AllOf key_of_mdb (before ++ rows) (index_mdbs rows m)
unfolding index_mdbs
index_mdbs-AllOf before [] m h k = rw (append_nil before) (h k)
index_mdbs-AllOf before (r ∷ rows) m h k =
    let next =
      index_mdbs-AllOf (before ++ r ∷ []) rows (append_at (key_of_mdb r) r m)
        (AllOf-append_at key_of_mdb before m r h) k in
    rw (append_snoc before r rows) at next

pub indexed-IsIndexed :
    (rows : List RegionRow) (vm_rows : List VmRow) (os_rows : List OsImageRow)
    (mdb_rows : List MdbRow)
    → IsIndexed (indexed rows vm_rows os_rows mdb_rows)
unfolding indexed entries lookup_runes
indexed-IsIndexed rows vm_rows os_rows mdb_rows = record {
  regions = index_regions-FirstOf [] rows [] (λ k. refl);
  vms = index_vms-AllOf [] vm_rows [] (λ k. refl);
  mdbs = index_mdbs-AllOf [] mdb_rows [] (λ k. refl);
}

load_shared-IsIndexed : (s : Snapshots) → OnOk IsIndexed (load_shared s)
unfolding load_shared
load_shared-IsIndexed s = OnOk-bind_eq IsIndexed (parse_table region_row_of s.regions) _ (λ a _.
    OnOk-bind_eq IsIndexed (parse_table region_row_of s.ibm_regions) _ (λ b _.
      OnOk-bind_eq IsIndexed (parse_table region_row_of s.cloudflare_regions) _ (λ c _.
        OnOk-bind_eq IsIndexed (parse_table vm_row_of s.vms) _ (λ d _.
          OnOk-bind_eq IsIndexed (parse_table vm_row_of s.ibm_vms) _ (λ e _.
            OnOk-bind_eq IsIndexed (parse_table os_row_of s.images) _ (λ f _.
              OnOk-bind_eq IsIndexed (parse_table os_row_of s.ibm_images) _ (λ g _.
                OnOk-bind_eq IsIndexed (parse_table mdb_row_of s.mdbs) _ (λ h _.
                  OnOk-bind_eq IsIndexed (parse_table mdb_row_of s.ibm_mdbs) _
                    (λ i _. indexed-IsIndexed ((a ++ b) ++ c) (d ++ e) (f ++ g) (h ++ i))))))))))

fold_linode_record-IsIndexed :
    (c : EmbeddedCatalog) (rec : CsvRecord)
    → IsIndexed c
    → OnOk IsIndexed (fold_linode_record c rec)
unfolding fold_linode_record add_region add_vm add_image add_mdb
fold_linode_record-IsIndexed c rec h =
    let kind = normal (column 0 rec) in
    elim (Bool-cases (text_eq kind (codes "region"))) [
      | inl e ↦ rw e (record {
        regions =
            FirstOf-set_absent key_of_region c.rows c.by_csp_region (linode_region rec) h.regions;
        vms = h.vms;
        mdbs = h.mdbs;
      })
      | inr e ↦ rw e (elim (Bool-cases (text_eq kind (codes "vm"))) [
        | inl f ↦ rw f (record {
          regions = h.regions;
          vms = AllOf-append_at key_of_vm c.vm_rows c.vm_by_region_arch (linode_vm rec) h.vms;
          mdbs = h.mdbs;
        })
        | inr f ↦ rw f (elim (Bool-cases (text_eq kind (codes "os"))) [
          | inl g ↦ rw g (record { regions = h.regions; vms = h.vms; mdbs = h.mdbs })
          | inr g ↦ rw g (elim (Bool-cases (text_eq kind (codes "mdb"))) [
            | inl i ↦ rw i (record {
              regions = h.regions;
              vms = h.vms;
              mdbs =
                  AllOf-append_at key_of_mdb c.mdb_rows c.mdb_by_region_eng (linode_mdb rec) h.mdbs;
            })
            | inr i ↦ rw i tt
          ])
        ])
      ])
    ]

fold_linode_records-IsIndexed :
    (c : EmbeddedCatalog) (records : List CsvRecord)
    → IsIndexed c
    → OnOk IsIndexed (fold_linode_records c records)
unfolding fold_linode_records
fold_linode_records-IsIndexed c [] h = h
fold_linode_records-IsIndexed c (rec ∷ records) h =
    OnOk-bind IsIndexed IsIndexed (fold_linode_record c rec) _
      (fold_linode_record-IsIndexed c rec h) (λ c' h'. fold_linode_records-IsIndexed c' records h')

fold_linode_catalog-IsIndexed :
    (c : EmbeddedCatalog) (records : Option (List CsvRecord))
    → IsIndexed c
    → OnOk IsIndexed (fold_linode_catalog c records)
unfolding fold_linode_catalog
fold_linode_catalog-IsIndexed c none h = tt
fold_linode_catalog-IsIndexed c (some []) h = h
fold_linode_catalog-IsIndexed c (some (header ∷ records)) h =
    fold_linode_records-IsIndexed c records h

-- Where the shared snapshots load, the catalog's indexes agree with its rows, and so they do after the
-- Linode snapshot is folded into it, where that succeeds: a region's key has the first row with that
-- key, and a key of machines or databases has all the rows with that key, in their order.
pub load_shared-fold_linode_catalog :
    (s : Snapshots) (records : Option (List CsvRecord))
    → OnOk (λ c. IsIndexed c × OnOk IsIndexed (fold_linode_catalog c records)) (load_shared s)
load_shared-fold_linode_catalog s records =
    OnOk-weaken IsIndexed _ (load_shared s) (load_shared-IsIndexed s)
      (λ c h. (h, fold_linode_catalog-IsIndexed c records h))
