-- ===== src/Catalog/Embedded/Linode.antt =====
-- foldLinodeCatalog (internal/catalog/embedded.go), on the records of its snapshot.
use terraform_provider_pyxcl.Prelude.{Option, none, some, List, [], ◌∷◌, if◌then◌else◌}
use terraform_provider_pyxcl.Prelude.Results.{Result, ok, err, ◌>>=◌}
use terraform_provider_pyxcl.GoLang.Text.{codes, text_eq}
use terraform_provider_pyxcl.Catalog.Names.{linode, normal, RegionRow}
use terraform_provider_pyxcl.Catalog.VirtualMachine.{VmRow, OsImageRow}
use terraform_provider_pyxcl.Catalog.Embedded.{EmbeddedCatalog}
use terraform_provider_pyxcl.Catalog.ManagedDatabase.{MdbRow}
use terraform_provider_pyxcl.Catalog.Embedded.Load.{
  CsvRecord, column, atoi_or_zero, is_true, LoadFault, malformed, unknown_kind, add_region, add_vm,
  add_image, add_mdb,
}

unfoldable pub linode_region : CsvRecord → RegionRow
linode_region rec = record {
  macro_region = column 1 rec;
  country = column 2 rec;
  region_name = column 3 rec;
  csp_region = column 4 rec;
  csp_region_description = column 5 rec;
  csp = linode;
}

unfoldable pub linode_vm : CsvRecord → VmRow
linode_vm rec = record {
  name = column 1 rec;
  family = column 2 rec;
  csp = linode;
  csp_region = column 3 rec;
  architecture = column 4 rec;
  cpu = atoi_or_zero (column 5 rec);
  ram = atoi_or_zero (column 6 rec);
  gpu = column 7 rec;
  supports_autoscale = is_true (column 8 rec);
}

unfoldable pub linode_image : CsvRecord → OsImageRow
linode_image rec = record {
  csp = linode;
  csp_region = column 1 rec;
  os_name = column 2 rec;
  os_version = column 3 rec;
  architecture = column 4 rec;
  image = column 5 rec;
}

unfoldable pub linode_mdb : CsvRecord → MdbRow
linode_mdb rec = record {
  name = column 1 rec;
  family = column 2 rec;
  csp = linode;
  csp_region = column 3 rec;
  engine = column 4 rec;
  cpu = atoi_or_zero (column 5 rec);
  ram = atoi_or_zero (column 6 rec);
}

-- The switch over the kind of a record.
unfoldable pub fold_linode_record : EmbeddedCatalog → CsvRecord → Result LoadFault EmbeddedCatalog
fold_linode_record c rec =
    let kind = normal (column 0 rec) in
    if text_eq kind (codes "region")
    then ok (add_region c (linode_region rec))
    else if text_eq kind (codes "vm")
    then ok (add_vm c (linode_vm rec))
    else if text_eq kind (codes "os")
    then ok (add_image c (linode_image rec))
    else if text_eq kind (codes "mdb")
    then ok (add_mdb c (linode_mdb rec))
    else err (unknown_kind kind)

unfoldable pub fold_linode_records :
    EmbeddedCatalog → List CsvRecord → Result LoadFault EmbeddedCatalog
fold_linode_records c [] = ok c
fold_linode_records c (rec ∷ records) =
    fold_linode_record c rec >>= λ c'. fold_linode_records c' records

-- foldLinodeCatalog; the header is skipped.
unfoldable pub fold_linode_catalog :
    EmbeddedCatalog → Option (List CsvRecord) → Result LoadFault EmbeddedCatalog
fold_linode_catalog c none = err malformed
fold_linode_catalog c (some []) = ok c
fold_linode_catalog c (some (header ∷ records)) = fold_linode_records c records
