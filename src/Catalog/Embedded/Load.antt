-- ===== src/Catalog/Embedded/Load.antt =====
-- How the catalog is loaded (internal/catalog/embedded.go). The records of a snapshot, as encoding/csv
-- reads them, are arguments; `none` is an error of the reader.
use terraform_provider_pyxcl.Prelude.{
  ℕ, ◌+◌, ◌*◌, ◌^◌, ◌-◌, ◌&&◌, ◌==◌, ltb, leb, Bool, Option, none, some, List, [], ◌∷◌, ◌++◌,
  if◌then◌else◌, map, get_elem?,
}
use terraform_provider_pyxcl.Prelude.Int.{ℤ, pos, sub_ℕ}
use terraform_provider_pyxcl.Prelude.Results.{Result, ok, err, ◌>>=◌}
use terraform_provider_pyxcl.GoLang.Map.{Map, set, set_absent, append_at}
use terraform_provider_pyxcl.GoLang.Text.{Runes, codes, text_eq, to_lower, trim_space}
use terraform_provider_pyxcl.Catalog.Names.{RegionRow}
use terraform_provider_pyxcl.Catalog.VirtualMachine.{VmRow, OsImageRow}
use terraform_provider_pyxcl.Catalog.Embedded.{
  EmbeddedCatalog, key_of_region, key_of_vm, key_of_mdb, key_of_os,
}
use terraform_provider_pyxcl.Catalog.ManagedDatabase.{MdbRow}

-- A record of a table; the reader has checked how many fields it has.
abbrev pub CsvRecord : Type 0
CsvRecord = List Runes

abbrev text_or_empty : Option Runes → Runes
text_or_empty none = []
text_or_empty (some s) = s

-- rec[i]
unfoldable pub column : ℕ → CsvRecord → Runes
column i rec = text_or_empty (get_elem? rec i)

-- The value of the digits up to the first that exceeds 64 bits, where ParseUint stops with a range
-- error; `none` is a syntax error before that.
unfoldable pub digits_until : ℕ → Runes → Option ℕ
digits_until n [] = some n
digits_until n (c ∷ s) =
    let next = n * 10 + (c - b'0') in
    let rest = digits_until next s in
    if leb b'0' c && leb c b'9' then (if ltb next (2 ^ 64) then rest else some next) else none

unfoldable pub digits_or_bound : Runes → Option ℕ
digits_or_bound [] = none
digits_or_bound (c ∷ s) = digits_until 0 (c ∷ s)

-- What strconv.Atoi returns beside its error: 0, or the bound that a number exceeds.
abbrev pos_or_bound : Option ℕ → ℤ
pos_or_bound none = pos 0
pos_or_bound (some n) = if ltb n (2 ^ 63) then pos n else pos (2 ^ 63 - 1)

abbrev neg_or_bound : Option ℕ → ℤ
neg_or_bound none = pos 0
neg_or_bound (some n) = if leb n (2 ^ 63) then sub_ℕ 0 n else sub_ℕ 0 (2 ^ 63)

unfoldable pub atoi_value : Runes → ℤ
unfolding digits_or_bound
atoi_value [] = pos 0
atoi_value (c ∷ s) =
    if c == b'-'
    then neg_or_bound (digits_or_bound s)
    else if c == b'+'
    then pos_or_bound (digits_or_bound s)
    else pos_or_bound (digits_or_bound (c ∷ s))

-- atoiOrZero
unfoldable pub atoi_or_zero : Runes → ℤ
atoi_or_zero s = atoi_value (trim_space s)

-- strings.EqualFold(strings.TrimSpace(s), "true")
abbrev pub is_true : Runes → Bool
is_true s = text_eq (to_lower (trim_space s)) (codes "true")

unfoldable pub region_row_of : CsvRecord → RegionRow
region_row_of rec = record {
  macro_region = column 0 rec;
  country = column 1 rec;
  region_name = column 2 rec;
  csp_region = column 3 rec;
  csp_region_description = column 4 rec;
  csp = column 5 rec;
}

unfoldable pub vm_row_of : CsvRecord → VmRow
vm_row_of rec = record {
  name = column 0 rec;
  family = column 1 rec;
  csp = column 2 rec;
  csp_region = column 3 rec;
  architecture = column 4 rec;
  cpu = atoi_or_zero (column 5 rec);
  ram = atoi_or_zero (column 6 rec);
  gpu = column 7 rec;
  supports_autoscale = is_true (column 8 rec);
}

unfoldable pub os_row_of : CsvRecord → OsImageRow
os_row_of rec = record {
  csp = column 0 rec;
  csp_region = column 1 rec;
  os_name = column 2 rec;
  os_version = column 3 rec;
  architecture = column 4 rec;
  image = column 5 rec;
}

unfoldable pub mdb_row_of : CsvRecord → MdbRow
mdb_row_of rec = record {
  name = column 0 rec;
  family = column 1 rec;
  csp = column 2 rec;
  csp_region = column 3 rec;
  engine = column 4 rec;
  cpu = atoi_or_zero (column 5 rec);
  ram = atoi_or_zero (column 6 rec);
}

-- Why a snapshot is refused.
pub data LoadFault : Type 0 where
  malformed : LoadFault
  no_header : LoadFault
  unknown_kind : Runes → LoadFault

-- parseRegionCSV, parseVMCSV, parseOSCSV and parseMDBCSV, by what each makes of a record.
unfoldable pub parse_table {ℓ} :
    {A : Type ℓ} → (CsvRecord → A) → Option (List CsvRecord) → Result LoadFault (List A)
parse_table row_of none = err malformed
parse_table row_of (some []) = err no_header
parse_table row_of (some (header ∷ records)) = ok (map row_of records)

-- The loops of NewEmbedded over the rows.
unfoldable pub index_regions : List RegionRow → Map RegionRow → Map RegionRow
index_regions [] m = m
index_regions (r ∷ rs) m = index_regions rs (set_absent (key_of_region r) r m)

unfoldable pub index_vms : List VmRow → Map (List VmRow) → Map (List VmRow)
index_vms [] m = m
index_vms (r ∷ rs) m = index_vms rs (append_at (key_of_vm r) r m)

unfoldable pub index_images : List OsImageRow → Map OsImageRow → Map OsImageRow
index_images [] m = m
index_images (r ∷ rs) m = index_images rs (set (key_of_os r) r m)

unfoldable pub index_mdbs : List MdbRow → Map (List MdbRow) → Map (List MdbRow)
index_mdbs [] m = m
index_mdbs (r ∷ rs) m = index_mdbs rs (append_at (key_of_mdb r) r m)

-- The snapshots that NewEmbedded reads first.
pub record Snapshots : Type 0 where
  pub regions : Option (List CsvRecord)
  pub ibm_regions : Option (List CsvRecord)
  pub cloudflare_regions : Option (List CsvRecord)
  pub vms : Option (List CsvRecord)
  pub ibm_vms : Option (List CsvRecord)
  pub images : Option (List CsvRecord)
  pub ibm_images : Option (List CsvRecord)
  pub mdbs : Option (List CsvRecord)
  pub ibm_mdbs : Option (List CsvRecord)

unfoldable pub indexed :
    List RegionRow → List VmRow → List OsImageRow → List MdbRow → EmbeddedCatalog
indexed rows vm_rows os_rows mdb_rows = record {
  by_csp_region = index_regions rows [];
  rows = rows;
  vm_rows = vm_rows;
  vm_by_region_arch = index_vms vm_rows [];
  os_by_key = index_images os_rows [];
  mdb_rows = mdb_rows;
  mdb_by_region_eng = index_mdbs mdb_rows [];
}

-- NewEmbedded, up to the snapshots of single providers.
unfoldable pub load_shared : Snapshots → Result LoadFault EmbeddedCatalog
load_shared s = do
  rows ← parse_table region_row_of s.regions
  ibm_rows ← parse_table region_row_of s.ibm_regions
  cf_rows ← parse_table region_row_of s.cloudflare_regions
  vm_rows ← parse_table vm_row_of s.vms
  ibm_vm_rows ← parse_table vm_row_of s.ibm_vms
  os_rows ← parse_table os_row_of s.images
  ibm_os_rows ← parse_table os_row_of s.ibm_images
  mdb_rows ← parse_table mdb_row_of s.mdbs
  ibm_mdb_rows ← parse_table mdb_row_of s.ibm_mdbs
  ok (
      indexed ((rows ++ ibm_rows) ++ cf_rows) (vm_rows ++ ibm_vm_rows) (os_rows ++ ibm_os_rows)
        (mdb_rows ++ ibm_mdb_rows))

-- The cases of foldLinodeCatalog.
unfoldable pub add_region : EmbeddedCatalog → RegionRow → EmbeddedCatalog
add_region c r = record c {
  rows = c.rows ++ r ∷ [];
  by_csp_region = set_absent (key_of_region r) r c.by_csp_region;
}

unfoldable pub add_vm : EmbeddedCatalog → VmRow → EmbeddedCatalog
add_vm c r = record c {
  vm_rows = c.vm_rows ++ r ∷ [];
  vm_by_region_arch = append_at (key_of_vm r) r c.vm_by_region_arch;
}

unfoldable pub add_image : EmbeddedCatalog → OsImageRow → EmbeddedCatalog
add_image c r = record c { os_by_key = set (key_of_os r) r c.os_by_key }

unfoldable pub add_mdb : EmbeddedCatalog → MdbRow → EmbeddedCatalog
add_mdb c r = record c {
  mdb_rows = c.mdb_rows ++ r ∷ [];
  mdb_by_region_eng = append_at (key_of_mdb r) r c.mdb_by_region_eng;
}
