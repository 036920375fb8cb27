-- ===== src/Catalog/VirtualMachine.antt =====
-- internal/catalog/virtualmachine.go: the rows of virtual machines and images, the plan of a virtual
-- machine and the translation. The sizes that are nearest to a request are in `Sizes`.
pub mod Sizes
pub mod Instances
pub mod Accepts
use terraform_provider_pyxcl.Prelude.{
  ℕ, zero, suc, ◌+◌, Bool, true, false, not, ◌&&◌, ◌||◌, Option, none, some, List, [], ◌∷◌, ◌++◌,
  if◌then◌else◌, is_some,
}
use terraform_provider_pyxcl.Prelude.Int.{ℤ, pos, pos_part, leb_ℤ}
use terraform_provider_pyxcl.Prelude.Results.{Result, ok, err, ◌>>=◌, ◌>>◌, guard}
use terraform_provider_pyxcl.GoLang.Strconv.{itoa}
use terraform_provider_pyxcl.GoLang.Text.{Runes, codes, text_eq, to_lower, trim_space}
use terraform_provider_pyxcl.Catalog.Names.{
  aws, gcp, digitalocean, azure, linode, ubicloud, oracle, ibm, alibaba, stackit, normal,
  provider_to_csp, RegionRow, RegionCatalog, is_empty, or_default,
}

abbrev pub x86_64 : Runes
x86_64 = codes "x86_64"

abbrev pub arm64 : Runes
arm64 = codes "arm64"

abbrev pub ubuntu : Runes
ubuntu = codes "ubuntu"

abbrev pub debian : Runes
debian = codes "debian"

-- VMRow
pub record VmRow : Type 0 where
  pub name : Runes
  pub family : Runes
  pub csp : Runes
  pub csp_region : Runes
  pub architecture : Runes
  pub cpu : ℤ
  pub ram : ℤ
  pub gpu : Runes
  pub supports_autoscale : Bool

-- OSImageRow
pub record OsImageRow : Type 0 where
  pub csp : Runes
  pub csp_region : Runes
  pub os_name : Runes
  pub os_version : Runes
  pub architecture : Runes
  pub image : Runes

-- VMSpec
pub record VmSpec : Type 0 where
  pub name : Runes
  pub region : Runes
  pub provider : Runes
  pub architecture : Runes
  pub cpu : ℤ
  pub ram : ℤ
  pub os : Runes
  pub os_version : Runes
  pub count : ℤ
  pub network : Runes
  pub subnet : Runes
  pub security_group : Runes
  pub user_data : Runes
  pub instance_profile : Runes
  pub tag : Runes
  pub ssh_keys : List Runes

-- VMPlan; an instance is its name.
pub record VmPlan : Type 0 where
  pub provider : Runes
  pub csp : Runes
  pub region_name : Runes
  pub csp_region : Runes
  pub vm_name : Runes
  pub instance_type : Runes
  pub architecture : Runes
  pub cpu : ℤ
  pub ram : ℤ
  pub os_name : Runes
  pub os_version : Runes
  pub image : Runes
  pub instances : List Runes
  pub network_name : Runes
  pub subnet_name : Runes
  pub security_group : Runes
  pub user_data : Runes
  pub instance_profile : Runes
  pub instance_profile_managed : Bool
  pub tag : Runes
  pub ssh_keys : List Runes
  pub resource_type : Runes

-- Why there is no SKU: none has the size, with the nearest sizes, or the provider does not offer it.
pub data SkuFault : Type 0 where
  sku_not_found : List VmRow → SkuFault
  not_offered : Runes → SkuFault

-- VMCatalog
pub record VmCatalog : Type 0 where
  pub resolve_region : RegionCatalog
  pub resolve_sku : Runes → Runes → Runes → ℤ → ℤ → Result SkuFault VmRow
  pub resolve_image : Runes → Runes → Runes → Runes → Runes → Option OsImageRow

-- What TranslateVM complains of.
pub data VmFault : Type 0 where
  no_region : VmFault
  no_provider : VmFault
  unknown_provider : VmFault
  bad_architecture : VmFault
  bad_os : VmFault
  bad_cpu : VmFault
  bad_ram : VmFault
  bad_count : VmFault
  region_not_found : VmFault
  no_sku : SkuFault → VmFault
  image_not_found : VmFault

-- A name that is empty or one of two.
abbrev pub is_choice : Runes → Runes → Runes → Bool
is_choice a b name = is_empty name || text_eq name a || text_eq name b

-- validateVMSpec
unfoldable pub validate_vm_spec : VmSpec → Result VmFault (Unit {0})
validate_vm_spec spec = do
  guard (not (is_empty (trim_space spec.region))) no_region
  guard (not (is_empty (trim_space spec.provider))) no_provider
  guard (is_some (provider_to_csp spec.provider)) unknown_provider
  guard (is_choice x86_64 arm64 (normal spec.architecture)) bad_architecture
  guard (is_choice ubuntu debian (normal spec.os)) bad_os
  guard (leb_ℤ (pos 1) spec.cpu) bad_cpu
  guard (leb_ℤ (pos 1) spec.ram) bad_ram
  guard (leb_ℤ (pos 0) spec.count) bad_count

abbrev pub vm_architecture : VmSpec → Runes
vm_architecture spec = or_default x86_64 (normal spec.architecture)

abbrev pub vm_os : VmSpec → Runes
vm_os spec = or_default ubuntu (normal spec.os)

-- defaultOSVersions
unfoldable pub default_os_version : Runes → Runes
default_os_version os =
    if text_eq os ubuntu then codes "24.04" else if text_eq os debian then codes "12" else []

abbrev pub vm_os_version : VmSpec → Runes
vm_os_version spec = or_default (default_os_version (vm_os spec)) (trim_space spec.os_version)

abbrev pub vm_count : VmSpec → ℕ
vm_count spec = if leb_ℤ spec.count (pos 0) then 1 else pos_part spec.count

abbrev pub vm_name : VmSpec → Runes
vm_name spec = or_default (codes "pyxcloud-vm") spec.name

-- n instances from number i on
unfoldable pub instance_names : Runes → ℕ → ℕ → List Runes
instance_names name i zero = []
instance_names name i (suc n) =
    (name ++ (codes "-" ++ itoa (i + 1))) ∷ instance_names name (suc i) n

-- The switch over the provider; others have no resource type.
unfoldable pub vm_resource_type : Runes → Runes
vm_resource_type p =
    if text_eq p aws
    then codes "aws_instance"
    else if text_eq p gcp
    then codes "google_compute_instance"
    else if text_eq p digitalocean
    then codes "digitalocean_droplet"
    else if text_eq p azure
    then codes "azurerm_linux_virtual_machine"
    else if text_eq p linode
    then codes "linode_instance"
    else if text_eq p ubicloud
    then codes "ubicloud_vm"
    else if text_eq p oracle
    then codes "oci_core_instance"
    else if text_eq p ibm
    then codes "ibm_is_instance"
    else if text_eq p alibaba
    then codes "alicloud_instance"
    else if text_eq p stackit
    then codes "stackit_server"
    else []

unfoldable pub vm_plan : VmSpec → RegionRow → VmRow → OsImageRow → VmPlan
vm_plan spec row sku img = record {
  provider = to_lower spec.provider;
  csp = row.csp;
  region_name = row.region_name;
  csp_region = row.csp_region;
  vm_name = vm_name spec;
  instance_type = sku.name;
  architecture = vm_architecture spec;
  cpu = sku.cpu;
  ram = sku.ram;
  os_name = vm_os spec;
  os_version = vm_os_version spec;
  image = img.image;
  instances = instance_names (vm_name spec) 0 (vm_count spec);
  network_name = spec.network;
  subnet_name = spec.subnet;
  security_group = spec.security_group;
  user_data = spec.user_data;
  instance_profile = spec.instance_profile;
  instance_profile_managed = false;
  tag = spec.tag;
  ssh_keys = spec.ssh_keys;
  resource_type = vm_resource_type (to_lower spec.provider);
}

abbrev pub found {ℓ} : {A : Type ℓ} → VmFault → Option A → Result VmFault A
found fault none = err fault
found fault (some a) = ok a

abbrev pub sku_found : Result SkuFault VmRow → Result VmFault VmRow
sku_found (ok sku) = ok sku
sku_found (err fault) = err (no_sku fault)

-- TranslateVM
unfoldable pub translate_vm : VmCatalog → VmSpec → Result VmFault VmPlan
translate_vm cat spec = do
  validate_vm_spec spec
  row ← found region_not_found (cat.resolve_region spec.region spec.provider)
  sku ← sku_found (cat.resolve_sku row.csp row.csp_region (vm_architecture spec) spec.cpu spec.ram)
  img ← found image_not_found (
      cat.resolve_image row.csp row.csp_region (vm_os spec) (vm_os_version spec)
        (vm_architecture spec))
  ok (vm_plan spec row sku img)
