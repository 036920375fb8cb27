-- ===== src/Catalog/ScaleGroup.antt =====
-- internal/catalog/scalegroup.go: a group of machines that scales, its plan and the translation.
pub mod Bounds
pub mod Bounded
pub mod Accepts
pub mod UserData
mod Tests
use terraform_provider_pyxcl.Prelude.{
  ℕ, Bool, true, false, not, ◌&&◌, ◌||◌, Option, none, some, List, [], ◌∷◌, if◌then◌else◌, is_some,
  length,
}
use terraform_provider_pyxcl.Prelude.Int.{ℤ, pos, leb_ℤ, ltb_ℤ}
use terraform_provider_pyxcl.Prelude.Results.{Result, ok, err, ◌>>=◌, ◌>>◌, guard}
use terraform_provider_pyxcl.GoLang.Text.{Runes, codes, text_eq, trim_space}
use terraform_provider_pyxcl.Catalog.Names.{
  aws, gcp, digitalocean, azure, linode, oracle, ibm, alibaba, stackit, normal, provider_to_csp,
  RegionRow, is_empty, or_default,
}
use terraform_provider_pyxcl.Catalog.Network.Zones.{derive_zones}
use terraform_provider_pyxcl.Catalog.ScaleGroup.Bounds.{GroupBounds, normalize_bounds, bounds_for}
use terraform_provider_pyxcl.Catalog.ScaleGroup.UserData.{resolve_user_data}
use terraform_provider_pyxcl.Catalog.VirtualMachine.{
  VmRow, OsImageRow, SkuFault, VmCatalog, x86_64, arm64, ubuntu, debian, is_choice,
  default_os_version,
}

abbrev pub ec2 : Runes
ec2 = codes "ec2"

abbrev pub elb : Runes
elb = codes "elb"

-- ScaleGroupSpec; the user data of the providers are the entries of its map in the order in which the
-- range statement visits them.
pub record ScaleGroupSpec : Type 0 where
  pub name : Runes
  pub region : Runes
  pub provider : Runes
  pub architecture : Runes
  pub cpu : ℤ
  pub ram : ℤ
  pub os : Runes
  pub os_version : Runes
  pub min : ℤ
  pub max : ℤ
  pub desired : ℤ
  pub health : Runes
  pub user_data : Runes
  pub user_data_by_provider : List (Runes × Runes)
  pub instance_profile : Runes
  pub root_disk_gb : ℤ
  pub kubernetes_version : Runes
  pub network : Runes
  pub subnets : List Runes
  pub security_group : Runes
  pub tag : Runes
  pub ssh_keys : List Runes

-- ScaleGroupPlan
pub record ScaleGroupPlan : Type 0 where
  pub provider : Runes
  pub csp : Runes
  pub region_name : Runes
  pub csp_region : Runes
  pub group_name : Runes
  pub instance_type : Runes
  pub architecture : Runes
  pub cpu : ℤ
  pub ram : ℤ
  pub os_name : Runes
  pub os_version : Runes
  pub image : Runes
  pub min : ℤ
  pub max : ℤ
  pub desired : ℤ
  pub health : Runes
  pub user_data : Runes
  pub instance_profile : Runes
  pub instance_profile_managed : Bool
  pub root_disk_gb : ℤ
  pub zones : List Runes
  pub network_name : Runes
  pub subnet_names : List Runes
  pub security_group : Runes
  pub tag : Runes
  pub ssh_keys : List Runes
  pub resource_type : Runes
  pub do_project : Runes
  pub kubernetes_version : Runes

-- ErrAutoscaleUnsupported
pub record AutoscaleUnsupported : Type 0 where
  pub provider : Runes
  pub csp : Runes
  pub csp_region : Runes

-- What TranslateScaleGroup complains of.
pub data GroupFault : Type 0 where
  no_region : GroupFault
  no_provider : GroupFault
  unknown_provider : GroupFault
  bad_architecture : GroupFault
  bad_os : GroupFault
  bad_cpu : GroupFault
  bad_ram : GroupFault
  bad_min : GroupFault
  bad_max : GroupFault
  bad_desired : GroupFault
  max_below_min : GroupFault
  desired_below_min : GroupFault
  desired_above_max : GroupFault
  bad_health : GroupFault
  region_not_found : GroupFault
  autoscale_unsupported : AutoscaleUnsupported → GroupFault
  no_sku : SkuFault → GroupFault
  image_not_found : GroupFault

abbrev pub is_elb : Runes → Bool
is_elb h =
    text_eq h elb
    || text_eq h (codes "lb")
    || text_eq h (codes "load-balancer")
    || text_eq h (codes "loadbalancer")

abbrev pub is_health : Runes → Bool
is_health h =
    is_empty h
    || text_eq h ec2
    || text_eq h (codes "vm")
    || text_eq h (codes "instance")
    || is_elb h

-- canonicalHealth
unfoldable pub canonical_health : Runes → Runes
canonical_health h = if is_elb h then elb else ec2

-- The bounds' tests of validateScaleGroupSpec.
unfoldable pub validate_bounds : ℤ → ℤ → ℤ → Result GroupFault (Unit {0})
validate_bounds min max desired = do
  guard (leb_ℤ (pos 0) min) bad_min
  guard (leb_ℤ (pos 0) max) bad_max
  guard (leb_ℤ (pos 0) desired) bad_desired
  guard (not (ltb_ℤ (pos 0) max && ltb_ℤ max min)) max_below_min
  guard (not (ltb_ℤ (pos 0) desired && ltb_ℤ desired min)) desired_below_min
  guard (not (ltb_ℤ (pos 0) desired && ltb_ℤ (pos 0) max && ltb_ℤ max desired)) desired_above_max

-- validateScaleGroupSpec
unfoldable pub validate_scale_group_spec : ScaleGroupSpec → Result GroupFault (Unit {0})
validate_scale_group_spec spec = do
  guard (not (is_empty (trim_space spec.region))) no_region
  guard (not (is_empty (trim_space spec.provider))) no_provider
  guard (is_some (provider_to_csp spec.provider)) unknown_provider
  guard (is_choice x86_64 arm64 (normal spec.architecture)) bad_architecture
  guard (is_choice ubuntu debian (normal spec.os)) bad_os
  guard (leb_ℤ (pos 1) spec.cpu) bad_cpu
  guard (leb_ℤ (pos 1) spec.ram) bad_ram
  validate_bounds spec.min spec.max spec.desired
  guard (is_health (normal spec.health)) bad_health

-- The switch over the provider; others have no resource type.
unfoldable pub group_resource_type : Runes → Runes
group_resource_type p =
    if text_eq p aws
    then codes "aws_autoscaling_group"
    else if text_eq p digitalocean
    then codes "digitalocean_droplet_autoscale"
    else if text_eq p gcp
    then codes "google_compute_region_instance_group_manager"
    else if text_eq p azure
    then codes "azurerm_linux_virtual_machine_scale_set"
    else if text_eq p oracle
    then codes "oci_core_instance_pool"
    else if text_eq p ibm
    then codes "ibm_is_instance_group"
    else if text_eq p alibaba
    then codes "alicloud_ess_scaling_group"
    else []

abbrev pub group_architecture : ScaleGroupSpec → Runes
group_architecture spec = or_default x86_64 (normal spec.architecture)

abbrev pub group_os : ScaleGroupSpec → Runes
group_os spec = or_default ubuntu (normal spec.os)

abbrev pub group_os_version : ScaleGroupSpec → Runes
group_os_version spec = or_default (default_os_version (group_os spec)) (trim_space spec.os_version)

abbrev zone_count : List Runes → ℕ
zone_count subnets = if is_empty subnets then 1 else length subnets

abbrev pub group_bounds : ScaleGroupSpec → GroupBounds
group_bounds spec =
    bounds_for (normal spec.provider) (normalize_bounds spec.min spec.max spec.desired)

unfoldable pub scale_group_plan : ScaleGroupSpec → RegionRow → VmRow → OsImageRow → ScaleGroupPlan
scale_group_plan spec row sku img =
    let bounds = group_bounds spec in
    record {
      provider = normal spec.provider;
      csp = row.csp;
      region_name = row.region_name;
      csp_region = row.csp_region;
      group_name = or_default (codes "pyxcloud-asg") spec.name;
      instance_type = sku.name;
      architecture = group_architecture spec;
      cpu = sku.cpu;
      ram = sku.ram;
      os_name = group_os spec;
      os_version = group_os_version spec;
      image = img.image;
      min = bounds.min;
      max = bounds.max;
      desired = bounds.desired;
      health = canonical_health (or_default ec2 (normal spec.health));
      user_data =
          resolve_user_data spec.user_data spec.user_data_by_provider (normal spec.provider);
      instance_profile = spec.instance_profile;
      instance_profile_managed = false;
      root_disk_gb = spec.root_disk_gb;
      zones = derive_zones (normal spec.provider) row.csp_region (zone_count spec.subnets);
      network_name = spec.network;
      subnet_names = spec.subnets;
      security_group = spec.security_group;
      tag = trim_space spec.tag;
      ssh_keys = spec.ssh_keys;
      resource_type = group_resource_type (normal spec.provider);
      do_project = [];
      kubernetes_version = trim_space spec.kubernetes_version;
    }

abbrev pub group_found {ℓ} : {A : Type ℓ} → GroupFault → Option A → Result GroupFault A
group_found fault none = err fault
group_found fault (some a) = ok a

abbrev pub group_sku : Result SkuFault VmRow → Result GroupFault VmRow
group_sku (ok sku) = ok sku
group_sku (err fault) = err (no_sku fault)

-- The providers without scaling of machines.
abbrev pub is_fixed_size : Runes → Bool
is_fixed_size provider = text_eq provider linode || text_eq provider stackit

abbrev pub unsupported : Runes → RegionRow → GroupFault
unsupported provider row =
    autoscale_unsupported
      (record { provider = provider; csp = row.csp; csp_region = row.csp_region })

-- TranslateScaleGroup
unfoldable pub translate_scale_group : VmCatalog → ScaleGroupSpec → Result GroupFault ScaleGroupPlan
translate_scale_group cat spec = do
  validate_scale_group_spec spec
  row ← group_found region_not_found (cat.resolve_region spec.region spec.provider)
  guard (not (is_fixed_size (normal spec.provider))) (unsupported (normal spec.provider) row)
  sku ←
      group_sku (cat.resolve_sku row.csp row.csp_region (group_architecture spec) spec.cpu spec.ram)
  img ← group_found image_not_found (
      cat.resolve_image row.csp row.csp_region (group_os spec) (group_os_version spec)
        (group_architecture spec))
  ok (scale_group_plan spec row sku img)
