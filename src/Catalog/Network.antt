-- ===== src/Catalog/Network.antt =====
-- internal/catalog/network.go: a place's network, its plan and the translation. The zones of the
-- subnets are in `Zones`; the package net is an argument.
pub mod Zones
pub mod Accepts
pub mod Spread
pub mod Subnets
mod Tests
use terraform_provider_pyxcl.Prelude.{
  ℕ, suc, ◌+◌, Bool, true, false, not, ◌&&◌, Option, none, some, List, [], ◌∷◌, ◌++◌, length, leb,
  if◌then◌else◌, is_some,
}
use terraform_provider_pyxcl.Prelude.Results.{Result, ok, err, ◌>>=◌, ◌>>◌, guard}
use terraform_provider_pyxcl.GoLang.Strconv.{itoa}
use terraform_provider_pyxcl.GoLang.Text.{Runes, codes, text_eq, to_lower, trim_space}
use terraform_provider_pyxcl.Catalog.Names.{
  aws, gcp, digitalocean, azure, linode, ubicloud, oracle, ibm, alibaba, ovh, stackit,
  provider_to_csp, RegionRow, RegionCatalog, is_empty,
}
use terraform_provider_pyxcl.Catalog.Network.Zones.{derive_zones, at_index}

-- What the code calls of the package net; `none` is an error.
pub record Net : Type 1 where
  pub Ip : Type 0
  pub IpNet : Type 0
  -- ParseCIDR
  pub parse_cidr : Runes → Option (Ip × IpNet)
  -- the method Contains
  pub contains : IpNet → Ip → Bool
  -- the first result of Mask.Size()
  pub ones : IpNet → ℕ

pub record NetworkSpec : Type 0 where
  pub name : Runes
  pub region : Runes
  pub provider : Runes
  pub cidr : Runes
  pub subnets : List Runes

pub record SubnetPlan : Type 0 where
  pub name : Runes
  pub cidr : Runes
  pub zone : Runes

pub record NetworkPlan : Type 0 where
  pub provider : Runes
  pub csp : Runes
  pub region_name : Runes
  pub csp_region : Runes
  pub vpc_name : Runes
  pub cidr : Runes
  pub subnets : List SubnetPlan
  pub resource_type : Runes

-- What TranslateNetwork complains of.
pub data Fault : Type 0 where
  no_region : Fault
  no_provider : Fault
  unknown_provider : Fault
  no_cidr : Fault
  bad_cidr : Fault
  bad_subnet : Runes → Fault
  outside : Runes → Fault
  wider : Runes → Fault
  region_not_found : Fault

module _ (net : Net) where
  abbrev parsed : Fault → Option (net.Ip × net.IpNet) → Result Fault (net.Ip × net.IpNet)
  parsed fault none = err fault
  parsed fault (some p) = ok p

  -- The loop's body: a subnet against the VPC's network.
  unfoldable pub check_subnet : net.IpNet → Runes → Result Fault (Unit {0})
  check_subnet vpc s = do
    (ip, sub) ← parsed (bad_subnet s) (net.parse_cidr s)
    guard (net.contains vpc ip) (outside s)
    guard (leb (net.ones vpc) (net.ones sub)) (wider s)

  unfoldable pub check_subnets : net.IpNet → List Runes → Result Fault (Unit {0})
  check_subnets vpc [] = ok tt
  check_subnets vpc (s ∷ ss) = let rest = check_subnets vpc ss in check_subnet vpc s >> rest

  -- validateSpec
  unfoldable pub validate_spec : NetworkSpec → Result Fault (Unit {0})
  validate_spec spec = do
    guard (not (is_empty (trim_space spec.region))) no_region
    guard (not (is_empty (trim_space spec.provider))) no_provider
    guard (is_some (provider_to_csp spec.provider)) unknown_provider
    guard (not (is_empty (trim_space spec.cidr))) no_cidr
    (_, vpc) ← parsed bad_cidr (net.parse_cidr spec.cidr)
    check_subnets vpc spec.subnets

-- The switch over the provider; others have no resource type.
unfoldable pub resource_type : Runes → Runes
resource_type p =
    if text_eq p aws
    then codes "aws_vpc"
    else if text_eq p gcp
    then codes "google_compute_network"
    else if text_eq p digitalocean
    then codes "digitalocean_vpc"
    else if text_eq p azure
    then codes "azurerm_virtual_network"
    else if text_eq p linode
    then codes "linode_vpc"
    else if text_eq p ubicloud
    then codes "ubicloud_private_subnet"
    else if text_eq p oracle
    then codes "oci_core_vcn"
    else if text_eq p ibm
    then codes "ibm_is_vpc"
    else if text_eq p alibaba
    then codes "alicloud_vpc"
    else if text_eq p ovh
    then codes "ovh_cloud_project_network_private"
    else if text_eq p stackit
    then codes "stackit_network"
    else []

-- The loop over the subnets, from the i-th on; a zone that is missing is "".
unfoldable pub subnet_plans : Runes → List Runes → ℕ → List Runes → List SubnetPlan
subnet_plans name zones i [] = []
subnet_plans name zones i (cidr ∷ cidrs) =
    record {
      name = name ++ (codes "-subnet-" ++ itoa (i + 1));
      cidr = cidr;
      zone = at_index zones i;
    }
    ∷ subnet_plans name zones (suc i) cidrs

abbrev pub network_name : NetworkSpec → Runes
network_name spec = if is_empty spec.name then codes "pyxcloud" else spec.name

unfoldable pub network_plan : NetworkSpec → RegionRow → NetworkPlan
network_plan spec row = record {
  provider = to_lower spec.provider;
  csp = row.csp;
  region_name = row.region_name;
  csp_region = row.csp_region;
  vpc_name = network_name spec;
  cidr = spec.cidr;
  subnets =
      subnet_plans (network_name spec)
        (derive_zones (to_lower spec.provider) row.csp_region (length spec.subnets)) 0 spec.subnets;
  resource_type = resource_type (to_lower spec.provider);
}

abbrev pub region_row : Option RegionRow → Result Fault RegionRow
region_row none = err region_not_found
region_row (some row) = ok row

-- TranslateNetwork
unfoldable pub translate_network : Net → RegionCatalog → NetworkSpec → Result Fault NetworkPlan
translate_network net resolve spec = do
  validate_spec net spec
  row ← region_row (resolve spec.region spec.provider)
  ok (network_plan spec row)
