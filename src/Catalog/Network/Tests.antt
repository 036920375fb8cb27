-- ===== src/Catalog/Network/Tests.antt =====
-- A translation of a network, and instances of the theorems on it.
use terraform_provider_pyxcl.Prelude.{
  ℕ, ◌/◌, ◌≡◌, refl, ◌&&◌, Option, none, some, [], ◌∷◌, ◌==◌, if◌then◌else◌, is_some,
}
use terraform_provider_pyxcl.Prelude.Results.{ok, is_ok}
use terraform_provider_pyxcl.GoLang.Strconv.{itoa}
use terraform_provider_pyxcl.GoLang.Text.{Runes, codes, text_eq, to_lower, trim_space}
use terraform_provider_pyxcl.Catalog.Names.{normal, provider_to_csp, RegionRow, RegionCatalog}
use terraform_provider_pyxcl.Catalog.Network.Zones.{
  derive_zones, at_index, zone_of, zones_from, zones_if,
}
use terraform_provider_pyxcl.Catalog.Network.{
  Net, NetworkSpec, NetworkPlan, check_subnet, check_subnets, validate_spec, resource_type,
  subnet_plans, network_plan, translate_network,
}
use terraform_provider_pyxcl.Catalog.Network.Accepts.{
  is_named, all_lie_in, translate_network-accepts,
}
use terraform_provider_pyxcl.Catalog.Network.Subnets.{IsSpread, translate_network-IsSpread}

-- A net that knows three CIDRs by heart: a number for the first octets, and the ones of the mask.
abbrev table : Runes → Option (ℕ × (ℕ × ℕ))
table s =
    if text_eq s (codes "10.0.0.0/16")
    then some (0, (0, 16))
    else if text_eq s (codes "10.0.1.0/24")
    then some (1, (1, 24))
    else if text_eq s (codes "10.0.2.0/24")
    then some (2, (2, 24))
    else none

abbrev small_net : Net
small_net = record {
  Ip = ℕ;
  IpNet = ℕ × ℕ;
  parse_cidr = table;
  contains = λ net ip. ip / 256 == net.0;
  ones = λ net. net.1;
}

abbrev dublin : RegionRow
dublin = record {
  macro_region = codes "europe";
  country = codes "Ireland";
  region_name = codes "Dublin";
  csp_region = codes "eu-west-1";
  csp_region_description = [];
  csp = codes "aws";
}

abbrev only_dublin : RegionCatalog
only_dublin region provider = some dublin

abbrev production : NetworkSpec
production = record {
  name = [];
  region = codes "Dublin";
  provider = codes "AWS";
  cidr = codes "10.0.0.0/16";
  subnets = codes "10.0.1.0/24" ∷ codes "10.0.2.0/24" ∷ [];
}

abbrev production_plan : NetworkPlan
production_plan = record {
  provider = codes "aws";
  csp = codes "aws";
  region_name = codes "Dublin";
  csp_region = codes "eu-west-1";
  vpc_name = codes "pyxcloud";
  cidr = codes "10.0.0.0/16";
  subnets =
      record {
        name = codes "pyxcloud-subnet-1";
        cidr = codes "10.0.1.0/24";
        zone = codes "eu-west-1a";
      }
      ∷ record {
        name = codes "pyxcloud-subnet-2";
        cidr = codes "10.0.2.0/24";
        zone = codes "eu-west-1b";
      }
      ∷ [];
  resource_type = codes "aws_vpc";
}

production_translated : translate_network small_net only_dublin production ≡ ok production_plan
unfolding translate_network validate_spec check_subnets check_subnet provider_to_csp normal to_lower
    trim_space network_plan subnet_plans derive_zones zone_of zones_if zones_from at_index itoa
    resource_type
production_translated = refl

translate_network-IsSpread_example : IsSpread production production_plan
translate_network-IsSpread_example =
    translate_network-IsSpread small_net only_dublin production production_plan
      production_translated

translate_network-accepts_example : is_ok (translate_network small_net only_dublin production) ≡ (
    is_named production
    && all_lie_in small_net production.subnets (small_net.parse_cidr production.cidr)
    && is_some (only_dublin production.region production.provider))
translate_network-accepts_example = translate_network-accepts small_net only_dublin production
