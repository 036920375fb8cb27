-- ===== src/Catalog/ScaleGroup/Tests.antt =====
-- A scale group on DigitalOcean, and instances of the theorems on it.
use terraform_provider_pyxcl.Prelude.{◌≡◌, refl, true, some, [], ◌∷◌}
use terraform_provider_pyxcl.Prelude.Int.{pos}
use terraform_provider_pyxcl.Prelude.Results.{ok, err}
use terraform_provider_pyxcl.GoLang.Text.{codes, to_lower, fold_rune, equal_fold_ascii, trim_space}
use terraform_provider_pyxcl.Catalog.Names.{normal, provider_to_csp, RegionRow}
use terraform_provider_pyxcl.Catalog.VirtualMachine.{
  VmRow, OsImageRow, VmCatalog, default_os_version,
}
use terraform_provider_pyxcl.Catalog.ScaleGroup.{
  ScaleGroupSpec, ScaleGroupPlan, desired_above_max, validate_bounds, validate_scale_group_spec,
  scale_group_plan, translate_scale_group,
}
use terraform_provider_pyxcl.Catalog.ScaleGroup.Bounds.{normalize_bounds, bounds_for}
use terraform_provider_pyxcl.Catalog.ScaleGroup.UserData.{resolve_user_data}
use terraform_provider_pyxcl.Catalog.ScaleGroup.Bounded.{IsScaled, translate_scale_group-IsScaled}
use terraform_provider_pyxcl.Catalog.ScaleGroup.Bounds.{normalize_bounds, bounds_for}
use terraform_provider_pyxcl.Catalog.ScaleGroup.UserData.{resolve_user_data}

abbrev amsterdam : RegionRow
amsterdam = record {
  macro_region = codes "europe";
  country = codes "Netherlands";
  region_name = codes "Amsterdam";
  csp_region = codes "ams3";
  csp_region_description = [];
  csp = codes "do";
}

abbrev droplet : VmRow
droplet = record {
  name = codes "s-2vcpu-4gb";
  family = codes "Droplet";
  csp = codes "do";
  csp_region = codes "ams3";
  architecture = codes "x86_64";
  cpu = pos 2;
  ram = pos 4;
  gpu = [];
  supports_autoscale = true;
}

abbrev noble : OsImageRow
noble = record {
  csp = codes "do";
  csp_region = codes "ams3";
  os_name = codes "ubuntu";
  os_version = codes "24.04";
  architecture = codes "x86_64";
  image = codes "ubuntu-24-04-x64";
}

-- A catalog of one region, with one size and one image.
abbrev one_size : VmCatalog
one_size = record {
  resolve_region = λ region provider. some amsterdam;
  resolve_sku = λ csp csp_region arch cpu ram. ok droplet;
  resolve_image = λ csp csp_region os version arch. some noble;
}

abbrev fleet : ScaleGroupSpec
fleet = record {
  name = codes "fleet";
  region = codes "Amsterdam";
  provider = codes "DigitalOcean";
  architecture = [];
  cpu = pos 2;
  ram = pos 4;
  os = [];
  os_version = [];
  min = pos 0;
  max = pos 3;
  desired = pos 0;
  health = codes "LB";
  user_data = codes "generic";
  user_data_by_provider = (codes "aws", codes "role") ∷ (codes " DIGITALOCEAN", codes "keys") ∷ [];
  instance_profile = [];
  root_disk_gb = pos 0;
  kubernetes_version = [];
  network = [];
  subnets = [];
  security_group = [];
  tag = [];
  ssh_keys = [];
}

abbrev fleet_plan : ScaleGroupPlan
fleet_plan = scale_group_plan fleet amsterdam droplet noble

-- DigitalOcean needs a machine.
fleet_starts : fleet_plan.desired ≡ pos 1
unfolding scale_group_plan normalize_bounds bounds_for normal trim_space to_lower
fleet_starts = refl

-- Its own script is taken.
fleet_script : fleet_plan.user_data ≡ codes "keys"
unfolding scale_group_plan resolve_user_data equal_fold_ascii fold_rune normal trim_space to_lower
fleet_script = refl

translates_fleet : translate_scale_group one_size fleet ≡ ok fleet_plan
unfolding translate_scale_group validate_scale_group_spec validate_bounds normal provider_to_csp
    trim_space to_lower default_os_version
translates_fleet = refl

refuses_excess :
    translate_scale_group one_size (record fleet { desired = pos 4 }) ≡ err desired_above_max
unfolding translate_scale_group validate_scale_group_spec validate_bounds normal provider_to_csp
    trim_space to_lower default_os_version
refuses_excess = refl

translate_scale_group-IsScaled_example : IsScaled fleet fleet_plan
translate_scale_group-IsScaled_example =
    translate_scale_group-IsScaled one_size fleet fleet_plan translates_fleet
