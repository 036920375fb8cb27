-- ===== src/Catalog/Environment/Tests.antt =====
-- Environments under the baseline, and instances of the theorems on them. A machine has a tag and nothing
-- else, and a component no other fields.
use terraform_provider_pyxcl.Prelude.{
  ◌≡◌, refl, Bool, true, false, not, ◌||◌, Option, none, some, List, [], ◌∷◌, any, All,
}
use terraform_provider_pyxcl.Prelude.Int.{pos}
use terraform_provider_pyxcl.Prelude.Results.{ok, err}
use terraform_provider_pyxcl.GoLang.Map.{lookup_runes}
use terraform_provider_pyxcl.GoLang.Sort.{sort, insert, ltb_runes}
use terraform_provider_pyxcl.GoLang.Text.{
  Runes, codes, to_lower, fold_rune, equal_fold_ascii, trim_space,
}
use terraform_provider_pyxcl.Catalog.Environment.{
  AssembleInput, tf_name, do_scale_group_tag, generic_tag, has_vm, tag_vm, tag_component,
  tag_components, tagged, tags_of_all, droplet_tags, security_group_spec,
  environment_security_group,
}
use terraform_provider_pyxcl.Catalog.Environment.Baseline.{
  egress_rule, baseline_egress, derive_security_baseline,
}
use terraform_provider_pyxcl.Catalog.Environment.Hosting.{has_vm-derive_security_baseline}
use terraform_provider_pyxcl.Catalog.Environment.Locked.{
  IsLeastEgress, IsClosed, security_group_spec-IsLeastEgress,
}
use terraform_provider_pyxcl.Catalog.Environment.Rules.{default_egress, environment_rules}
use terraform_provider_pyxcl.Catalog.Environment.Tags.{
  AreFirewalled, environment_security_group-AreFirewalled,
}
use terraform_provider_pyxcl.Catalog.Hosts.{AssembleComponent, AssembleVm, explicit_vm_placement}
use terraform_provider_pyxcl.Catalog.Mitigation.{
  mitigation_recipe, mitigatable, natively_supported, forces_vm_placement, is_self_hosted,
}
use terraform_provider_pyxcl.Catalog.Mitigation.Native.{native_support}
use terraform_provider_pyxcl.Catalog.Mitigation.Recipes.{self_host_recipes}
use terraform_provider_pyxcl.Catalog.Names.{
  normal, provider_to_csp, RegionRow, RegionCatalog, is_empty,
}
use terraform_provider_pyxcl.Catalog.SecurityGroup.Types.{
  any_protocol, SecurityGroupSpec, SecurityGroupPlan,
}
use terraform_provider_pyxcl.Catalog.SecurityGroup.Translate.{translate_security_group}

abbrev Component : Type 0
Component = AssembleComponent Runes (Unit {0})

abbrev Environment : Type 0
Environment = AssembleInput Runes (Unit {0})

abbrev same : Runes → Runes
same r = r

abbrev second : Runes → Runes → Runes
second r tag = tag

abbrev component : Runes → Runes → Runes → Option (AssembleVm Runes (Unit {0})) → Component
component name component_type placement vm = record {
  name = name;
  component_type = component_type;
  count = pos 1;
  host_vm = [];
  host_bootstrap = [];
  placement = placement;
  vm = vm;
  rest = tt;
}

abbrev machine : Runes → Runes → Component
machine name tag =
    component name (codes "virtual-machine") [] (some (record { user_data = []; rest = tag }))

abbrev environment : Runes → List Component → Environment
environment provider components = record {
  name = codes "prod";
  provider = provider;
  region = codes "Frankfurt";
  expose = [];
  ingress_rules = [];
  components = components;
  apply_security_baseline = true;
  has_vault_droplet = false;
}

abbrev one_machine : Environment
one_machine = environment (codes "aws") (machine (codes "web") [] ∷ [])

-- A cache that its author places on a machine, where AWS has a managed one.
abbrev placed_cache : Environment
placed_cache =
    environment (codes "aws") (component (codes "sessions") (codes "cache") (codes "vm") none ∷ [])

-- It runs on a machine.
placed_cache-has_vm : has_vm placed_cache ≡ true
unfolding has_vm is_self_hosted mitigatable mitigation_recipe natively_supported forces_vm_placement
    explicit_vm_placement normal to_lower trim_space lookup_runes self_host_recipes native_support
placed_cache-has_vm = refl

-- With a port exposed, everything may go out of it in spite of the baseline.
opens_placed_cache :
    environment_security_group same second (record placed_cache { expose = pos 443 ∷ [] })
    ≡ ok (
        some (record {
          name = codes "prod-sg";
          network = codes "prod-net";
          region = codes "Frankfurt";
          provider = codes "aws";
          description = codes "prod environment";
          expose = pos 443 ∷ [];
          rules = egress_rule any_protocol (pos 0) (pos 0) ∷ [];
          prefix_lists = [];
          droplet_tags = [];
        }))
unfolding environment_security_group tagged has_vm security_group_spec environment_rules
    default_egress droplet_tags derive_security_baseline is_self_hosted mitigatable
    mitigation_recipe natively_supported forces_vm_placement explicit_vm_placement normal to_lower
    trim_space lookup_runes self_host_recipes native_support
opens_placed_cache = refl

has_vm-derive_security_baseline_example : has_vm placed_cache ≡ (
    not (
      is_empty
        (derive_security_baseline placed_cache.provider placed_cache.components).egress_rules)
    || placed_cache.has_vault_droplet
    || any forces_vm_placement placed_cache.components)
has_vm-derive_security_baseline_example = has_vm-derive_security_baseline placed_cache

abbrev frankfurt : RegionRow
frankfurt = record {
  macro_region = codes "europe";
  country = codes "Germany";
  region_name = codes "Frankfurt";
  csp_region = codes "eu-central-1";
  csp_region_description = [];
  csp = codes "aws";
}

abbrev one_region : RegionCatalog
one_region region provider = some frankfurt

abbrev nonempty : Runes → Bool
nonempty s = not (is_empty s)

one_machine-IsClosed : IsClosed one_machine
unfolding provider_to_csp normal to_lower trim_space lookup_runes
one_machine-IsClosed = record {
  region = refl;
  provider = refl;
  known = refl;
  baseline = refl;
  compute = refl;
  expose = refl;
  ingress = refl;
}

security_group_spec-IsLeastEgress_example :
    (plan : SecurityGroupPlan) × (translate_security_group nonempty one_region
        (security_group_spec same second one_machine)
      ≡ ok plan)
    × All IsLeastEgress plan.rules
security_group_spec-IsLeastEgress_example =
    security_group_spec-IsLeastEgress same second one_machine nonempty one_region frankfurt
      one_machine-IsClosed (record { v4 = refl; v6 = refl }) refl

abbrev droplets : Environment
droplets = environment (codes "digitalocean") (
    machine (codes "Web 1") []
    ∷ machine (codes "db") (codes " data ")
    ∷ component (codes "fleet") (codes "virtual-machine-scale-group") [] none
    ∷ [])

abbrev droplets_spec : SecurityGroupSpec
droplets_spec = record {
  name = codes "prod-sg";
  network = codes "prod-net";
  region = codes "Frankfurt";
  provider = codes "digitalocean";
  description = codes "prod environment";
  expose = [];
  rules = baseline_egress;
  prefix_lists = [];
  droplet_tags = codes "pyx-prod-web_1" ∷ codes "data" ∷ codes "pyx-fleet" ∷ [];
}

droplets_tagged : environment_security_group same second droplets ≡ ok (some droplets_spec)
unfolding environment_security_group tagged tag_components tag_component tag_vm equal_fold_ascii
    fold_rune tf_name do_scale_group_tag has_vm security_group_spec environment_rules droplet_tags
    tags_of_all derive_security_baseline baseline_egress sort insert ltb_runes is_self_hosted
    mitigatable mitigation_recipe lookup_runes self_host_recipes normal forces_vm_placement to_lower
    trim_space
droplets_tagged = refl

refuses_generic_tag :
    environment_security_group same second
      (environment (codes "digitalocean") (machine (codes "web") (codes "PyxCloud") ∷ []))
    ≡ err generic_tag
unfolding environment_security_group tagged tag_components tag_component tag_vm equal_fold_ascii
    fold_rune trim_space
refuses_generic_tag = refl

environment_security_group-AreFirewalled_example :
    AreFirewalled same second droplets (some droplets_spec)
environment_security_group-AreFirewalled_example =
    environment_security_group-AreFirewalled same second droplets droplets_spec (λ r tag. refl) refl
      refl droplets_tagged
