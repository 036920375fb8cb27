-- ===== src/Catalog/Environment.antt =====
-- The first steps of AssembleHCL (internal/catalog/assemble.go) after the placement of services: tags of
-- machines on DigitalOcean, whether the environment needs a network and machines, and its security group.
-- The baseline that it derives is in `Baseline`. The fields of a machine that are read here besides its
-- user data are its tag, by the functions `tag_of` and `set_tag`.
pub mod Baseline
pub mod Rules
pub mod Hosting
pub mod Tags
pub mod Locked
mod Tests
use terraform_provider_pyxcl.Prelude.{
  ℕ, Bool, true, false, not, ◌&&◌, ◌||◌, Option, none, some, List, [], ◌∷◌, ◌++◌, map, any, leb,
  ◌==◌, if◌then◌else◌,
}
use terraform_provider_pyxcl.Prelude.Int.{ℤ, pos}
use terraform_provider_pyxcl.Prelude.Results.{Result, ok, err, ◌>>=◌, ◌>>◌, guard}
use terraform_provider_pyxcl.GoLang.Text.{
  Runes, codes, text_eq, to_lower, trim_space, equal_fold_ascii,
}
use terraform_provider_pyxcl.Catalog.Environment.Baseline.{
  SecurityBaseline, derive_security_baseline,
}
use terraform_provider_pyxcl.Catalog.Environment.Rules.{environment_rules}
use terraform_provider_pyxcl.Catalog.Hosts.{AssembleComponent, AssembleVm}
use terraform_provider_pyxcl.Catalog.Mitigation.{is_self_hosted}
use terraform_provider_pyxcl.Catalog.Names.{digitalocean, is_empty}
use terraform_provider_pyxcl.Catalog.SecurityGroup.Types.{SecurityRule, SecurityGroupSpec}

abbrev pub virtual_machine : Runes
virtual_machine = codes "virtual-machine"

abbrev pub scale_group : Runes
scale_group = codes "virtual-machine-scale-group"

abbrev is_name_rune : ℕ → Bool
is_name_rune c = leb b'a' c && leb c b'z' || leb b'0' c && leb c b'9' || c == b'_' || c == b'-'

abbrev needs_prefix : Runes → Bool
needs_prefix [] = true
needs_prefix (c ∷ s) = leb b'0' c && leb c b'9'

-- tfName
unfoldable pub tf_name : Runes → Runes
tf_name s =
    let out = map (λ c. if is_name_rune c then c else b'_') (to_lower s) in
    if needs_prefix out then codes "n_" ++ out else out

-- doScaleGroupTag
unfoldable pub do_scale_group_tag : Runes → Runes
do_scale_group_tag name = codes "pyx-" ++ tf_name name

abbrev networked_types : List Runes
networked_types =
    codes "managed-database"
    ∷ codes "cache"
    ∷ codes "managed-kubernetes"
    ∷ codes "container-service"
    ∷ codes "load-balancer"
    ∷ codes "attach-to-existing-alb"
    ∷ codes "key-value-store"
    ∷ codes "kv-store"
    ∷ codes "keyvalue-store"
    ∷ codes "dynamodb"
    ∷ []

-- The tag of a machine that has none is of the environment and the component.
abbrev pub own_tag : Runes → Runes → Runes → Runes
own_tag env_name name tag =
    if is_empty tag then codes "pyx-" ++ (tf_name env_name ++ (codes "-" ++ tf_name name)) else tag

-- What the steps complain of.
pub data EnvironmentFault : Type 0 where
  no_name : EnvironmentFault
  no_vm_name : EnvironmentFault
  generic_tag : EnvironmentFault

module _ (VmRest Rest : Type 0) where
  -- AssembleInput, as far as these steps read it
  pub record AssembleInput : Type 0 where
    pub name : Runes
    pub provider : Runes
    pub region : Runes
    pub expose : List ℤ
    pub ingress_rules : List SecurityRule
    pub components : List (AssembleComponent VmRest Rest)
    pub apply_security_baseline : Bool
    pub has_vault_droplet : Bool

module _ {VmRest Rest : Type 0} where
  -- The components that run on machines, by the loop before the network.
  abbrev pub needs_vm : Runes → AssembleComponent VmRest Rest → Bool
  needs_vm provider c =
      is_self_hosted provider c
      || text_eq c.component_type virtual_machine
      || text_eq c.component_type scale_group

  abbrev needs_network : Runes → AssembleComponent VmRest Rest → Bool
  needs_network provider c = needs_vm provider c || any (text_eq c.component_type) networked_types

  -- hasVM
  unfoldable pub has_vm : AssembleInput VmRest Rest → Bool
  has_vm env = env.has_vault_droplet || any (needs_vm env.provider) env.components

  -- hasNetworked
  unfoldable pub has_networked : AssembleInput VmRest Rest → Bool
  has_networked env = env.has_vault_droplet || any (needs_network env.provider) env.components

  -- The baseline, which is empty unless it is asked for.
  abbrev pub baseline_of : AssembleInput VmRest Rest → SecurityBaseline
  baseline_of env =
      if env.apply_security_baseline
      then derive_security_baseline env.provider env.components
      else record { egress_rules = []; secrets_force_destroy = none }

module _ {VmRest Rest : Type 0} (tag_of : VmRest → Runes) (set_tag : VmRest → Runes → VmRest) where
  unfoldable pub tag_vm :
      Runes
      → AssembleComponent VmRest Rest
      → AssembleVm VmRest Rest
      → Result EnvironmentFault (AssembleComponent VmRest Rest)
  tag_vm env_name c vm = do
    guard (not (is_empty (trim_space c.name))) no_vm_name
    let tag = trim_space (tag_of vm.rest)
    guard (not (equal_fold_ascii tag (codes "pyxcloud"))) generic_tag
    ok (record c { vm = some (record vm { rest = set_tag vm.rest (own_tag env_name c.name tag) }) })

  -- The loop's body over the components.
  unfoldable pub tag_component :
      Runes
      → AssembleComponent VmRest Rest
      → Result EnvironmentFault (AssembleComponent VmRest Rest)
  tag_component env_name c =
      if text_eq c.component_type virtual_machine
      then elim c.vm [ none ↦ ok c | some vm ↦ tag_vm env_name c vm ]
      else ok c

  unfoldable pub tag_components :
      Runes
      → List (AssembleComponent VmRest Rest)
      → Result EnvironmentFault (List (AssembleComponent VmRest Rest))
  tag_components env_name [] = ok []
  tag_components env_name (c ∷ cs) =
      let rest = tag_components env_name cs in
      do d ← tag_component env_name c; ds ← rest; ok (d ∷ ds)

  -- The components with the tags that the baseline needs on DigitalOcean.
  unfoldable pub tagged :
      AssembleInput VmRest Rest → Result EnvironmentFault (List (AssembleComponent VmRest Rest))
  tagged env =
      if env.apply_security_baseline && text_eq env.provider digitalocean
      then tag_components env.name env.components
      else ok env.components

  abbrev tags_of_vm : Option (AssembleVm VmRest Rest) → List Runes
  tags_of_vm none = []
  tags_of_vm (some vm) = if is_empty (tag_of vm.rest) then [] else tag_of vm.rest ∷ []

  abbrev pub tags_of : AssembleComponent VmRest Rest → List Runes
  tags_of c =
      if text_eq c.component_type scale_group
      then do_scale_group_tag c.name ∷ []
      else if text_eq c.component_type virtual_machine
      then tags_of_vm c.vm
      else []

  unfoldable pub tags_of_all : List (AssembleComponent VmRest Rest) → List Runes
  tags_of_all [] = []
  tags_of_all (c ∷ cs) = tags_of c ++ tags_of_all cs

  -- dropletTags
  unfoldable pub droplet_tags : Runes → List (AssembleComponent VmRest Rest) → List Runes
  droplet_tags provider cs = if text_eq (to_lower provider) digitalocean then tags_of_all cs else []

  unfoldable pub security_group_spec : AssembleInput VmRest Rest → SecurityGroupSpec
  security_group_spec env = record {
    name = env.name ++ codes "-sg";
    network = env.name ++ codes "-net";
    region = env.region;
    provider = env.provider;
    description = env.name ++ codes " environment";
    expose = env.expose;
    rules = environment_rules env.provider (baseline_of env).egress_rules env.ingress_rules;
    prefix_lists = [];
    droplet_tags = droplet_tags env.provider env.components;
  }

  -- The test before the security group is translated.
  abbrev pub has_security_group : AssembleInput VmRest Rest → Bool
  has_security_group env =
      has_vm env
      && (not (is_empty env.expose)
          || not (is_empty env.ingress_rules)
          || not (is_empty (baseline_of env).egress_rules))

  -- The security group that AssembleHCL passes on to TranslateSecurityGroup, if any; bindServiceHosts,
  -- which comes before, is in Catalog/Hosts.
  unfoldable pub environment_security_group :
      AssembleInput VmRest Rest → Result EnvironmentFault (Option SecurityGroupSpec)
  environment_security_group env = do
    guard (not (is_empty env.name)) no_name
    components ← tagged env
    let final = record env { components = components }
    ok (if has_security_group final then some (security_group_spec final) else none)
