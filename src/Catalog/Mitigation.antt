-- ===== src/Catalog/Mitigation.antt =====
-- internal/catalog/mitigation.go: services that run on a machine where a provider does not manage them,
-- up to the plan that RenderVMHCL prints. The tables are in `Recipes` and `Native`.
pub mod Recipes
pub mod Native
pub mod Consistent
pub mod Hosted
mod Tests
use terraform_provider_pyxcl.Prelude.{
  ℕ, Bool, true, false, not, ◌&&◌, ◌||◌, String, Option, none, some, List, [], ◌∷◌, ◌++◌, any,
  if◌then◌else◌, is_some,
}
use terraform_provider_pyxcl.Prelude.Int.{ℤ, pos, ltb_ℤ}
use terraform_provider_pyxcl.Prelude.Results.{Result, ok, err, ◌>>=◌}
use terraform_provider_pyxcl.GoLang.Map.{lookup_runes}
use terraform_provider_pyxcl.GoLang.Strconv.{itoa}
use terraform_provider_pyxcl.GoLang.Text.{Runes, codes, text_eq, to_lower, equal_fold_ascii}
use terraform_provider_pyxcl.Catalog.Hosts.{AssembleComponent, explicit_vm_placement, shebang}
use terraform_provider_pyxcl.Catalog.Mitigation.Native.{native_support}
use terraform_provider_pyxcl.Catalog.Mitigation.Recipes.{SelfHostRecipe, self_host_recipes}
use terraform_provider_pyxcl.Catalog.Names.{digitalocean, ubicloud, normal}
use terraform_provider_pyxcl.Catalog.VirtualMachine.{
  VmSpec, VmPlan, VmCatalog, VmFault, x86_64, ubuntu, translate_vm,
}

-- mitigationRecipe
unfoldable pub mitigation_recipe : Runes → Option SelfHostRecipe
mitigation_recipe component_type = lookup_runes (normal component_type) self_host_recipes

-- Mitigatable
unfoldable pub mitigatable : Runes → Bool
mitigatable component_type = is_some (mitigation_recipe component_type)

-- vaultHAAliasTypes
abbrev pub vault_ha_alias_types : List Runes
vault_ha_alias_types = codes "secrets-manager" ∷ codes "kms" ∷ codes "encryption-key" ∷ []

-- VaultHAAliasable
unfoldable pub vault_ha_aliasable : Runes → Runes → Bool
vault_ha_aliasable component_type provider =
    any (text_eq (normal component_type)) vault_ha_alias_types
    && text_eq (normal provider) digitalocean

abbrev pub has_provider : Runes → Option (List Runes) → Bool
has_provider provider none = false
has_provider provider (some providers) = any (text_eq provider) providers

-- NativelySupported
unfoldable pub natively_supported : Runes → Runes → Bool
natively_supported component_type provider =
    if not (mitigatable component_type)
    then true
    else has_provider (to_lower provider) (lookup_runes (normal component_type) native_support)

-- The cases of HasOperatorAlternative.
abbrev pub operator_types : List Runes
operator_types =
    codes "monitoring"
    ∷ codes "synthetics"
    ∷ codes "uptime-check"
    ∷ codes "tracing"
    ∷ codes "distributed-tracing"
    ∷ codes "tempo"
    ∷ codes "trace-collector"
    ∷ codes "otel-tracing"
    ∷ codes "tls-certificate"
    ∷ codes "certificate"
    ∷ codes "cert-manager"
    ∷ codes "managed-certificate"
    ∷ codes "vault-ha"
    ∷ codes "vault"
    ∷ codes "vault-cluster"
    ∷ codes "workload-identity"
    ∷ codes "instance-identity"
    ∷ codes "workload-id"
    ∷ codes "managed-queue"
    ∷ codes "message-queue"
    ∷ codes "event-streaming"
    ∷ codes "event-bus"
    ∷ []

-- HasOperatorAlternative
unfoldable pub has_operator_alternative : Runes → Bool
has_operator_alternative component_type = any (text_eq (normal component_type)) operator_types

module _ {VmRest Rest : Type 0} where
  -- ForcesVMPlacement
  unfoldable pub forces_vm_placement : AssembleComponent VmRest Rest → Bool
  forces_vm_placement comp =
      text_eq comp.placement (codes "vm") && explicit_vm_placement comp.component_type

  -- The test by which AssembleHCL hosts a component on a machine.
  unfoldable pub is_self_hosted : Runes → AssembleComponent VmRest Rest → Bool
  is_self_hosted provider comp =
      mitigatable comp.component_type && not (natively_supported comp.component_type provider)
      || forces_vm_placement comp

abbrev pub at_least : ℤ → ℤ → ℤ
at_least low n = if ltb_ℤ n low then low else n

-- mitigationVMSizing
unfoldable pub mitigation_vm_sizing : SelfHostRecipe → Runes → ℤ × ℤ
mitigation_vm_sizing recipe provider =
    if equal_fold_ascii provider ubicloud
    then (at_least (pos 2) recipe.cpu, at_least (pos 8) recipe.ram)
    else (recipe.cpu, recipe.ram)

-- A line and its end, before the next ones.
abbrev line : Runes → Runes → Runes
line s rest = s ++ b'\n' ∷ rest

-- selfHostUserData
unfoldable pub self_host_user_data : SelfHostRecipe → Runes
self_host_user_data r =
    shebang
    ++ line (codes "set -euo pipefail") (
        line (codes "# pyxcloud self-host: " ++ r.env_note) (
          line (codes "export DEBIAN_FRONTEND=noninteractive") (
            line (codes "apt-get update -y") (
              line (codes "apt-get install -y docker.io") (
                line (codes "systemctl enable --now docker") (
                  line
                    (codes "docker run -d --restart=always -p "
                      ++ (itoa r.port
                          ++ (codes ":"
                              ++ (itoa r.port ++ (codes " --name pyx-service " ++ r.image)))))
                    []))))))

-- The comment before a substitute, by what it prints.
pub data Header : Type 0 where
  -- The provider, the type, the note, whether degraded, and the image.
  mitigation : Runes → Runes → Runes → Bool → Runes → Header
  -- The provider, the note and the image.
  vm_placement : Runes → Runes → Runes → Header

-- What mitigateComponent complains of before it renders.
pub data MitigationFault : Type 0 where
  no_recipe : MitigationFault
  no_machine : VmFault → MitigationFault

pub record Mitigated : Type 0 where
  pub header : Header
  pub plan : VmPlan

unfoldable pub mitigation_spec :
    SelfHostRecipe → Runes → Runes → Runes → Runes → Runes → Runes → VmSpec
mitigation_spec recipe provider region name network subnet sg =
    let (cpu, ram) = mitigation_vm_sizing recipe provider in
    record {
      name = name;
      region = region;
      provider = provider;
      architecture = x86_64;
      cpu = cpu;
      ram = ram;
      os = ubuntu;
      os_version = [];
      count = pos 1;
      network = network;
      subnet = subnet;
      security_group = sg;
      user_data = [];
      instance_profile = [];
      tag = [];
      ssh_keys = [];
    }

abbrev pub recipe_found : Option SelfHostRecipe → Result MitigationFault SelfHostRecipe
recipe_found none = err no_recipe
recipe_found (some recipe) = ok recipe

abbrev pub machine_found : Result VmFault VmPlan → Result MitigationFault VmPlan
machine_found (ok plan) = ok plan
machine_found (err fault) = err (no_machine fault)

module _ {VmRest Rest : Type 0} where
  abbrev header_of : Runes → AssembleComponent VmRest Rest → SelfHostRecipe → Header
  header_of provider comp recipe =
      if forces_vm_placement comp
      then vm_placement provider recipe.env_note recipe.image
      else mitigation provider comp.component_type recipe.env_note recipe.degraded recipe.image

  -- mitigateComponent, up to the plan to be rendered
  unfoldable pub mitigate_component :
      VmCatalog
      → Runes
      → Runes
      → AssembleComponent VmRest Rest
      → Runes
      → Runes
      → Runes
      → Result MitigationFault Mitigated
  mitigate_component cat provider region comp network subnet sg = do
    recipe ← recipe_found (mitigation_recipe comp.component_type)
    plan ←
        machine_found
          (translate_vm cat (mitigation_spec recipe provider region comp.name network subnet sg))
    ok (record {
      header = header_of provider comp recipe;
      plan = record plan { user_data = self_host_user_data recipe };
    })
