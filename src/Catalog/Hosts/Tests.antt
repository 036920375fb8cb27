-- ===== src/Catalog/Hosts/Tests.antt =====
-- A service on a machine, and instances of the theorems on placement.
use terraform_provider_pyxcl.Prelude.{◌≡◌, refl, none, some, [], ◌∷◌, ◌++◌, All₂}
use terraform_provider_pyxcl.Prelude.Int.{pos}
use terraform_provider_pyxcl.Prelude.Results.{ok, err, OnOk}
use terraform_provider_pyxcl.Prelude.{All}
use terraform_provider_pyxcl.GoLang.Map.{lookup_runes, set}
use terraform_provider_pyxcl.GoLang.Text.{Runes, codes, has_prefix, trim_space, to_lower}
use terraform_provider_pyxcl.Catalog.Names.{normal}
use terraform_provider_pyxcl.Catalog.Hosts.{
  explicit_vm_placement, shebang, trim_newline, AssembleComponent, no_single_host, hosts_from,
  put_vm, may_host, with_bootstrap, attach, attach_at, attach_to, bind_service, bind_services,
  bind_service_hosts,
}
use terraform_provider_pyxcl.Catalog.Hosts.Placed.{bind_service_hosts-IsPlaced}
use terraform_provider_pyxcl.Catalog.Hosts.Follows.{IsPlaced}
use terraform_provider_pyxcl.Catalog.Hosts.Scripts.{Keeps, bind_service_hosts-Keeps}

abbrev recipe : Runes
recipe = shebang ++ codes "set -e"

abbrev app : Runes → AssembleComponent Unit Unit
app script = record {
  name = codes "app";
  component_type = codes "virtual-machine";
  count = pos 1;
  host_vm = [];
  host_bootstrap = [];
  placement = [];
  vm = some (record { user_data = script; rest = tt });
  rest = tt;
}

abbrev database : Runes → AssembleComponent Unit Unit
database host = record {
  name = codes "db";
  component_type = codes "managed-database";
  count = pos 1;
  host_vm = host;
  host_bootstrap = recipe;
  placement = codes "vm";
  vm = none;
  rest = tt;
}

places_database :
    bind_service_hosts (app [] ∷ database (codes "app") ∷ [])
    ≡ ok (app recipe ∷ database (codes "app") ∷ [])
unfolding bind_service_hosts hosts_from bind_services bind_service attach_to attach_at attach
    may_host explicit_vm_placement with_bootstrap trim_newline put_vm lookup_runes set has_prefix
    normal trim_space to_lower
places_database = refl

misses_host :
    bind_service_hosts (app [] ∷ database (codes "missing") ∷ [])
    ≡ err (no_single_host (codes "db"))
unfolding bind_service_hosts hosts_from bind_services bind_service attach_to attach_at attach
    may_host explicit_vm_placement with_bootstrap trim_newline put_vm lookup_runes set has_prefix
    normal trim_space to_lower
misses_host = refl

bind_service_hosts-Keeps_example :
    OnOk
      (All₂ Keeps (app [] ∷ database (codes "app") ∷ []))
      (bind_service_hosts (app [] ∷ database (codes "app") ∷ []))
bind_service_hosts-Keeps_example = bind_service_hosts-Keeps (app [] ∷ database (codes "app") ∷ [])

bind_service_hosts-IsPlaced_example :
    OnOk
      (λ out. All (IsPlaced out) (app [] ∷ database (codes "app") ∷ []))
      (bind_service_hosts (app [] ∷ database (codes "app") ∷ []))
bind_service_hosts-IsPlaced_example =
    bind_service_hosts-IsPlaced (app [] ∷ database (codes "app") ∷ [])
