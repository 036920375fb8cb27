-- ===== src/Catalog/Mitigation/Consistent.antt =====
-- The tables of internal/catalog/mitigation.go agree with each other.
use terraform_provider_pyxcl.Prelude.{
  ◌≡◌, refl, sym, Bool, true, not, ◌&&◌, List, [], ◌∷◌, all, any, if◌then◌else◌, is_some, inl, inr,
  Bool-cases, arith,
}
use terraform_provider_pyxcl.GoLang.Map.{Map, lookup_runes}
use terraform_provider_pyxcl.GoLang.Text.{Runes, codes, text_eq, text_eq_iff, to_lower}
use terraform_provider_pyxcl.Catalog.Hosts.{explicit_vm_placement}
use terraform_provider_pyxcl.Catalog.Mitigation.{
  mitigation_recipe, mitigatable, vault_ha_alias_types, vault_ha_aliasable, has_provider,
  natively_supported, operator_types, has_operator_alternative,
}
use terraform_provider_pyxcl.Catalog.Mitigation.Native.{native_support}
use terraform_provider_pyxcl.Catalog.Mitigation.Recipes.{self_host_recipes}
use terraform_provider_pyxcl.Catalog.Names.{digitalocean, normal}

any-all :
    (q : Runes → Bool) (s : Runes) (ks : List Runes)
    → all q ks ≡ true
    → any (text_eq s) ks ≡ true
    → q s ≡ true
any-all q s [] h k = cc k
any-all q s (x ∷ xs) h k = elim (Bool-cases (text_eq s x)) [
  | inl e ↦ rw ((text_eq_iff s x).0 e) (ground arith)
  | inr e ↦ any-all q s xs (ground arith) (ground arith)
]

-- What holds of every key of a map holds of each key that is found.
lookup_runes-all :
    {A : Type 0} (q : Runes → Bool) (s : Runes) (m : Map A)
    → all (λ e. q e.0) m ≡ true
    → is_some (lookup_runes s m) ≡ true
    → q s ≡ true
unfolding lookup_runes
lookup_runes-all q s [] h k = cc k
lookup_runes-all q s ((j, v) ∷ m) h k = elim (Bool-cases (text_eq j s)) [
  | inl e ↦ rw (sym ((text_eq_iff j s).0 e)) (ground arith)
  | inr e ↦ lookup_runes-all q s m (ground arith) (rw e at k)
]

abbrev has_recipe : Runes → Bool
has_recipe s = is_some (lookup_runes s self_host_recipes)

abbrev has_native : Runes → Bool
has_native s = is_some (lookup_runes s native_support)

-- Supported on DigitalOcean, by the normal name of the type.
abbrev on_digitalocean : Runes → Bool
on_digitalocean s =
    if not (has_recipe s) then true else has_provider digitalocean (lookup_runes s native_support)

recipes_have_native : all (λ e. has_native e.0) self_host_recipes ≡ true
unfolding self_host_recipes native_support lookup_runes
recipes_have_native = refl

natives_have_recipe : all (λ e. has_recipe e.0) native_support ≡ true
unfolding self_host_recipes native_support lookup_runes
natives_have_recipe = refl

vaults_on_digitalocean : all (λ s. has_recipe s && on_digitalocean s) vault_ha_alias_types ≡ true
unfolding self_host_recipes native_support lookup_runes
vaults_on_digitalocean = refl

operators_on_digitalocean : all on_digitalocean operator_types ≡ true
unfolding self_host_recipes native_support lookup_runes
operators_on_digitalocean = refl

placed_have_recipe : all has_recipe (codes "managed-database" ∷ codes "cache" ∷ []) ≡ true
unfolding self_host_recipes lookup_runes
placed_have_recipe = refl

-- What the tables say of a type of component.
pub record IsConsistent (component_type : Runes) : Type 0 where
  pub keys :
      mitigatable component_type ≡ is_some (lookup_runes (normal component_type) native_support)
  pub vaults :
      vault_ha_aliasable component_type digitalocean ≡ true
      → (mitigatable component_type && natively_supported component_type digitalocean) ≡ true
  pub operators :
      has_operator_alternative component_type ≡ true
      → natively_supported component_type digitalocean ≡ true
  pub placed : explicit_vm_placement component_type ≡ true → mitigatable component_type ≡ true

keys_agree :
    (s : Runes)
    → is_some (lookup_runes s self_host_recipes) ≡ is_some (lookup_runes s native_support)
keys_agree s = ground (
  arith,
  lookup_runes-all has_native s self_host_recipes recipes_have_native,
  lookup_runes-all has_recipe s native_support natives_have_recipe,
)

-- For every type of component, in any spelling: it has a substitute exactly if the table of managed
-- services lists it; a type that goes to Vault on DigitalOcean, or that an operator can provide, is not
-- put on a machine there; and a type that an author may place on a machine has a substitute.
pub mitigatable-IsConsistent : (component_type : Runes) → IsConsistent component_type
unfolding mitigatable mitigation_recipe natively_supported vault_ha_aliasable
    has_operator_alternative explicit_vm_placement to_lower
mitigatable-IsConsistent component_type =
    let s = normal component_type in
    record {
      keys = keys_agree s;
      vaults = λ h.
          any-all (λ s. has_recipe s && on_digitalocean s) s vault_ha_alias_types
            vaults_on_digitalocean (ground arith);
      operators = λ h. any-all on_digitalocean s operator_types operators_on_digitalocean h;
      placed = λ h.
          any-all has_recipe s (codes "managed-database" ∷ codes "cache" ∷ []) placed_have_recipe
            (ground arith);
    }
