-- ===== src/Catalog/ScaleGroup/UserData.antt =====
-- The user data of a provider (internal/catalog/scalegroup.go).
use terraform_provider_pyxcl.Prelude.{
  ◌≡◌, refl, ap, Bool, true, false, List, [], ◌∷◌, if◌then◌else◌, inl, inr, Bool-cases, All, In,
}
use terraform_provider_pyxcl.GoLang.Text.{Runes, equal_fold_ascii, trim_space}
use terraform_provider_pyxcl.Catalog.Names.{is_empty}

abbrev pub is_named : Runes → (Runes × Runes) → Bool
is_named provider entry = equal_fold_ascii (trim_space entry.0) provider

abbrev pub or_generic : Runes → Runes → Runes
or_generic default script = if is_empty (trim_space script) then default else script

-- resolveUserDataForProvider, over the entries in the order in which they are visited. The provider's
-- name is ASCII.
unfoldable pub resolve_user_data : Runes → List (Runes × Runes) → Runes → Runes
resolve_user_data default [] provider = default
resolve_user_data default (entry ∷ entries) provider =
    let later = resolve_user_data default entries provider in
    if is_named provider entry then or_generic default entry.1 else later

-- User data that does not depend on the order of the entries: those of the provider, where its entries
-- agree, unless they are blank, and the generic ones if it has none.
pub record IsOverride (default : Runes) (entries : List (Runes × Runes)) (provider script : Runes)
    : Type 0 where
  pub generic : All (λ e. is_named provider e ≡ false) entries → script ≡ default
  pub own :
      (e : Runes × Runes)
      → In e entries
      → is_named provider e ≡ true
      → All (λ f. is_named provider f ≡ true → f.1 ≡ e.1) entries
      → script ≡ or_generic default e.1

pub resolve_user_data-IsOverride :
    (default : Runes) (entries : List (Runes × Runes)) (provider : Runes)
    → IsOverride default entries provider (resolve_user_data default entries provider)
unfolding resolve_user_data
resolve_user_data-IsOverride default [] provider = record {
  generic = λ h. refl;
  own = λ e h. absurd h;
}
resolve_user_data-IsOverride default (entry ∷ entries) provider =
    let later = resolve_user_data-IsOverride default entries provider in
    elim (Bool-cases (is_named provider entry)) [
      | inl named ↦ rw named (record {
        generic = λ (other, h). absurd (cc (named, other));
        own = λ e h _ (same, _). ap (or_generic default) (same named);
      })
      | inr other ↦ rw other (record {
        generic = λ (_, h). later.generic h;
        own = λ e h named (_, same). elim h [
          | inl first ↦ absurd (cc (first, named, other))
          | inr rest ↦ later.own e rest named same
        ];
      })
    ]
