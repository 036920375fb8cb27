-- ===== src/Catalog/Hosts/Holds.antt =====
-- Texts that have a script in them (internal/catalog/host_placement.go).
use mathlib.Core.List.{append_assoc}
use terraform_provider_pyxcl.Prelude.{
  ◌≡◌, refl, sym, ap, ◌∙◌, true, ◌||◌, [], ◌∷◌, ◌++◌, append_nil,
}
use terraform_provider_pyxcl.GoLang.Text.{Runes, has_prefix}
use terraform_provider_pyxcl.Catalog.Names.{is_empty}
use terraform_provider_pyxcl.Catalog.Hosts.Scripts.{
  has_prefix-append, trim_newline_script, trim_newline-newline,
}
use terraform_provider_pyxcl.Catalog.Hosts.{shebang, trim_newline}

-- A text that has the script in it.
abbrev pub Holds : Runes → Runes → Type 0
Holds s script = (before : Runes) × (after : Runes) × (s ≡ before ++ (script ++ after))

Holds-self : (s : Runes) → Holds s s
Holds-self s = ([], [], sym (append_nil s))

Holds-after : (s t script : Runes) → Holds s script → Holds (s ++ t) script
Holds-after s t script (before, after, e) = (
  before,
  after ++ t,
  ap (λ x. x ++ t) e
      ∙ (append_assoc before (script ++ after) t
          ∙ ap (λ x. before ++ x) (append_assoc script after t)),
)

Holds-before : (s t script : Runes) → Holds t script → Holds (s ++ t) script
Holds-before s t script (before, after, e) =
    (s ++ before, after, ap (λ x. s ++ x) e ∙ sym (append_assoc s before (script ++ after)))

Holds-nothing : (s script : Runes) → Holds [] script → Holds s script
Holds-nothing s script ([], after, e) = go script e
  where
    go : (r : Runes) → [] ≡ r ++ after → Holds s r
    go [] f = ([], s, refl)
    go (c ∷ r) f = cc f
Holds-nothing s script (c ∷ before, after, e) = cc e

-- The text that a host gets.
unfoldable pub joined : (s bootstrap : Runes) → Runes
joined s bootstrap = trim_newline (s ++ b'\n' ∷ bootstrap)

pub joined-Holds :
    (s bootstrap : Runes)
    → (is_empty s || has_prefix s shebang) ≡ true
    → Holds (joined s bootstrap) bootstrap
      × ((script : Runes) → Holds s script → Holds (joined s bootstrap) script)
unfolding joined
joined-Holds [] bootstrap fits =
    rw (trim_newline-newline bootstrap)
      (Holds-self bootstrap, λ script h. Holds-nothing bootstrap script h)
joined-Holds (c ∷ s) bootstrap fits =
    let p = has_prefix-append (c ∷ s) (b'\n' ∷ bootstrap) shebang fits in
    rw (trim_newline_script ((c ∷ s) ++ b'\n' ∷ bootstrap) p) (
      Holds-before (c ∷ s) (b'\n' ∷ bootstrap) bootstrap
          (Holds-before (b'\n' ∷ []) bootstrap bootstrap (Holds-self bootstrap)),
      λ script h. Holds-after (c ∷ s) (b'\n' ∷ bootstrap) script h,
    )
