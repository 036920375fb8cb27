-- ===== src/Catalog/Environment/Tags.antt =====
-- Tags of machines on DigitalOcean, by which a firewall attaches (internal/catalog/assemble.go).
use terraform_provider_pyxcl.Prelude.{
  ◌≡◌, refl, ◌∙◌, ap, Bool, true, false, not, ◌&&◌, ◌⊎◌, inl, inr, Option, none, some, Option-cases,
  Bool-cases, List, [], ◌∷◌, ◌++◌, All, All-weaken, In, arith,
}
use terraform_provider_pyxcl.Prelude.Results.{
  ok, OnOk, OnOk-bind, OnOk-bind_eq, OnOk-guard, OnOk_apply,
}
use terraform_provider_pyxcl.GoLang.Text.{
  Runes, codes, text_eq, text_eq_iff, to_lower, trim_space, fold_rune, equal_fold_ascii,
}
use terraform_provider_pyxcl.Catalog.Environment.{
  AssembleInput, virtual_machine, scale_group, generic_tag, no_name, no_vm_name, own_tag, tag_vm,
  tag_component, tag_components, tagged, tags_of, tags_of_all, do_scale_group_tag, droplet_tags,
  security_group_spec, has_security_group, environment_security_group,
}
use terraform_provider_pyxcl.Catalog.Hosts.{AssembleComponent, AssembleVm}
use terraform_provider_pyxcl.Catalog.Names.{digitalocean, is_empty}
use terraform_provider_pyxcl.Catalog.SecurityGroup.Types.{SecurityGroupSpec}

abbrev is_generic : Runes → Bool
is_generic tag = equal_fold_ascii tag (codes "pyxcloud")

-- A tag of one's own, which is not that of every machine.
abbrev pub is_own : Runes → Bool
is_own tag = not (is_empty tag) && not (equal_fold_ascii tag (codes "pyxcloud"))

own_tag-is_own :
    (env_name name tag : Runes)
    → not (is_generic tag) ≡ true
    → is_own (own_tag env_name name tag) ≡ true
unfolding equal_fold_ascii fold_rune
own_tag-is_own env_name name [] h = refl
own_tag-is_own env_name name (c ∷ s) h = h

nonempty : (tag : Runes) → is_own tag ≡ true → is_empty tag ≡ false
nonempty tag h = ground arith

In-left : {A : Type 0} (a : A) (xs ys : List A) → In a xs → In a (xs ++ ys)
In-left a [] ys h = absurd h
In-left a (x ∷ xs) ys (inl e) = inl e
In-left a (x ∷ xs) ys (inr h) = inr (In-left a xs ys h)

In-right : {A : Type 0} (a : A) (xs ys : List A) → In a ys → In a (xs ++ ys)
In-right a [] ys h = h
In-right a (x ∷ xs) ys h = inr (In-right a xs ys h)

abbrev IsOwn : Runes → Type 0
IsOwn s = is_own s ≡ true

-- A tag of one's own among the tags of a firewall.
abbrev pub IsListed : List Runes → Runes → Type 0
IsListed tags s = (is_own s ≡ true) × In s tags

-- What is read of a machine's tag is what was written to it.
abbrev pub Keeps : {VmRest : Type 0} → (VmRest → Runes) → (VmRest → Runes → VmRest) → Type 0
Keeps {VmRest} tag_of set_tag = (r : VmRest) (tag : Runes) → tag_of (set_tag r tag) ≡ tag

module _ {VmRest Rest : Type 0} (tag_of : VmRest → Runes) (set_tag : VmRest → Runes → VmRest) where
  -- What holds of the tag of a component's machine, if it is a plain one.
  abbrev pub OnTag : (Runes → Type 0) → AssembleComponent VmRest Rest → Type 0
  OnTag P c =
      (text_eq c.component_type virtual_machine ≡ false)
      ⊎ (c.vm ≡ none)
      ⊎ ((vm : AssembleVm VmRest Rest) × (c.vm ≡ some vm) × P (tag_of vm.rest))

  OnTag-weaken :
      (P Q : Runes → Type 0)
      → ((s : Runes) → P s → Q s)
      → (c : AssembleComponent VmRest Rest) → OnTag P c
      → OnTag Q c
  OnTag-weaken P Q f c (inl h) = inl h
  OnTag-weaken P Q f c (inr (inl h)) = inr (inl h)
  OnTag-weaken P Q f c (inr (inr (vm, e, p))) = inr (inr (vm, e, f (tag_of vm.rest) p))

  tag_vm-OnTag :
      Keeps tag_of set_tag
      → (env_name : Runes) (c : AssembleComponent VmRest Rest) (vm : AssembleVm VmRest Rest)
      → OnOk (OnTag IsOwn) (tag_vm tag_of set_tag env_name c vm)
  unfolding tag_vm
  tag_vm-OnTag keeps env_name c vm =
      let tag = trim_space (tag_of vm.rest) in
      OnOk-guard _ (not (is_empty (trim_space c.name))) no_vm_name _ (λ _.
        OnOk-guard _ (not (is_generic tag)) generic_tag _ (λ h.
          let own = own_tag env_name c.name tag in
          inr (
            inr (
              record vm { rest = set_tag vm.rest own },
              refl,
              ap is_own (keeps vm.rest own) ∙ own_tag-is_own env_name c.name tag h,
            ))))

  tag_component-OnTag :
      Keeps tag_of set_tag
      → (env_name : Runes) (c : AssembleComponent VmRest Rest)
      → OnOk (OnTag IsOwn) (tag_component tag_of set_tag env_name c)
  unfolding tag_component
  tag_component-OnTag keeps env_name c =
      elim (Bool-cases (text_eq c.component_type virtual_machine)) [
        | inr e ↦ rw e (inl e)
        | inl e ↦ elim (Option-cases c.vm) [
          | inl f ↦ rw (e, f) (inr (inl f))
          | inr (vm, f) ↦ rw (e, f) (tag_vm-OnTag keeps env_name c vm)
        ]
      ]

  tag_components-OnTag :
      Keeps tag_of set_tag
      → (env_name : Runes) (cs : List (AssembleComponent VmRest Rest))
      → OnOk (All (OnTag IsOwn)) (tag_components tag_of set_tag env_name cs)
  unfolding tag_components
  tag_components-OnTag keeps env_name [] = tt
  tag_components-OnTag keeps env_name (c ∷ cs) =
      OnOk-bind (OnTag IsOwn) _ (tag_component tag_of set_tag env_name c) _
        (tag_component-OnTag keeps env_name c)
        (λ d h.
          OnOk-bind (All (OnTag IsOwn)) _ (tag_components tag_of set_tag env_name cs) _
            (tag_components-OnTag keeps env_name cs) (λ ds k. (h, k)))

  vm_not_group :
      (c : AssembleComponent VmRest Rest)
      → text_eq c.component_type virtual_machine ≡ true
      → text_eq c.component_type scale_group ≡ false
  vm_not_group c h = rw ((text_eq_iff c.component_type virtual_machine).0 h) refl

  tags_of-IsListed :
      (c : AssembleComponent VmRest Rest)
      → OnTag IsOwn c
      → OnTag (IsListed (tags_of tag_of set_tag c)) c
  tags_of-IsListed c (inl h) = inl h
  tags_of-IsListed c (inr (inl h)) = inr (inl h)
  tags_of-IsListed c (inr (inr (vm, e, own))) =
      elim (Bool-cases (text_eq c.component_type virtual_machine)) [
        | inr f ↦ inl f
        | inl f ↦
            let full = nonempty (tag_of vm.rest) own in
            inr (inr (vm, e, (own, rw (vm_not_group c f, f, e, full) (inl refl))))
      ]

  tags_of_all-IsListed :
      (cs : List (AssembleComponent VmRest Rest))
      → All (OnTag IsOwn) cs
      → All (OnTag (IsListed (tags_of_all tag_of set_tag cs))) cs
  unfolding tags_of_all
  tags_of_all-IsListed [] h = tt
  tags_of_all-IsListed (c ∷ cs) (p, h) =
      let first = tags_of tag_of set_tag c in
      let rest = tags_of_all tag_of set_tag cs in
      (
        OnTag-weaken (IsListed first) (IsListed (first ++ rest))
            (λ s (own, k). (own, In-left s first rest k)) c (tags_of-IsListed c p),
        All-weaken _ _ cs
            (OnTag-weaken (IsListed rest) (IsListed (first ++ rest))
              (λ s (own, k). (own, In-right s first rest k)))
            (tags_of_all-IsListed cs h),
      )

  -- The tag of a scale group is among the tags of a firewall.
  abbrev pub HasGroupTag : List Runes → AssembleComponent VmRest Rest → Type 0
  HasGroupTag tags c =
      (text_eq c.component_type scale_group ≡ false) ⊎ In (do_scale_group_tag c.name) tags

  HasGroupTag-weaken :
      (xs ys : List Runes)
      → ((s : Runes) → In s xs → In s ys)
      → (c : AssembleComponent VmRest Rest) → HasGroupTag xs c
      → HasGroupTag ys c
  HasGroupTag-weaken xs ys f c (inl h) = inl h
  HasGroupTag-weaken xs ys f c (inr h) = inr (f (do_scale_group_tag c.name) h)

  tags_of-HasGroupTag :
      (c : AssembleComponent VmRest Rest) → HasGroupTag (tags_of tag_of set_tag c) c
  tags_of-HasGroupTag c = elim (Bool-cases (text_eq c.component_type scale_group)) [
    | inl e ↦ inr (rw e (inl refl))
    | inr e ↦ inl e
  ]

  tags_of_all-HasGroupTag :
      (cs : List (AssembleComponent VmRest Rest))
      → All (HasGroupTag (tags_of_all tag_of set_tag cs)) cs
  unfolding tags_of_all
  tags_of_all-HasGroupTag [] = tt
  tags_of_all-HasGroupTag (c ∷ cs) =
      let first = tags_of tag_of set_tag c in
      let rest = tags_of_all tag_of set_tag cs in
      (
        HasGroupTag-weaken first (first ++ rest) (λ s k. In-left s first rest k) c
            (tags_of-HasGroupTag c),
        All-weaken _ _ cs (HasGroupTag-weaken rest (first ++ rest) (λ s k. In-right s first rest k))
            (tags_of_all-HasGroupTag cs),
      )

  -- The tags of the plain machines and of the scale groups of an environment are among those of its
  -- security group.
  abbrev pub AreFirewalled : AssembleInput VmRest Rest → Option SecurityGroupSpec → Type 0
  AreFirewalled env none = Unit
  AreFirewalled env (some spec) =
      (cs : List (AssembleComponent VmRest Rest)) × (tagged tag_of set_tag env ≡ ok cs)
      × (All (OnTag (IsListed spec.droplet_tags)) cs × All (HasGroupTag spec.droplet_tags) cs)

  tagged-OnTag :
      Keeps tag_of set_tag
      → (env : AssembleInput VmRest Rest) → env.apply_security_baseline ≡ true
      → env.provider ≡ digitalocean
      → OnOk (All (OnTag IsOwn)) (tagged tag_of set_tag env)
  unfolding tagged
  tagged-OnTag keeps env h k = rw (h, k) (tag_components-OnTag keeps env.name env.components)

  droplet_tags-IsListed :
      (provider : Runes) (cs : List (AssembleComponent VmRest Rest))
      → provider ≡ digitalocean
      → All (OnTag IsOwn) cs
      → All (OnTag (IsListed (droplet_tags tag_of set_tag provider cs))) cs
  unfolding droplet_tags to_lower
  droplet_tags-IsListed provider cs e h = rw e (tags_of_all-IsListed cs h)

  droplet_tags-HasGroupTag :
      (provider : Runes) (cs : List (AssembleComponent VmRest Rest))
      → provider ≡ digitalocean
      → All (HasGroupTag (droplet_tags tag_of set_tag provider cs)) cs
  unfolding droplet_tags to_lower
  droplet_tags-HasGroupTag provider cs e = rw e (tags_of_all-HasGroupTag cs)

  firewalled :
      Keeps tag_of set_tag
      → (env : AssembleInput VmRest Rest) → env.apply_security_baseline ≡ true
      → env.provider ≡ digitalocean
      → OnOk (AreFirewalled env) (environment_security_group tag_of set_tag env)
  unfolding environment_security_group security_group_spec
  firewalled keeps env h k = OnOk-guard _ (not (is_empty env.name)) no_name _ (λ _.
      OnOk-bind_eq _ (tagged tag_of set_tag env) _ (λ cs e.
        let own = OnOk_apply _ _ cs (tagged-OnTag keeps env h k) e in
        elim (Bool-cases (has_security_group tag_of set_tag (record env { components = cs }))) [
          | inr f ↦ rw f tt
          | inl f ↦ rw f (
            cs,
            e,
            (
              droplet_tags-IsListed env.provider cs k own,
              droplet_tags-HasGroupTag env.provider cs k,
            ),
          )
        ]))

  -- With the baseline on and the provider exactly "digitalocean", where a machine's tag is what was
  -- written to it: if the environment has a security group, this lists the tag of each component of type
  -- virtual-machine with a machine, as tagged before, and none of these is empty or the one of every
  -- machine; and it lists the tag of each scale group. It says nothing of the machines of substituted
  -- services and of Vault.
  pub environment_security_group-AreFirewalled :
      (env : AssembleInput VmRest Rest) (spec : SecurityGroupSpec)
      → Keeps tag_of set_tag
      → env.apply_security_baseline ≡ true
      → env.provider ≡ digitalocean
      → environment_security_group tag_of set_tag env ≡ ok (some spec)
      → AreFirewalled env (some spec)
  environment_security_group-AreFirewalled env spec keeps h k e =
      OnOk_apply _ _ (some spec) (firewalled keeps env h k) e
