-- ===== src/Catalog/Hosts/Scripts.antt =====
-- What placement leaves and what it adds (internal/catalog/host_placement.go).
use mathlib.Core.Option.{some-injective}
use terraform_provider_pyxcl.Prelude.{
  ℕ, zero, suc, ◌≡◌, refl, sym, ap, ◌∙◌, ◌⊎◌, inl, inr, true, ◌||◌, Option, none, some, List, [],
  ◌∷◌, ◌++◌, arith, get_elem?, All₂, Bool-cases, Option-cases,
}
use terraform_provider_pyxcl.Prelude.Results.{OnOk, OnOk-bind, OnOk-bind_eq, OnOk-guard}
use terraform_provider_pyxcl.GoLang.Map.{Map, lookup_runes}
use terraform_provider_pyxcl.GoLang.Text.{Runes, has_prefix}
use terraform_provider_pyxcl.Catalog.Names.{is_empty}
use terraform_provider_pyxcl.Catalog.Hosts.{
  shebang, trim_newline, AssembleVm, AssembleComponent, hosts_from, put_vm, may_host,
  with_bootstrap, attach, attach_at, attach_to, bind_service, bind_services, bind_service_hosts,
  no_single_host, incompatible_bootstrap,
}

pub has_prefix-append : (s t p : Runes) → has_prefix s p ≡ true → has_prefix (s ++ t) p ≡ true
unfolding has_prefix
has_prefix-append s t [] h = refl
has_prefix-append [] t (d ∷ p) h = cc h
has_prefix-append (c ∷ s) t (d ∷ p) h = ground (arith, has_prefix-append s t p)

-- A script keeps its first character, which is no newline.
pub trim_newline_script : (s : Runes) → has_prefix s shebang ≡ true → trim_newline s ≡ s
unfolding trim_newline has_prefix
trim_newline_script [] h = refl
trim_newline_script (c ∷ s) h = ground arith

pub trim_newline-newline : (s : Runes) → trim_newline (b'\n' ∷ s) ≡ s
unfolding trim_newline has_prefix
trim_newline-newline s = refl

module _ {VmRest Rest : Type 0} where
  -- The component but for its machine.
  abbrev pub without_vm : AssembleComponent VmRest Rest → AssembleComponent VmRest Rest
  without_vm c = record c { vm = none }

  -- A machine that is left as it was, or that starts with a script and has the same other fields.
  abbrev pub Scripted : Option (AssembleVm VmRest Rest) → Option (AssembleVm VmRest Rest) → Type 0
  Scripted none none = Unit
  Scripted (some vm) (some vm') =
      (vm'.rest ≡ vm.rest)
      × ((vm'.user_data ≡ vm.user_data) ⊎ (has_prefix vm'.user_data shebang ≡ true))
  Scripted _ _ = ⊥

  abbrev pub Keeps : AssembleComponent VmRest Rest → AssembleComponent VmRest Rest → Type 0
  Keeps c c' = (without_vm c' ≡ without_vm c) × Scripted c.vm c'.vm

  with_bootstrap-script :
      (vm : AssembleVm VmRest Rest) (bootstrap : Runes)
      → (is_empty vm.user_data || has_prefix vm.user_data shebang) ≡ true
      → has_prefix bootstrap shebang ≡ true
      → has_prefix (with_bootstrap vm bootstrap).user_data shebang ≡ true
  unfolding with_bootstrap
  with_bootstrap-script vm bootstrap h k = go vm.user_data h
    where
      go :
          (s : Runes)
          → (is_empty s || has_prefix s shebang) ≡ true
          → has_prefix (trim_newline (s ++ b'\n' ∷ bootstrap)) shebang ≡ true
      go [] e = rw (trim_newline-newline bootstrap) k
      go (c ∷ s) e =
          let p = has_prefix-append (c ∷ s) (b'\n' ∷ bootstrap) shebang e in
          rw (trim_newline_script ((c ∷ s) ++ b'\n' ∷ bootstrap) p) p

  may_host-script :
      (host c : AssembleComponent VmRest Rest)
      → may_host host c ≡ true
      → has_prefix c.host_bootstrap shebang ≡ true
  unfolding may_host
  may_host-script host c h = ground arith

  Scripted-self : (o : Option (AssembleVm VmRest Rest)) → Scripted o o
  Scripted-self none = tt
  Scripted-self (some vm) = (refl, inl refl)

  Keeps-self : (cs : List (AssembleComponent VmRest Rest)) → All₂ Keeps cs cs
  Keeps-self [] = tt
  Keeps-self (c ∷ cs) = ((refl, Scripted-self c.vm), Keeps-self cs)

  Scripted-script :
      (o p : Option (AssembleVm VmRest Rest)) (vm vm' : AssembleVm VmRest Rest)
      → Scripted o p
      → p ≡ some vm
      → vm'.rest ≡ vm.rest
      → has_prefix vm'.user_data shebang ≡ true
      → Scripted o (some vm')
  Scripted-script none none vm vm' h e f s = cc e
  Scripted-script none (some now) vm vm' h e f s = absurd h
  Scripted-script (some before) none vm vm' h e f s = absurd h
  Scripted-script (some before) (some now) vm vm' h e f s = (
    f ∙ (ap (λ (v : AssembleVm VmRest Rest). v.rest) (sym (some-injective now vm e)) ∙ h.0),
    inr s,
  )

  -- Replacing a machine by one with a script and the same other fields.
  put_vm-Keeps :
      (i : ℕ) (vm vm' : AssembleVm VmRest Rest) (host : AssembleComponent VmRest Rest)
      (before now : List (AssembleComponent VmRest Rest))
      → All₂ Keeps before now
      → get_elem? now i ≡ some host
      → host.vm ≡ some vm
      → vm'.rest ≡ vm.rest
      → has_prefix vm'.user_data shebang ≡ true
      → All₂ Keeps before (put_vm i vm' now)
  unfolding put_vm
  put_vm-Keeps i vm vm' host [] [] k g e f s = k
  put_vm-Keeps i vm vm' host [] (c ∷ now) k g e f s = absurd k
  put_vm-Keeps i vm vm' host (b ∷ before) [] k g e f s = absurd k
  put_vm-Keeps zero vm vm' host (b ∷ before) (c ∷ now) ((w, t), k) g e f s = (
    (
      w,
      Scripted-script b.vm c.vm vm vm' t
          (ap (λ (x : AssembleComponent VmRest Rest). x.vm) (some-injective c host g) ∙ e) f s,
    ),
    k,
  )
  put_vm-Keeps (suc i) vm vm' host (b ∷ before) (c ∷ now) (h, k) g e f s =
      (h, put_vm-Keeps i vm vm' host before now k g e f s)

  attach-Keeps :
      (i : ℕ) (host c : AssembleComponent VmRest Rest) (o : Option (AssembleVm VmRest Rest))
      (before now : List (AssembleComponent VmRest Rest))
      → All₂ Keeps before now
      → get_elem? now i ≡ some host
      → host.vm ≡ o
      → OnOk (All₂ Keeps before) (attach i host c o now)
  unfolding attach with_bootstrap
  attach-Keeps i host c none before now k g e = tt
  attach-Keeps i host c (some vm) before now k g e =
      OnOk-guard (All₂ Keeps before) (may_host host c) (no_single_host c.name) _ (λ may.
        OnOk-guard (All₂ Keeps before) (is_empty vm.user_data || has_prefix vm.user_data shebang)
          (incompatible_bootstrap c.name) _
          (λ fits.
            put_vm-Keeps i vm (with_bootstrap vm c.host_bootstrap) host before now k g e refl
              (with_bootstrap-script vm c.host_bootstrap fits (may_host-script host c may))))

  bind_service-Keeps :
      (hosts : Map ℕ) (c : AssembleComponent VmRest Rest)
      (before now : List (AssembleComponent VmRest Rest))
      → All₂ Keeps before now
      → OnOk (All₂ Keeps before) (bind_service hosts c now)
  unfolding bind_service attach_to attach_at
  bind_service-Keeps hosts c before now k = elim (Bool-cases (is_empty c.host_vm)) [
    | inl e ↦ elim (Bool-cases (is_empty c.host_bootstrap)) [
      | inl f ↦ rw (e, f) k
      | inr f ↦ rw (e, f) tt
    ]
    | inr e ↦ elim (Option-cases (lookup_runes c.host_vm hosts)) [
      | inl f ↦ rw (e, f) tt
      | inr (i, f) ↦ elim (Option-cases (get_elem? now i)) [
        | inl g ↦ rw (e, f, g) tt
        | inr (host, g) ↦ rw (e, f, g) (attach-Keeps i host c host.vm before now k g refl)
      ]
    ]
  ]

  bind_services-Keeps :
      (hosts : Map ℕ) (cs before now : List (AssembleComponent VmRest Rest))
      → All₂ Keeps before now
      → OnOk (All₂ Keeps before) (bind_services hosts cs now)
  unfolding bind_services
  bind_services-Keeps hosts [] before now k = k
  bind_services-Keeps hosts (c ∷ cs) before now k =
      OnOk-bind (All₂ Keeps before) (All₂ Keeps before) (bind_service hosts c now) _
        (bind_service-Keeps hosts c before now k)
        (λ now' k'. bind_services-Keeps hosts cs before now' k')

  -- Where placement succeeds, the components are those of the input, in their order, with the same fields
  -- but for the user data of machines, which is unchanged or starts with the line #!/bin/bash.
  pub bind_service_hosts-Keeps :
      (components : List (AssembleComponent VmRest Rest))
      → OnOk (All₂ Keeps components) (bind_service_hosts components)
  unfolding bind_service_hosts
  bind_service_hosts-Keeps components =
      OnOk-bind_eq (All₂ Keeps components) (hosts_from [] 0 components) _ (λ hosts _.
        bind_services-Keeps hosts components components components (Keeps-self components))
