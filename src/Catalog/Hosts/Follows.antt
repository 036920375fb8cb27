-- ===== src/Catalog/Hosts/Follows.antt =====
-- What a step of placement keeps (internal/catalog/host_placement.go).
use mathlib.Core.Option.{some-injective}
use mathlib.Core.Path.{subst}
use terraform_provider_pyxcl.Prelude.{
  ℕ, zero, suc, ◌≡◌, refl, sym, ap, ◌∙◌, ◌⊎◌, inl, inr, true, Option, some, List, [], ◌∷◌, ◌++◌,
  arith, get_elem?, Bool-cases, length, is_some, append_snoc, length-append,
}
use terraform_provider_pyxcl.Prelude.Results.{OnOk}
use terraform_provider_pyxcl.GoLang.Map.{Map, lookup_runes, lookup_runes-set, set}
use terraform_provider_pyxcl.GoLang.Text.{Runes, codes, text_eq, text_eq_iff}
use terraform_provider_pyxcl.Catalog.Names.{is_empty}
use terraform_provider_pyxcl.Catalog.Hosts.Holds.{Holds}
use terraform_provider_pyxcl.Catalog.Hosts.{AssembleVm, AssembleComponent, hosts_from, put_vm}

module _ {VmRest Rest : Type 0} where
  -- The map gives the place of a component of this name.
  abbrev pub Points : Map ℕ → List (AssembleComponent VmRest Rest) → Type 0
  Points hosts cs =
      (k : Runes) (i : ℕ)
      → lookup_runes k hosts ≡ some i
      → (host : AssembleComponent VmRest Rest) × (get_elem? cs i ≡ some host) × (host.name ≡ k)

  get_elem-after :
      (before : List (AssembleComponent VmRest Rest)) (c : AssembleComponent VmRest Rest)
      (cs : List (AssembleComponent VmRest Rest))
      → get_elem? (before ++ c ∷ cs) (length before) ≡ some c
  get_elem-after [] c cs = refl
  get_elem-after (b ∷ before) c cs = get_elem-after before c cs

  Points-set :
      (hosts : Map ℕ) (cs : List (AssembleComponent VmRest Rest)) (i : ℕ)
      (c : AssembleComponent VmRest Rest)
      → Points hosts cs
      → get_elem? cs i ≡ some c
      → Points (set c.name i hosts) cs
  Points-set hosts cs i c p e k j h =
      let h' = rw (lookup_runes-set c.name i hosts k) at h in
      elim (Bool-cases (text_eq c.name k)) [
        | inl f ↦
            let h'' = rw f at h' in
            let same = some-injective i j h'' in (c, rw (sym same) e, (text_eq_iff c.name k).0 f)
        | inr f ↦ let h'' = rw f at h' in p k j h''
      ]

  pub hosts_from-Points :
      (all_cs : List (AssembleComponent VmRest Rest)) (hosts : Map ℕ) (i : ℕ)
      (before cs : List (AssembleComponent VmRest Rest))
      → before ++ cs ≡ all_cs
      → length before ≡ i
      → Points hosts all_cs
      → OnOk (λ h. Points h all_cs) (hosts_from hosts i cs)
  unfolding hosts_from
  hosts_from-Points all_cs hosts i before [] e l p = p
  hosts_from-Points all_cs hosts i before (c ∷ cs) e l p =
      let longer = append_snoc before c cs ∙ e in
      let len : length (before ++ c ∷ []) ≡ suc i = omega (arith, length-append before (c ∷ [])) in
      elim (Bool-cases (text_eq c.component_type (codes "virtual-machine"))) [
        | inr f ↦ rw f (hosts_from-Points all_cs hosts (suc i) (before ++ c ∷ []) cs longer len p)
        | inl f ↦ elim (Bool-cases (is_some (lookup_runes c.name hosts))) [
          | inl g ↦ rw (f, g) tt
          | inr g ↦
              let here : get_elem? all_cs i ≡ some c =
                rw (sym e, sym l) (get_elem-after before c cs) in
              rw (f, g)
                (hosts_from-Points all_cs (set c.name i hosts) (suc i) (before ++ c ∷ []) cs longer
                  len (Points-set hosts all_cs i c p here))
        ]
      ]

  -- A component that names no host, or whose host has its script.
  abbrev pub IsPlaced :
      List (AssembleComponent VmRest Rest) → AssembleComponent VmRest Rest → Type 0
  IsPlaced out c =
      (is_empty c.host_vm ≡ true)
      ⊎ ((i : ℕ) × (host : AssembleComponent VmRest Rest) × (vm : AssembleVm VmRest Rest)
          × (get_elem? out i ≡ some host)
          × (host.name ≡ c.host_vm)
          × (host.vm ≡ some vm)
          × Holds vm.user_data c.host_bootstrap)

  -- No name changes, and no machine loses a script.
  abbrev pub Grows : Option (AssembleVm VmRest Rest) → Option (AssembleVm VmRest Rest) → Type 0
  Grows o p =
      (vm : AssembleVm VmRest Rest)
      → o ≡ some vm
      → (vm' : AssembleVm VmRest Rest) × (p ≡ some vm')
        × ((script : Runes) → Holds vm.user_data script → Holds vm'.user_data script)

  abbrev pub Follows :
      List (AssembleComponent VmRest Rest) → List (AssembleComponent VmRest Rest) → Type 0
  Follows now next =
      (i : ℕ) (host : AssembleComponent VmRest Rest)
      → get_elem? now i ≡ some host
      → (host' : AssembleComponent VmRest Rest) × (get_elem? next i ≡ some host')
        × (host'.name ≡ host.name)
        × Grows host.vm host'.vm

  pub Follows-IsPlaced :
      (now next : List (AssembleComponent VmRest Rest)) (c : AssembleComponent VmRest Rest)
      → Follows now next
      → IsPlaced now c
      → IsPlaced next c
  Follows-IsPlaced now next c f (inl e) = inl e
  Follows-IsPlaced now next c f (inr (i, host, vm, at_i, named, has_vm, holds)) =
      let (host', at_i', named', grows) = f i host at_i in
      let (vm', has_vm', keeps) = grows vm has_vm in
      inr (i, host', vm', at_i', named' ∙ named, has_vm', keeps c.host_bootstrap holds)

  pub Follows-Points :
      (hosts : Map ℕ) (now next : List (AssembleComponent VmRest Rest))
      → Follows now next
      → Points hosts now
      → Points hosts next
  Follows-Points hosts now next f p k i h =
      let (host, at_i, named) = p k i h in
      let (host', at_i', named', grows) = f i host at_i in (host', at_i', named' ∙ named)

  pub put_vm-Follows :
      (i : ℕ) (vm vm' : AssembleVm VmRest Rest) (host : AssembleComponent VmRest Rest)
      (now : List (AssembleComponent VmRest Rest))
      → get_elem? now i ≡ some host
      → host.vm ≡ some vm
      → ((script : Runes) → Holds vm.user_data script → Holds vm'.user_data script)
      → Follows now (put_vm i vm' now)
  unfolding put_vm
  put_vm-Follows i vm vm' host [] g e f j other h = cc h
  put_vm-Follows zero vm vm' host (c ∷ now) g e f zero other h =
      let same = some-injective c other h in
      (
        record c { vm = some vm' },
        refl,
        ap (λ (x : AssembleComponent VmRest Rest). x.name) same,
        λ v k.
            let v_same = some-injective vm v (
              sym e
              ∙ (ap (λ (x : AssembleComponent VmRest Rest). x.vm)
                    (sym (some-injective c host g) ∙ same)
                  ∙ k)) in
            (
              vm',
              refl,
              λ script q.
                  f script (
                    subst (λ (x : AssembleVm VmRest Rest). Holds x.user_data script) (sym v_same)
                      q),
            ),
      )
  put_vm-Follows zero vm vm' host (c ∷ now) g e f (suc j) other h =
      (other, h, refl, λ v k. (v, k, λ s q. q))
  put_vm-Follows (suc i) vm vm' host (c ∷ now) g e f zero other h =
      (other, h, refl, λ v k. (v, k, λ s q. q))
  put_vm-Follows (suc i) vm vm' host (c ∷ now) g e f (suc j) other h =
      put_vm-Follows i vm vm' host now g e f j other h

  pub put_vm-here :
      (i : ℕ) (vm' : AssembleVm VmRest Rest) (host : AssembleComponent VmRest Rest)
      (now : List (AssembleComponent VmRest Rest))
      → get_elem? now i ≡ some host
      → get_elem? (put_vm i vm' now) i ≡ some (record host { vm = some vm' })
  unfolding put_vm
  put_vm-here i vm' host [] g = cc g
  put_vm-here zero vm' host (c ∷ now) g = rw (some-injective c host g) refl
  put_vm-here (suc i) vm' host (c ∷ now) g = put_vm-here i vm' host now g

  pub Follows-self : (now : List (AssembleComponent VmRest Rest)) → Follows now now
  Follows-self now i host h = (host, h, refl, λ v k. (v, k, λ s q. q))

  pub Follows-trans :
      (now next out : List (AssembleComponent VmRest Rest))
      → Follows now next
      → Follows next out
      → Follows now out
  Follows-trans now next out f g i host h =
      let (host', at_i', named', grows) = f i host h in
      let (host'', at_i'', named'', grows') = g i host' at_i' in
      (
        host'',
        at_i'',
        named'' ∙ named',
        λ vm k.
            let (vm', k', keeps) = grows vm k in
            let (vm'', k'', keeps') = grows' vm' k' in
            (vm'', k'', λ script q. keeps' script (keeps script q)),
      )
