-- ===== src/Catalog/Hosts/Placed.antt =====
-- Where the scripts of services end up (internal/catalog/host_placement.go).
use terraform_provider_pyxcl.Prelude.{
  ℕ, ◌≡◌, refl, inl, inr, ◌||◌, Option, none, some, List, [], ◌∷◌, get_elem?, Bool-cases,
  Option-cases, All,
}
use terraform_provider_pyxcl.Prelude.Results.{OnOk, OnOk-bind, OnOk-guard, OnOk-weaken}
use terraform_provider_pyxcl.GoLang.Map.{Map, lookup_runes}
use terraform_provider_pyxcl.GoLang.Text.{has_prefix}
use terraform_provider_pyxcl.Catalog.Names.{is_empty}
use terraform_provider_pyxcl.Catalog.Hosts.Holds.{joined, joined-Holds}
use terraform_provider_pyxcl.Catalog.Hosts.{
  shebang, AssembleVm, AssembleComponent, hosts_from, may_host, with_bootstrap, attach, attach_at,
  attach_to, bind_service, bind_services, bind_service_hosts, no_single_host,
  incompatible_bootstrap,
}
use terraform_provider_pyxcl.Catalog.Hosts.Follows.{
  Points, hosts_from-Points, IsPlaced, Follows, Follows-IsPlaced, Follows-Points, put_vm-Follows,
  put_vm-here, Follows-self, Follows-trans,
}

module _ {VmRest Rest : Type 0} where
  -- One step of the second loop.
  abbrev Places :
      List (AssembleComponent VmRest Rest)
      → AssembleComponent VmRest Rest
      → List (AssembleComponent VmRest Rest)
      → Type 0
  Places now c next = Follows now next × IsPlaced next c

  attach-Places :
      (i : ℕ) (host c : AssembleComponent VmRest Rest) (o : Option (AssembleVm VmRest Rest))
      (now : List (AssembleComponent VmRest Rest))
      → get_elem? now i ≡ some host
      → host.name ≡ c.host_vm
      → host.vm ≡ o
      → OnOk (Places now c) (attach i host c o now)
  unfolding attach with_bootstrap joined
  attach-Places i host c none now g n e = tt
  attach-Places i host c (some vm) now g n e =
      OnOk-guard (Places now c) (may_host host c) (no_single_host c.name) _ (λ may.
        OnOk-guard (Places now c) (is_empty vm.user_data || has_prefix vm.user_data shebang)
          (incompatible_bootstrap c.name) _
          (λ fits.
            let vm' = with_bootstrap vm c.host_bootstrap in
            let h = joined-Holds vm.user_data c.host_bootstrap fits in
            (
              put_vm-Follows i vm vm' host now g e h.1,
              inr (
                i,
                record host { vm = some vm' },
                vm',
                put_vm-here i vm' host now g,
                n,
                refl,
                h.0,
              ),
            )))

  bind_service-Places :
      (hosts : Map ℕ) (c : AssembleComponent VmRest Rest)
      (now : List (AssembleComponent VmRest Rest))
      → Points hosts now
      → OnOk (Places now c) (bind_service hosts c now)
  unfolding bind_service attach_to attach_at
  bind_service-Places hosts c now p = elim (Bool-cases (is_empty c.host_vm)) [
    | inl e ↦ elim (Bool-cases (is_empty c.host_bootstrap)) [
      | inl f ↦ rw (e, f) (Follows-self now, inl e)
      | inr f ↦ rw (e, f) tt
    ]
    | inr e ↦ elim (Option-cases (lookup_runes c.host_vm hosts)) [
      | inl f ↦ rw (e, f) tt
      | inr (i, f) ↦
          let (host, g, n) = p c.host_vm i f in
          rw (e, f, g) (attach-Places i host c host.vm now g n refl)
    ]
  ]

  bind_services-IsPlaced :
      (hosts : Map ℕ) (cs now : List (AssembleComponent VmRest Rest))
      → Points hosts now
      → OnOk (λ out. Follows now out × All (IsPlaced out) cs) (bind_services hosts cs now)
  unfolding bind_services
  bind_services-IsPlaced hosts [] now p = (Follows-self now, tt)
  bind_services-IsPlaced hosts (c ∷ cs) now p =
      OnOk-bind (Places now c) _ (bind_service hosts c now) _ (bind_service-Places hosts c now p)
        (λ next (f, placed).
          OnOk-weaken (λ out. Follows next out × All (IsPlaced out) cs) _
            (bind_services hosts cs next)
            (bind_services-IsPlaced hosts cs next (Follows-Points hosts now next f p))
            (λ out (g, rest).
              (Follows-trans now next out f g, (Follows-IsPlaced next out c g placed, rest))))

  -- Where placement succeeds, every component that names a host ends up on a component of that name with
  -- a machine whose user data has the component's script in it, whatever the other components add there.
  pub bind_service_hosts-IsPlaced :
      (components : List (AssembleComponent VmRest Rest))
      → OnOk (λ out. All (IsPlaced out) components) (bind_service_hosts components)
  unfolding bind_service_hosts lookup_runes
  bind_service_hosts-IsPlaced components =
      OnOk-bind (λ hosts. Points hosts components) _ (hosts_from [] 0 components) _
        (hosts_from-Points components [] 0 [] components refl refl (λ k i h. cc h))
        (λ hosts p.
          OnOk-weaken (λ out. Follows components out × All (IsPlaced out) components) _
            (bind_services hosts components components)
            (bind_services-IsPlaced hosts components components p) (λ out r. r.1))
