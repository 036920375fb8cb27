-- ===== src/Catalog/Architecture/Silent.antt =====
-- Which environments the architecture checks find nothing in (internal/catalog/architecture_detect.go).
use terraform_provider_pyxcl.Prelude.{
  suc, ◌≡◌, refl, ap, Bool, not, ◌&&◌, ◌||◌, List, [], ◌∷◌, ◌++◌, map, any, filter, length, ltb,
  ◌==◌, arith, ℕ, ◌+◌, Option, none, some, false, if◌then◌else◌,
}
use terraform_provider_pyxcl.Prelude.Int.{ℤ, pos, eq_ℤ, ltb_ℤ, leb_ℤ}
use terraform_provider_pyxcl.GoLang.Strconv.{atoi_codes}
use terraform_provider_pyxcl.GoLang.Text.{Runes, codes, text_eq, trim_space}
use terraform_provider_pyxcl.Catalog.Architecture.{
  is_cluster, is_cargo_cult_operator, value_or_zero, is_tiny_vm, cargo_cult_findings,
  single_vm_findings, is_tiny, name_of, type_of, split_findings, detect_architecture_mismatches,
}
use terraform_provider_pyxcl.Catalog.Hosts.{AssembleComponent, AssembleVm}
use terraform_provider_pyxcl.Catalog.Mitigation.{has_operator_alternative}
use terraform_provider_pyxcl.Catalog.Names.{normal, is_empty}

is_empty-append : {A : Type 0} (xs ys : List A) → is_empty (xs ++ ys) ≡ (is_empty xs && is_empty ys)
is_empty-append [] ys = refl
is_empty-append (x ∷ xs) ys = refl

length-map : {A B : Type 0} (f : A → B) (xs : List A) → length (map f xs) ≡ length xs
length-map f [] = refl
length-map f (x ∷ xs) = ap suc (length-map f xs)

any-map :
    {A B : Type 0} (p : B → Bool) (f : A → B) (xs : List A)
    → any p (map f xs) ≡ any (λ x. p (f x)) xs
any-map p f [] = refl
any-map p f (x ∷ xs) = ap (λ b. p (f x) || b) (any-map p f xs)

-- The types of components that operators can run on, by their exact names.
abbrev pub cluster_types : List Runes
cluster_types = codes "managed-kubernetes" ∷ codes "container-service" ∷ []

abbrev pub is_cluster_name : Runes → Bool
is_cluster_name t = any (text_eq t) cluster_types

-- How many elements satisfy a test.
abbrev pub tally : {A : Type 0} → (A → Bool) → List A → ℕ
tally p [] = 0
tally p (x ∷ xs) = (if p x then 1 else 0) + tally p xs

length-filter : {A : Type 0} (p : A → Bool) (xs : List A) → length (filter p xs) ≡ tally p xs
length-filter p [] = refl
length-filter p (x ∷ xs) = ground (arith, length-filter p xs)

-- A number that is 1 or 2.
abbrev one_or_two : Option ℤ → Bool
one_or_two none = false
one_or_two (some n) = eq_ℤ n (pos 1) || eq_ℤ n (pos 2)

tiny-one_or_two :
    (o : Option ℤ)
    → (ltb_ℤ (pos 0) (value_or_zero o) && leb_ℤ (value_or_zero o) (pos 2)) ≡ one_or_two o
tiny-one_or_two none = refl
tiny-one_or_two (some n) = ground arith

module _ {VmRest Rest : Type 0} where
  -- A component that an operator can provide.
  abbrev pub has_operator : AssembleComponent VmRest Rest → Bool
  has_operator c = has_operator_alternative c.component_type

  -- A component that is a cluster, up to case and white space.
  abbrev pub hosts_operators : AssembleComponent VmRest Rest → Bool
  hosts_operators c = is_cluster_name (normal c.component_type)

  -- A component that is a cluster under its exact name.
  abbrev pub is_named_cluster : AssembleComponent VmRest Rest → Bool
  is_named_cluster c = is_cluster_name c.component_type

  abbrev pub is_machine : AssembleComponent VmRest Rest → Bool
  is_machine c = text_eq c.component_type (codes "virtual-machine")

  abbrev pub is_group : AssembleComponent VmRest Rest → Bool
  is_group c = text_eq c.component_type (codes "virtual-machine-scale-group")

  abbrev cpus_are_few : (VmRest → Runes) → Option (AssembleVm VmRest Rest) → Bool
  cpus_are_few cpu_of none = false
  cpus_are_few cpu_of (some vm) = one_or_two (atoi_codes (trim_space (cpu_of vm.rest)))

  -- A machine with one or two CPUs.
  abbrev pub is_small : (VmRest → Runes) → AssembleComponent VmRest Rest → Bool
  is_small cpu_of c = is_machine c && cpus_are_few cpu_of c.vm

  vm_tiny :
      (cpu_of : VmRest → Runes) (vm : Option (AssembleVm VmRest Rest))
      → is_tiny_vm cpu_of vm ≡ cpus_are_few cpu_of vm
  vm_tiny cpu_of none = refl
  vm_tiny cpu_of (some vm) = tiny-one_or_two (atoi_codes (trim_space (cpu_of vm.rest)))

  tiny_small :
      (cpu_of : VmRest → Runes) (cs : List (AssembleComponent VmRest Rest))
      → tally (is_tiny cpu_of) cs ≡ tally (is_small cpu_of) cs
  tiny_small cpu_of [] = refl
  tiny_small cpu_of (c ∷ cs) = rw (vm_tiny cpu_of c.vm, tiny_small cpu_of cs) refl

  cargo_cult_findings-none :
      (types : List Runes) (cs : List (AssembleComponent VmRest Rest))
      → is_empty (cargo_cult_findings types cs)
        ≡ (not (any has_operator cs) || any (λ t. is_cluster (normal t)) types)
  unfolding cargo_cult_findings is_cargo_cult_operator
  cargo_cult_findings-none types [] = refl
  cargo_cult_findings-none types (c ∷ cs) = ground (arith, cargo_cult_findings-none types cs)

  any_cluster :
      (f : Runes → Runes) (cs : List (AssembleComponent VmRest Rest))
      → any (λ c. is_cluster (f c.component_type)) cs
        ≡ any (λ c. is_cluster_name (f c.component_type)) cs
  any_cluster f [] = refl
  any_cluster f (c ∷ cs) = ground (arith, any_cluster f cs)

  -- The checks find nothing exactly if no component is one that an operator can provide, or some component
  -- is a cluster up to case and white space; and fewer than four machines have one or two CPUs; and there
  -- is no cluster under its exact name, or not just one machine, or some scale group.
  pub detect_architecture_mismatches-is_empty :
      (cpu_of : VmRest → Runes) (cs : List (AssembleComponent VmRest Rest))
      → is_empty (detect_architecture_mismatches cpu_of cs) ≡ (
          (not (any has_operator cs) || any hosts_operators cs)
          && ltb (tally (is_small cpu_of) cs) 4
          && (not (any is_named_cluster cs)
              || not (tally is_machine cs == 1)
              || ltb 0 (tally is_group cs)))
  unfolding detect_architecture_mismatches split_findings single_vm_findings
  detect_architecture_mismatches-is_empty cpu_of cs =
      rw
        (
          is_empty-append (cargo_cult_findings (map type_of cs) cs ++ split_findings cpu_of cs)
              (single_vm_findings cs),
          is_empty-append (cargo_cult_findings (map type_of cs) cs) (split_findings cpu_of cs),
          cargo_cult_findings-none (map type_of cs) cs,
          any-map (λ t. is_cluster (normal t)) type_of cs,
          length-map name_of (filter (is_tiny cpu_of) cs),
          length-filter (is_tiny cpu_of) cs,
          tiny_small cpu_of cs,
          length-filter is_machine cs,
          length-filter is_group cs,
          any_cluster normal cs,
          any_cluster (λ t. t) cs,
        )
        (ground arith)
