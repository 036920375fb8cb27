-- ===== src/Catalog/Embedded/Best.antt =====
-- What ResolveSKU chooses (internal/catalog/embedded.go).
use mathlib.Core.List.{Perm}
use terraform_provider_pyxcl.Prelude.{
  ◌≤◌, ◌≡◌, refl, ◌↔◌, true, false, List, [], ◌∷◌, inl, inr, arith, Bool-cases, All, filter, In,
  All-weaken,
}
use terraform_provider_pyxcl.Prelude.Int.{ℤ, eq_ℤ_iff}
use terraform_provider_pyxcl.Prelude.Least.{Leads, Chooses, least_by-Leads, All-filters, In-filters}
use terraform_provider_pyxcl.Prelude.Results.{Result, ok, err}
use terraform_provider_pyxcl.GoLang.Map.{keyed}
use terraform_provider_pyxcl.GoLang.Sort.{
  sort, is_sorted, sort-perm, sort-is_sorted, leb_runes, ltb_runes_leb, leb_runes_total,
  leb_runes_trans, leb_runes_refl,
}
use terraform_provider_pyxcl.GoLang.Text.{Runes}
use terraform_provider_pyxcl.Catalog.VirtualMachine.{VmRow, SkuFault, sku_not_found, not_offered}
use terraform_provider_pyxcl.Catalog.VirtualMachine.Sizes.{
  family_rank, is_nearer, take, nearest_sizes,
}
use terraform_provider_pyxcl.Catalog.Embedded.{
  EmbeddedCatalog, key_of_vm, vm_region_arch_key, Offers, is_offered, is_better, best_of, has_size,
  pick_sku, resolve_sku,
}
use terraform_provider_pyxcl.Catalog.Embedded.Indexed.{IsIndexed}

-- A row whose family ranks first, and whose name is least among those of its family's rank.
abbrev pub Precedes : VmRow → VmRow → Type 0
Precedes best r =
    (family_rank best ≤ family_rank r)
    × (family_rank best ≡ family_rank r → leb_runes best.name r.name ≡ true)

-- A row of this key and size.
abbrev pub Matches : Runes → ℤ → ℤ → VmRow → Type 0
Matches k cpu ram r = (keyed key_of_vm k r ≡ true) × (r.cpu ≡ cpu) × (r.ram ≡ ram)

-- The row that a request should get: it matches and precedes every row that does.
abbrev pub IsBest : List VmRow → Runes → ℤ → ℤ → VmRow → Type 0
IsBest rows k cpu ram best =
    In best rows × Matches k cpu ram best × All (λ r. Matches k cpu ram r → Precedes best r) rows

-- The first five in the order of nearness.
abbrev pub AreNearest : List VmRow → ℤ → ℤ → List VmRow → Type 0
AreNearest candidates cpu ram near =
    (sorted : List VmRow) × Perm sorted candidates
    × (is_sorted (is_nearer cpu ram) sorted ≡ true)
    × (near ≡ take 5 sorted)

Precedes-self : (r : VmRow) → Precedes r r
Precedes-self r = (omega arith, λ _. leb_runes_refl r.name)

Precedes-trans : (a b c : VmRow) → Precedes a b → Precedes b c → Precedes a c
Precedes-trans a b c (h, f) (k, g) =
    (omega arith, λ e. leb_runes_trans a.name b.name c.name (f (omega arith)) (g (omega arith)))

better-Precedes : (r best : VmRow) → is_better r best ≡ true → Precedes r best
unfolding is_better
better-Precedes r best h =
    ground (arith, ltb_runes_leb r.name best.name, leb_runes_total best.name r.name)

other-Precedes : (r best : VmRow) → is_better r best ≡ false → Precedes best r
unfolding is_better
other-Precedes r best h = ground (arith, ltb_runes_leb r.name best.name)

is_better-Chooses : Chooses is_better Precedes
is_better-Chooses = record {
  self = Precedes-self;
  trans = Precedes-trans;
  taken = better-Precedes;
  left = other-Precedes;
}

best_of-Leads : (best : VmRow) (rs : List VmRow) → Leads Precedes (best ∷ rs) (best_of best rs)
unfolding best_of
best_of-Leads best rs = least_by-Leads is_better Precedes is_better-Chooses best rs

has_size-equal :
    (cpu ram : ℤ) (r : VmRow) → (has_size cpu ram r ≡ true) ↔ ((r.cpu ≡ cpu) × (r.ram ≡ ram))
has_size-equal cpu ram r = ground (arith, eq_ℤ_iff r.cpu cpu, eq_ℤ_iff r.ram ram)

abbrev candidates : List VmRow → Runes → List VmRow
candidates rows k = filter (keyed key_of_vm k) rows

module _ (rows : List VmRow) (k : Runes) (cpu ram : ℤ) where
  abbrev sized : List VmRow
  sized = filter (has_size cpu ram) (candidates rows k)

  sized-Matches : (Q : VmRow → Type 0) → All Q sized → All (λ r. Matches k cpu ram r → Q r) rows
  sized-Matches Q h =
      All-weaken _ _ rows
        (λ r f (key, same_cpu, same_ram). f key ((has_size-equal cpu ram r).1 (same_cpu, same_ram)))
        (All-filters Q (keyed key_of_vm k) (has_size cpu ram) rows h)

  sized-IsBest : (best : VmRow) → Leads Precedes sized best → IsBest rows k cpu ram best
  sized-IsBest best (h, precedes) =
      let found = In-filters (keyed key_of_vm k) (has_size cpu ram) best rows h in
      let size = (has_size-equal cpu ram best).0 found.2 in
      (found.0, (found.1, size.0, size.1), sized-Matches (Precedes best) precedes)

is_nearer_total :
    (cpu ram : ℤ) (a b : VmRow) → is_nearer cpu ram a b ≡ false → is_nearer cpu ram b a ≡ true
unfolding is_nearer
is_nearer_total cpu ram a b h = ground (arith, leb_runes_total a.name b.name)

nearest_sizes-AreNearest :
    (candidates : List VmRow) (cpu ram : ℤ)
    → AreNearest candidates cpu ram (nearest_sizes candidates cpu ram 5)
unfolding nearest_sizes
nearest_sizes-AreNearest candidates cpu ram = (
  sort (is_nearer cpu ram) candidates,
  sort-perm (is_nearer cpu ram) candidates,
  sort-is_sorted (is_nearer cpu ram) (is_nearer_total cpu ram) candidates,
  refl,
)

-- What a result tells: the best row, which is offered, or that no row matches, with the nearest
-- sizes, or that the best row is not offered.
abbrev pub Resolves :
    Offers → EmbeddedCatalog → Runes → Runes → Runes → ℤ → ℤ → Result SkuFault VmRow → Type 0
Resolves offers c csp csp_region arch cpu ram (ok best) =
    IsBest c.vm_rows (vm_region_arch_key csp csp_region arch) cpu ram best
    × (is_offered offers csp csp_region best.name ≡ true)
Resolves offers c csp csp_region arch cpu ram (err (sku_not_found near)) =
    All (λ r. Matches (vm_region_arch_key csp csp_region arch) cpu ram r → ⊥) c.vm_rows
    × AreNearest (candidates c.vm_rows (vm_region_arch_key csp csp_region arch)) cpu ram near
Resolves offers c csp csp_region arch cpu ram (err (not_offered name)) =
    (best : VmRow) × IsBest c.vm_rows (vm_region_arch_key csp csp_region arch) cpu ram best
    × (best.name ≡ name)
    × (is_offered offers csp csp_region name ≡ false)

module _ (offers : Offers) (c : EmbeddedCatalog) (csp csp_region arch : Runes) (cpu ram : ℤ) where
  abbrev key : Runes
  key = vm_region_arch_key csp csp_region arch

  pick_sku-Resolves :
      (xs : List VmRow)
      → sized c.vm_rows key cpu ram ≡ xs
      → Resolves offers c csp csp_region arch cpu ram
          (pick_sku offers csp csp_region cpu ram (candidates c.vm_rows key) xs)
  unfolding pick_sku
  pick_sku-Resolves [] e =
      (sized-Matches c.vm_rows key cpu ram (λ _. ⊥) (rw e tt), nearest_sizes-AreNearest _ cpu ram)
  pick_sku-Resolves (r ∷ rs) e =
      let best = best_of r rs in
      let leads = sized-IsBest c.vm_rows key cpu ram best (rw e (best_of-Leads r rs)) in
      elim (Bool-cases (is_offered offers csp csp_region best.name)) [
        | inl f ↦ rw f (leads, f)
        | inr f ↦ rw f (best, leads, refl, f)
      ]

  -- In a catalog whose index agrees with its rows: the resolution of a size succeeds with a row that has
  -- the requested provider, region, architecture, CPUs and memory, ranks first among all such rows by
  -- family and then by name, and is on offer; or it fails since that row is not on offer; or it fails
  -- since no row matches, and then tells the first five candidates in the order of their distance.
  pub resolve_sku-Resolves :
      IsIndexed c
      → Resolves offers c csp csp_region arch cpu ram
          (resolve_sku offers c csp csp_region arch cpu ram)
  unfolding resolve_sku
  resolve_sku-Resolves h = rw (h.vms key) (pick_sku-Resolves (sized c.vm_rows key cpu ram) refl)
