-- ===== src/Catalog/VirtualMachine/Sizes.antt =====
-- Ranks of families and the sizes that are nearest to a request (internal/catalog/virtualmachine.go).
use terraform_provider_pyxcl.Prelude.{
  ℕ, zero, suc, Bool, ◌&&◌, ◌||◌, Option, none, some, List, [], ◌∷◌, if◌then◌else◌,
}
use terraform_provider_pyxcl.Prelude.Int.{ℤ, pos, ltb_ℤ, eq_ℤ}
use terraform_provider_pyxcl.GoLang.Int64.{add64, sub64, mul64}
use terraform_provider_pyxcl.GoLang.Map.{Map, lookup_runes}
use terraform_provider_pyxcl.GoLang.Sort.{sort, leb_runes}
use terraform_provider_pyxcl.GoLang.Text.{codes}
use terraform_provider_pyxcl.Catalog.VirtualMachine.{VmRow}

-- preferredFamilies
unfoldable pub preferred_families : Map ℕ
preferred_families =
    (codes "t3", 0)
    ∷ (codes "t4g", 0)
    ∷ (codes "e2", 0)
    ∷ (codes "Droplet", 0)
    ∷ (codes "t3a", 1)
    ∷ (codes "m5", 2)
    ∷ (codes "n2", 2)
    ∷ (codes "c5", 3)
    ∷ (codes "standard", 0)
    ∷ (codes "bx2", 0)
    ∷ (codes "cx2", 3)
    ∷ (codes "mx2", 2)
    ∷ []

abbrev rank_or : Option ℕ → ℕ
rank_or none = 100
rank_or (some rank) = rank

-- familyRank
unfoldable pub family_rank : VmRow → ℕ
unfolding preferred_families lookup_runes
family_rank r = rank_or (lookup_runes r.family preferred_families)

-- abs
unfoldable pub abs : ℤ → ℤ
abs x = if ltb_ℤ x (pos 0) then sub64 (pos 0) x else x

-- The distance of a size from the requested one.
unfoldable pub distance : ℤ → ℤ → VmRow → ℤ
distance cpu ram r = add64 (mul64 (abs (sub64 r.cpu cpu)) (pos 4)) (abs (sub64 r.ram ram))

-- The order of nearestSizes: by distance, then by name.
unfoldable pub is_nearer : ℤ → ℤ → VmRow → VmRow → Bool
is_nearer cpu ram a b =
    ltb_ℤ (distance cpu ram a) (distance cpu ram b)
    || eq_ℤ (distance cpu ram a) (distance cpu ram b) && leb_runes a.name b.name

abbrev pub take {ℓ} : {A : Type ℓ} → ℕ → List A → List A
take zero xs = []
take (suc n) [] = []
take (suc n) (x ∷ xs) = x ∷ take n xs

-- nearestSizes
unfoldable pub nearest_sizes : List VmRow → ℤ → ℤ → ℕ → List VmRow
nearest_sizes candidates cpu ram n = take n (sort (is_nearer cpu ram) candidates)
