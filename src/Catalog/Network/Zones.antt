-- ===== src/Catalog/Network/Zones.antt =====
-- deriveZones of internal/catalog/network.go.
use terraform_provider_pyxcl.Prelude.{
  ℕ, zero, suc, ◌+◌, ◌%◌, ◌||◌, Option, none, some, List, [], ◌∷◌, ◌++◌, if◌then◌else◌,
}
use terraform_provider_pyxcl.GoLang.Strconv.{itoa}
use terraform_provider_pyxcl.GoLang.Text.{Runes, codes, text_eq}
use terraform_provider_pyxcl.Catalog.Names.{
  aws, gcp, digitalocean, linode, oracle, ibm, alibaba, stackit,
}

-- xs[i], or "" out of range
unfoldable pub at_index : List Runes → ℕ → Runes
at_index [] i = []
at_index (x ∷ xs) zero = x
at_index (x ∷ xs) (suc i) = at_index xs i

abbrev pub letters : List Runes
letters = codes "a" ∷ codes "b" ∷ codes "c" ∷ codes "d" ∷ codes "e" ∷ codes "f" ∷ []

-- The i-th zone that a case of the switch appends; some cases append none.
unfoldable pub zone_of : Runes → Runes → Option (ℕ → Runes)
zone_of provider csp_region =
    if text_eq provider aws || text_eq provider alibaba
    then some (λ i. csp_region ++ at_index letters (i % 6))
    else if text_eq provider gcp
    then some (λ i. csp_region ++ (codes "-" ++ at_index letters (i % 6)))
    else if text_eq provider digitalocean || text_eq provider linode
    then none
    else if text_eq provider ibm
    then some (λ i. csp_region ++ (codes "-" ++ itoa (i % 3 + 1)))
    else if text_eq provider oracle
    then some (λ i. itoa (i + 1))
    else if text_eq provider stackit
    then some (λ i. csp_region ++ (codes "-" ++ itoa (i % 3 + 1)))
    else none

-- for i := 0; i < n; i++, with n rounds left
unfoldable pub zones_from : (ℕ → Runes) → ℕ → ℕ → List Runes
zones_from zone i zero = []
zones_from zone i (suc n) = zone i ∷ zones_from zone (suc i) n

unfoldable pub zones_if : Option (ℕ → Runes) → ℕ → List Runes
zones_if none n = []
zones_if (some zone) n = zones_from zone 0 n

-- deriveZones
unfoldable pub derive_zones : Runes → Runes → ℕ → List Runes
derive_zones provider csp_region n = zones_if (zone_of provider csp_region) n
