-- ===== src/Catalog/Network/Spread.antt =====
-- How deriveZones spreads subnets over zones (internal/catalog/network.go).
use mathlib.Core.List.{append_cancel_left}
use terraform_provider_pyxcl.Prelude.{
  ℕ, zero, suc, ◌+◌, ◌%◌, ◌<◌, ◌≡◌, refl, sym, ap, ◌∙◌, ◌↔◌, Bool, true, false, ◌||◌, Option, none,
  some, List, [], ◌∷◌, ◌++◌, if◌then◌else◌, arith,
}
use terraform_provider_pyxcl.GoLang.Strconv.{itoa, itoa_injective}
use terraform_provider_pyxcl.GoLang.Text.{Runes, text_eq}
use terraform_provider_pyxcl.Catalog.Names.{
  aws, gcp, digitalocean, linode, oracle, ibm, alibaba, stackit,
}
use terraform_provider_pyxcl.Catalog.Network.Zones.{
  at_index, letters, zone_of, zones_from, zones_if,
}

-- How a provider's subnets are spread: over so many zones in turn, each in a zone of its own, or all
-- in the region.
pub data Spread : Type 0 where
  cycle : ℕ → Spread
  own_zone : Spread
  whole_region : Spread

abbrev pub spread_of : Runes → Spread
spread_of p =
    if text_eq p aws || text_eq p alibaba
    then cycle 6
    else if text_eq p gcp
    then cycle 6
    else if text_eq p digitalocean || text_eq p linode
    then whole_region
    else if text_eq p ibm
    then cycle 3
    else if text_eq p oracle
    then own_zone
    else if text_eq p stackit
    then cycle 3
    else whole_region

-- The i-th and the j-th subnet share a zone.
abbrev pub Coincide : Spread → ℕ → ℕ → Type 0
Coincide (cycle k) i j = i % k ≡ j % k
Coincide own_zone i j = i ≡ j
Coincide whole_region i j = Unit

letter : (n : ℕ) → n < 6 → at_index letters n ≡ (b'a' + n) ∷ []
unfolding at_index
letter zero h = refl
letter (suc zero) h = refl
letter (suc (suc zero)) h = refl
letter (suc (suc (suc zero))) h = refl
letter (suc (suc (suc (suc zero)))) h = refl
letter (suc (suc (suc (suc (suc zero))))) h = refl
letter (suc (suc (suc (suc (suc (suc n)))))) h = absurd (omega arith)

letter_injective : (m n : ℕ) → m < 6 → n < 6 → at_index letters m ≡ at_index letters n → m ≡ n
letter_injective m n h k e =
    let same : ◌≡◌ {A = List ℕ} ((b'a' + m) ∷ []) ((b'a' + n) ∷ []) =
      sym (letter m h) ∙ (e ∙ letter n k) in
    ground arith

-- Two indices are told apart by a zone exactly as `spread` says.
abbrev pub Names : Option (ℕ → Runes) → Spread → Type 0
Names none spread = (i j : ℕ) → Coincide spread i j
Names (some zone) spread = (i j : ℕ) → (zone i ≡ zone j) ↔ Coincide spread i j

-- Zones that differ in a part that can be read back.
module _ (wrap : Runes → Runes) (unwrap : (s t : Runes) → wrap s ≡ wrap t → s ≡ t) where
  letters-Names : Names (some (λ i. wrap (at_index letters (i % 6)))) (cycle 6)
  letters-Names i j = (
    λ e. letter_injective _ _ (omega arith) (omega arith) (unwrap _ _ e),
    λ e. ap (λ n. wrap (at_index letters n)) e,
  )

  numbers-Names : Names (some (λ i. wrap (itoa (i % 3 + 1)))) (cycle 3)
  numbers-Names i j = (
    λ e. let same = itoa_injective (i % 3 + 1) (j % 3 + 1) (unwrap _ _ e) in omega arith,
    λ e. ap (λ n. wrap (itoa (n + 1))) e,
  )

ordinals-Names : Names (some (λ i. itoa (i + 1))) own_zone
ordinals-Names i j =
    (λ e. let same = itoa_injective (i + 1) (j + 1) e in omega arith, λ e. ap (λ n. itoa (n + 1)) e)

pick :
    (b : Bool) (x y : Option (ℕ → Runes)) (s t : Spread)
    → Names x s
    → Names y t
    → Names (if b then x else y) (if b then s else t)
pick true x y s t h k = h
pick false x y s t h k = k

pub zone_of-Names : (p csp_region : Runes) → Names (zone_of p csp_region) (spread_of p)
unfolding zone_of
zone_of-Names p csp_region =
    let plain = append_cancel_left csp_region in
    let dashed = λ (s t : Runes) (e : csp_region ++ b'-' ∷ s ≡ csp_region ++ b'-' ∷ t).
      append_cancel_left (b'-' ∷ []) s t (append_cancel_left csp_region _ _ e) in
    pick (text_eq p aws || text_eq p alibaba) _ _ _ _ (letters-Names (λ s. csp_region ++ s) plain) (
      pick (text_eq p gcp) _ _ _ _ (letters-Names (λ s. csp_region ++ b'-' ∷ s) dashed) (
        pick (text_eq p digitalocean || text_eq p linode) _ _ _ _ (λ i j. tt)
          (pick (text_eq p ibm) _ _ _ _ (numbers-Names (λ s. csp_region ++ b'-' ∷ s) dashed) (
            pick (text_eq p oracle) _ _ _ _ ordinals-Names (
              pick (text_eq p stackit) _ _ _ _ (numbers-Names (λ s. csp_region ++ b'-' ∷ s) dashed)
                (λ i j. tt))))))

at_index-zones_from :
    (zone : ℕ → Runes) (k n i m : ℕ) → i < n → k + i ≡ m → at_index (zones_from zone k n) i ≡ zone m
unfolding at_index zones_from
at_index-zones_from zone k zero i m h e = absurd (omega arith)
at_index-zones_from zone k (suc n) zero m h e = ap zone (omega arith)
at_index-zones_from zone k (suc n) (suc i) m h e =
    at_index-zones_from zone (suc k) n i m (omega arith) (omega arith)

-- So the zones that are derived for n subnets tell their indices apart.
pub zones_if-Coincide :
    (z : Option (ℕ → Runes)) (spread : Spread) (n i j : ℕ)
    → Names z spread
    → i < n
    → j < n
    → (at_index (zones_if z n) i ≡ at_index (zones_if z n) j) ↔ Coincide spread i j
unfolding zones_if at_index
zones_if-Coincide none spread n i j names h k = (λ _. names i j, λ _. refl)
zones_if-Coincide (some zone) spread n i j names h k =
    rw
      (
        at_index-zones_from zone 0 n i i h (omega arith),
        at_index-zones_from zone 0 n j j k (omega arith),
      )
      (names i j)
