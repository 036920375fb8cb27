-- ===== src/GoLang/Map.antt =====
-- Go's maps with texts for keys, as lists of entries.
use terraform_provider_pyxcl.Prelude.{
  ◌≡◌, refl, sym, Bool, inl, inr, Option, none, some, List, [], ◌∷◌, ◌++◌, arith, Bool-cases,
  if◌then◌else◌, or_else, find, filter, find-append, filter-append, append_nil, is_some,
  Option-cases,
}
use terraform_provider_pyxcl.GoLang.Text.{Runes, text_eq, text_eq_iff}

abbrev pub Map {ℓ} : Type ℓ → Type ℓ
Map A = List (Runes × A)

module _ {ℓ} {A : Type ℓ} where
  -- v, ok := m[k]
  unfoldable pub lookup_runes : Runes → Map A → Option A
  lookup_runes k [] = none
  lookup_runes k ((j, v) ∷ m) = let rest = lookup_runes k m in if text_eq j k then some v else rest

  -- m[k] = v
  unfoldable pub set : Runes → A → Map A → Map A
  set k v [] = (k, v) ∷ []
  set k v ((j, w) ∷ m) = let rest = set k v m in if text_eq j k then (j, v) ∷ m else (j, w) ∷ rest

  -- if _, exists := m[k]; !exists { m[k] = v }
  unfoldable pub set_absent : Runes → A → Map A → Map A
  set_absent k v m = if is_some (lookup_runes k m) then m else set k v m

  pub lookup_runes-set :
      (k : Runes) (v : A) (m : Map A) (j : Runes)
      → lookup_runes j (set k v m) ≡ (if text_eq k j then some v else lookup_runes j m)
  unfolding lookup_runes set
  lookup_runes-set k v [] j = refl
  lookup_runes-set k v ((i, w) ∷ m) j = elim (Bool-cases (text_eq i k)) [
    | inl e ↦ let same = (text_eq_iff i k).0 e in rw (e, sym same) (ground arith)
    | inr e ↦
        rw (e, lookup_runes-set k v m j)
          (ground (arith, text_eq_iff i j, text_eq_iff k j, text_eq_iff i k))
  ]

  pub or_else-none : (o : Option A) → o ≡ or_else o none
  or_else-none none = refl
  or_else-none (some a) = refl

  pub lookup_runes-set_absent :
      (k : Runes) (v : A) (m : Map A) (j : Runes)
      → lookup_runes j (set_absent k v m)
        ≡ or_else (lookup_runes j m) (if text_eq k j then some v else none)
  unfolding set_absent
  lookup_runes-set_absent k v m j = elim (Option-cases (lookup_runes k m)) [
    | inl e ↦ elim (Bool-cases (text_eq k j)) [
      | inl same ↦
          let h = (text_eq_iff k j).0 same in rw (e, lookup_runes-set k v m j, same, sym h, e) refl
      | inr other ↦ rw (e, lookup_runes-set k v m j, other) (or_else-none (lookup_runes j m))
    ]
    | inr (w, e) ↦ elim (Bool-cases (text_eq k j)) [
      | inl same ↦ let h = (text_eq_iff k j).0 same in rw (same, sym h, e) e
      | inr other ↦ rw (e, other) (or_else-none (lookup_runes j m))
    ]
  ]

module _ {ℓ} {A : Type ℓ} where
  -- m[k] for a map of slices
  abbrev pub listed : Option (List A) → List A
  listed none = []
  listed (some as') = as'

  unfoldable pub entries : Runes → Map (List A) → List A
  entries k m = listed (lookup_runes k m)

  -- m[k] = append(m[k], v)
  unfoldable pub append_at : Runes → A → Map (List A) → Map (List A)
  unfolding entries
  append_at k v m = set k (entries k m ++ v ∷ []) m

module _ {ℓ} {A : Type ℓ} (key : A → Runes) where
  abbrev pub keyed : Runes → A → Bool
  keyed k r = text_eq (key r) k

  -- The map has, for every key, the first row with that key.
  abbrev pub FirstOf : List A → Map A → Type ℓ
  FirstOf rows m = (k : Runes) → lookup_runes k m ≡ find (keyed k) rows

  -- The map has, for every key, the rows with that key in their order.
  abbrev pub AllOf : List A → Map (List A) → Type ℓ
  AllOf rows m = (k : Runes) → entries k m ≡ filter (keyed k) rows

  pub FirstOf-set_absent :
      (rows : List A) (m : Map A) (r : A)
      → FirstOf rows m
      → FirstOf (rows ++ r ∷ []) (set_absent (key r) r m)
  FirstOf-set_absent rows m r h k =
      rw (lookup_runes-set_absent (key r) r m k, h k, find-append (keyed k) rows (r ∷ [])) refl

  pub AllOf-append_at :
      (rows : List A) (m : Map (List A)) (r : A)
      → AllOf rows m
      → AllOf (rows ++ r ∷ []) (append_at (key r) r m)
  unfolding append_at entries
  AllOf-append_at rows m r h k = elim (Bool-cases (text_eq (key r) k)) [
    | inl same ↦
        let e = (text_eq_iff (key r) k).0 same in
        rw
          (
            lookup_runes-set (key r) (entries (key r) m ++ r ∷ []) m k,
            same,
            filter-append (keyed k) rows (r ∷ []),
            same,
            e,
            h k,
          )
          refl
    | inr other ↦
        rw
          (
            lookup_runes-set (key r) (entries (key r) m ++ r ∷ []) m k,
            other,
            filter-append (keyed k) rows (r ∷ []),
            other,
            append_nil (filter (keyed k) rows),
          )
          (h k)
  ]
