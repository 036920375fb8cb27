-- ===== src/GoLang/Sort.antt =====
-- Go's `sort` package: the ascending order of a list is unique, so insertion sort stands for any.
use mathlib.Core.List.{Perm}
use mathlib.Core.List.Perm
use terraform_provider_pyxcl.Prelude.{
  ℕ, Bool, true, false, not, ◌≡◌, refl, List, [], ◌∷◌, ltb, ◌==◌, ◌||◌, ◌&&◌, if◌then◌else◌,
  Bool-cases, inl, inr, arith, all, All, ◌∙◌,
}
use terraform_provider_pyxcl.Prelude.Int.{ℤ, leb_ℤ}

module _ {ℓ} {A : Type ℓ} (le : A → A → Bool) where
  unfoldable pub insert : A → List A → List A
  insert a [] = a ∷ []
  insert a (b ∷ bs) = if le a b then a ∷ b ∷ bs else b ∷ insert a bs

  unfoldable pub sort : List A → List A
  sort [] = []
  sort (a ∷ as') = insert a (sort as')

  -- Each element is at most the next.
  abbrev pub is_sorted : List A → Bool
  is_sorted [] = true
  is_sorted (a ∷ []) = true
  is_sorted (a ∷ b ∷ bs) = le a b && is_sorted (b ∷ bs)

  insert-perm : (a : A) (bs : List A) → Perm (insert a bs) (a ∷ bs)
  unfolding insert
  insert-perm a [] = Perm.refl (a ∷ [])
  insert-perm a (b ∷ bs) = elim (Bool-cases (le a b)) [
    | inl h ↦ rw h (Perm.refl (a ∷ b ∷ bs))
    | inr h ↦ rw h (Perm.trans (Perm.cons b (insert-perm a bs)) (Perm.swap a b bs))
  ]

  pub sort-perm : (as' : List A) → Perm (sort as') as'
  unfolding sort
  sort-perm [] = Perm.refl []
  sort-perm (a ∷ as') = Perm.trans (insert-perm a (sort as')) (Perm.cons a (sort-perm as'))

  module _ (total : (a b : A) → le a b ≡ false → le b a ≡ true) where
    insert-is_sorted : (a : A) (bs : List A) → is_sorted bs ≡ true → is_sorted (insert a bs) ≡ true
    unfolding insert
    insert-is_sorted a [] h = refl
    insert-is_sorted a (b ∷ []) h = ground (arith, total a b)
    insert-is_sorted a (b ∷ c ∷ cs) h =
        ground (arith, total a b, total a c, insert-is_sorted a (c ∷ cs))

    pub sort-is_sorted : (as' : List A) → is_sorted (sort as') ≡ true
    unfolding sort
    sort-is_sorted [] = refl
    sort-is_sorted (a ∷ as') = insert-is_sorted a (sort as') (sort-is_sorted as')

module _ {A : Type 0} (le : A → A → Bool) where
  all-insert : (q : A → Bool) (a : A) (bs : List A) → all q (insert le a bs) ≡ (q a && all q bs)
  unfolding insert
  all-insert q a [] = refl
  all-insert q a (b ∷ bs) = ground (arith, all-insert q a bs)

  pub all-sort : (q : A → Bool) (as' : List A) → all q (sort le as') ≡ all q as'
  unfolding sort
  all-sort q [] = refl
  all-sort q (a ∷ as') = ground (arith, all-insert q a (sort le as'), all-sort q as')

  insert-All : (P : A → Type 0) (a : A) (bs : List A) → P a → All P bs → All P (insert le a bs)
  unfolding insert
  insert-All P a [] p h = (p, h)
  insert-All P a (b ∷ bs) p (q, h) = elim (Bool-cases (le a b)) [
    | inl e ↦ rw e (p, (q, h))
    | inr e ↦ rw e (q, insert-All P a bs p h)
  ]

  pub sort-All : (P : A → Type 0) (as' : List A) → All P as' → All P (sort le as')
  unfolding sort
  sort-All P [] h = tt
  sort-All P (a ∷ as') (p, h) = insert-All P a (sort le as') p (sort-All P as' h)

-- Each element is apart from those after it.
abbrev pub are_apart : {A : Type 0} → (A → A → Bool) → List A → Bool
are_apart apart [] = true
are_apart apart (a ∷ as') = all (apart a) as' && are_apart apart as'

-- Elements that are apart from each other and stand in a total order are in its strict order.
module _ {A : Type 0} (le lt apart : A → A → Bool)
    (below : (a b : A) → le a b ≡ true → apart a b ≡ true → lt a b ≡ true)
    (above : (a b : A) → le a b ≡ false → lt b a ≡ true) where
  pub insert-ascends :
      (a : A) (bs : List A)
      → all (apart a) bs ≡ true
      → is_sorted lt bs ≡ true
      → is_sorted lt (insert le a bs) ≡ true
  unfolding insert
  insert-ascends a [] k h = refl
  insert-ascends a (b ∷ []) k h = ground (arith, below a b, above a b)
  insert-ascends a (b ∷ c ∷ cs) k h =
      ground (arith, below a b, above a b, above a c, insert-ascends a (c ∷ cs))

  pub sort-ascends : (as' : List A) → are_apart apart as' ≡ true → is_sorted lt (sort le as') ≡ true
  unfolding sort
  sort-ascends [] h = refl
  sort-ascends (a ∷ as') h =
      insert-ascends a (sort le as') (all-sort le (apart a) as' ∙ ground arith)
        (sort-ascends as' (ground arith))

-- The order of texts: bytes of UTF-8 and code points agree on it.
unfoldable pub leb_runes : List ℕ → List ℕ → Bool
leb_runes [] t = true
leb_runes (c ∷ s) [] = false
leb_runes (c ∷ s) (d ∷ t) = ltb c d || c == d && leb_runes s t

pub leb_ℤ_total : (a b : ℤ) → leb_ℤ a b ≡ false → leb_ℤ b a ≡ true
leb_ℤ_total a b h = ground arith

-- The operator < on texts.
unfoldable pub ltb_runes : List ℕ → List ℕ → Bool
ltb_runes s [] = false
ltb_runes [] (d ∷ t) = true
ltb_runes (c ∷ s) (d ∷ t) = ltb c d || c == d && ltb_runes s t

pub leb_runes_total : (s t : List ℕ) → leb_runes s t ≡ false → leb_runes t s ≡ true
unfolding leb_runes
leb_runes_total [] t h = cc
leb_runes_total (c ∷ s) [] h = refl
leb_runes_total (c ∷ s) (d ∷ t) h = ground (arith, leb_runes_total s t)

pub ltb_runes_leb : (s t : List ℕ) → ltb_runes s t ≡ not (leb_runes t s)
unfolding leb_runes ltb_runes
ltb_runes_leb [] [] = refl
ltb_runes_leb (c ∷ s) [] = refl
ltb_runes_leb [] (d ∷ t) = refl
ltb_runes_leb (c ∷ s) (d ∷ t) = ground (arith, ltb_runes_leb s t)

pub ltb_runes_trans :
    (s t u : List ℕ) → ltb_runes s t ≡ true → ltb_runes t u ≡ true → ltb_runes s u ≡ true
unfolding ltb_runes
ltb_runes_trans s t [] h k = cc k
ltb_runes_trans s [] (e ∷ u) h k = cc h
ltb_runes_trans [] (d ∷ t) (e ∷ u) h k = refl
ltb_runes_trans (c ∷ s) (d ∷ t) (e ∷ u) h k = ground (arith, ltb_runes_trans s t u)

pub ltb_runes_total : (s t : List ℕ) → ltb_runes s t ≡ false → ltb_runes t s ≡ false → s ≡ t
unfolding ltb_runes
ltb_runes_total [] [] h k = refl
ltb_runes_total [] (d ∷ t) h k = cc
ltb_runes_total (c ∷ s) [] h k = cc
ltb_runes_total (c ∷ s) (d ∷ t) h k = ground (arith, ltb_runes_total s t)

pub leb_runes_trans :
    (s t u : List ℕ) → leb_runes s t ≡ true → leb_runes t u ≡ true → leb_runes s u ≡ true
unfolding leb_runes
leb_runes_trans [] t u h k = refl
leb_runes_trans (c ∷ s) [] u h k = cc h
leb_runes_trans (c ∷ s) (d ∷ t) [] h k = cc k
leb_runes_trans (c ∷ s) (d ∷ t) (e ∷ u) h k = ground (arith, leb_runes_trans s t u)

pub leb_runes_refl : (s : List ℕ) → leb_runes s s ≡ true
unfolding leb_runes
leb_runes_refl [] = refl
leb_runes_refl (c ∷ s) = ground (arith, leb_runes_refl s)
