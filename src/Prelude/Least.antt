-- ===== src/Prelude/Least.antt =====
-- The element that a loop keeps: it starts with one and takes each that is better.
use mathlib.Core.Path.{◌≡◌, refl, subst}
use mathlib.Core.Bool.{Bool, true, false}
use mathlib.Core.List.{List, [], ◌∷◌}
use mathlib.Core.Logic.{inl, inr}
use terraform_provider_pyxcl.Prelude.Tests.{if◌then◌else◌, Bool-cases}
use terraform_provider_pyxcl.Prelude.Lists.{All, In, filter, In-filter, All-filter, All-weaken}

module _ {A : Type 0} where
  abbrev pub least_by : (A → A → Bool) → A → List A → A
  least_by better best [] = best
  least_by better best (r ∷ rs) = least_by better (if better r best then r else best) rs

  -- An element of the list that precedes all of it.
  abbrev pub Leads : (A → A → Type 0) → List A → A → Type 0
  Leads R rows b = In b rows × All (R b) rows

  -- A test that chooses by a relation: an element precedes itself, and of two the chosen one precedes
  -- the other.
  pub record Chooses (better : A → A → Bool) (R : A → A → Type 0) : Type 0 where
    pub self : (a : A) → R a a
    pub trans : (a b c : A) → R a b → R b c → R a c
    pub taken : (r best : A) → better r best ≡ true → R r best
    pub left : (r best : A) → better r best ≡ false → R best r

  least_by-taken :
      (better : A → A → Bool) (best r : A) (rs : List A)
      → better r best ≡ true
      → least_by better r rs ≡ least_by better best (r ∷ rs)
  least_by-taken better best r rs e = rw e refl

  least_by-left :
      (better : A → A → Bool) (best r : A) (rs : List A)
      → better r best ≡ false
      → least_by better best rs ≡ least_by better best (r ∷ rs)
  least_by-left better best r rs e = rw e refl

  pub least_by-Leads :
      (better : A → A → Bool) (R : A → A → Type 0)
      → Chooses better R
      → (best : A) (rs : List A) → Leads R (best ∷ rs) (least_by better best rs)
  least_by-Leads better R c best [] = (inl refl, (c.self best, tt))
  least_by-Leads better R c best (r ∷ rs) = elim (Bool-cases (better r best)) [
    | inl e ↦
        let h = least_by-Leads better R c r rs in
        let first = c.trans (least_by better r rs) r best h.1.0 (c.taken r best e) in
        subst (λ b. Leads R (best ∷ r ∷ rs) b) (least_by-taken better best r rs e)
          (inr h.0, (first, h.1))
    | inr e ↦
        let h = least_by-Leads better R c best rs in
        let later = c.trans (least_by better best rs) best r h.1.0 (c.left r best e) in
        subst (λ b. Leads R (best ∷ r ∷ rs) b) (least_by-left better best r rs e)
          (elim h.0 [ inl f ↦ inl f | inr f ↦ inr (inr f) ], (h.1.0, (later, h.1.1)))
  ]

  -- What holds of the elements that pass two filters.
  pub All-filters :
      (Q : A → Type 0) (p q : A → Bool) (rows : List A)
      → All Q (filter q (filter p rows))
      → All (λ r. p r ≡ true → q r ≡ true → Q r) rows
  All-filters Q p q rows h =
      All-weaken _ _ rows (λ r f. f) (All-filter _ p rows (All-filter Q q (filter p rows) h))

  pub In-filters :
      (p q : A → Bool) (a : A) (rows : List A)
      → In a (filter q (filter p rows))
      → In a rows × (p a ≡ true) × (q a ≡ true)
  In-filters p q a rows h =
      let first = In-filter q a (filter p rows) h in
      let second = In-filter p a rows first.0 in (second.0, second.1, first.1)
