-- ===== src/ArchMismatch/Copies.antt =====
-- Modules with the same resource types (internal/archmismatch/detector.go).
use terraform_provider_pyxcl.Prelude.{
  ℕ, ◌+◌, ◌-◌, ◌==◌, ◌≡◌, refl, sym, ◌∙◌, true, ◌&&◌, List, [], ◌∷◌, map, length, arith,
  if◌then◌else◌, Bool-cases, inl, inr,
}
use terraform_provider_pyxcl.Prelude.Int.{pos}
use terraform_provider_pyxcl.GoLang.Float.{Float64}
use terraform_provider_pyxcl.GoLang.Text.{Runes, text_eq, text_eq_iff, trim_space}
use terraform_provider_pyxcl.ArchMismatch.Sets.{
  to_set, add_key, has_key, to_set-is_distinct, shared_keys, shared_keys_sym,
}
use terraform_provider_pyxcl.ArchMismatch.{jaccard_similarity, distinct_count}

has_key-to_set :
    (k : Runes) (vs : List Runes) → has_key k (to_set vs) ≡ has_key k (map trim_space vs)
unfolding to_set add_key
has_key-to_set k [] = refl
has_key-to_set k (v ∷ vs) = elim (Bool-cases (has_key (trim_space v) (to_set vs))) [
  | inl e ↦ elim (Bool-cases (text_eq k (trim_space v))) [
    | inl f ↦ let same = (text_eq_iff k (trim_space v)).0 f in rw (e, f, same) e
    | inr f ↦ rw (e, f) (has_key-to_set k vs)
  ]
  | inr e ↦ rw e (ground (arith, has_key-to_set k vs))
]

-- The same types but for their order, repetitions and the white space around them.
abbrev pub SameTypes : List Runes → List Runes → Type 0
SameTypes a b = (k : Runes) → has_key k (map trim_space a) ≡ has_key k (map trim_space b)

has_key_self : (k : Runes) (a : List Runes) → has_key k (k ∷ a) ≡ true
has_key_self k a = ground (arith, text_eq_iff k k)

has_key-cons : (k x : Runes) (a : List Runes) → has_key k a ≡ true → has_key k (x ∷ a) ≡ true
has_key-cons k x a h = ground arith

shared_keys-all :
    (a b : List Runes)
    → ((k : Runes) → has_key k a ≡ true → has_key k b ≡ true)
    → shared_keys a b ≡ length a
shared_keys-all [] b h = refl
shared_keys-all (x ∷ a) b h =
    ground (arith, h x (has_key_self x a), shared_keys-all a b (λ k e. h k (has_key-cons k x a e)))

module _ (a b : List Runes) (same : SameTypes a b) where
  to : (k : Runes) → has_key k (to_set a) ≡ true → has_key k (to_set b) ≡ true
  to k e = has_key-to_set k b ∙ (sym (same k) ∙ (sym (has_key-to_set k a) ∙ e))

  back : (k : Runes) → has_key k (to_set b) ≡ true → has_key k (to_set a) ≡ true
  back k e = has_key-to_set k a ∙ (same k ∙ (sym (has_key-to_set k b) ∙ e))

  shared : shared_keys (to_set a) (to_set b) ≡ length (to_set a)
  shared = shared_keys-all (to_set a) (to_set b) to

  lengths : length (to_set a) ≡ length (to_set b)
  lengths =
      sym shared
      ∙ (shared_keys_sym (to_set a) (to_set b) (to_set-is_distinct a) (to_set-is_distinct b)
          ∙ shared_keys-all (to_set b) (to_set a) back)

  -- Lists with the same types, whatever their order, repetitions and white space, count the same number
  -- n of distinct types, and their similarity is 1 for n = 0 and else n / n in float64.
  pub jaccard_similarity-distinct_count :
      (F : Float64)
      → (distinct_count a ≡ distinct_count b)
        × (jaccard_similarity F a b ≡ (
            if distinct_count a == 0
            then F.lit 1
            else F.div (F.of_int (pos (distinct_count a))) (F.of_int (pos (distinct_count a)))))
  unfolding jaccard_similarity distinct_count
  jaccard_similarity-distinct_count F =
      (lengths, rw (sym lengths, shared) (copy (length (to_set a)) F))
    where
      copy :
          (n : ℕ) (F : Float64)
          → (if n == 0 && n == 0
              then F.lit 1
              else if n + n - n == 0
              then F.lit 0
              else F.div (F.of_int (pos n)) (F.of_int (pos (n + n - n))))
            ≡ (if n == 0 then F.lit 1 else F.div (F.of_int (pos n)) (F.of_int (pos n)))
      copy n F = let e : n + n - n ≡ n = omega arith in rw e (ground arith)
