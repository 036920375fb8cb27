-- ===== src/Plan/Diff/Keys.antt =====
-- The keys of decoded maps: two maps with distinct keys, one of which has all keys of the other, have
-- the same keys exactly if they have the same size. This is what reflect.DeepEqual relies on.
use text.Mathlib.Text.{◌==◌ as str_eq}
use terraform_provider_pyxcl.Prelude.{
  ℕ, suc, String, ◌≡◌, refl, ◌∙◌, sym, ap, Bool, true, false, not, ◌&&◌, ◌||◌, arith, eq_iff, ◌==◌,
  if◌then◌else◌, Bool-cases, inl, inr,
}
use terraform_provider_pyxcl.GoLang.Float.{Float64}
use terraform_provider_pyxcl.GoLang.Value.{Value, Fields, end, field, size}

suc_eq : (a b : ℕ) → (suc a == suc b) ≡ (a == b)
suc_eq a b = ground arith

module _ {F : Float64} where
  unfoldable pub has_key : String → Fields F → Bool
  has_key k end = false
  has_key k (field j v m) = str_eq j k || has_key k m

  -- Every key of the first map is one of the second.
  unfoldable pub subset : Fields F → Fields F → Bool
  subset end n = true
  subset (field k v m) n = has_key k n && subset m n

  unfoldable pub distinct : Fields F → Bool
  distinct end = true
  distinct (field k v m) = not (has_key k m) && distinct m

  remove : String → Fields F → Fields F
  remove k end = end
  remove k (field j v m) = let rest = remove k m in if str_eq j k then m else field j v rest

  has_key-remove_ne :
      (j k : String) (m : Fields F) → str_eq k j ≡ false → has_key j (remove k m) ≡ has_key j m
  unfolding has_key remove
  has_key-remove_ne j k end h = refl
  has_key-remove_ne j k (field i v m) h =
      ground (arith, has_key-remove_ne j k m h, eq_iff i k, eq_iff i j, eq_iff k j)

  distinct-remove : (k : String) (m : Fields F) → distinct m ≡ true → distinct (remove k m) ≡ true
  unfolding distinct remove
  distinct-remove k end h = refl
  distinct-remove k (field j v m) h = elim (Bool-cases (str_eq j k)) [
    | inl same ↦ rw same (ground arith)
    | inr other ↦
        rw (other, has_key-remove_ne j k m (ground (arith, eq_iff j k, eq_iff k j)))
          (ground (arith, distinct-remove k m))
  ]

  size-remove : (k : String) (m : Fields F) → has_key k m ≡ true → size m ≡ suc (size (remove k m))
  unfolding has_key remove size
  size-remove k end h = cc
  size-remove k (field j v m) h = elim (Bool-cases (str_eq j k)) [
    | inl same ↦ rw same
    | inr other ↦ rw other (ap suc (size-remove k m (ground arith)))
  ]

  subset-remove :
      (k : String) (m n : Fields F)
      → has_key k m ≡ false
      → subset m n ≡ true
      → subset m (remove k n) ≡ true
  unfolding has_key subset
  subset-remove k end n h s = refl
  subset-remove k (field j v m) n h s =
      ground (arith, has_key-remove_ne j k n, subset-remove k m n, eq_iff j k, eq_iff k j)

  -- A key that the first map lacks may be dropped from the second.
  subset-field :
      (k : String) (v : Value F) (m n : Fields F)
      → has_key k n ≡ false
      → subset n (field k v m) ≡ subset n m
  unfolding has_key subset
  subset-field k v m end h = refl
  subset-field k v m (field j u n) h = ground (arith, subset-field k v m n, eq_iff j k, eq_iff k j)

  subset_of_remove :
      (k : String) (v : Value F) (m n : Fields F)
      → distinct n ≡ true
      → has_key k n ≡ true
      → subset n (field k v m) ≡ subset (remove k n) m
  unfolding has_key subset distinct remove
  subset_of_remove k v m end d h = cc
  subset_of_remove k v m (field j u n) d h = elim (Bool-cases (str_eq j k)) [
    | inl same ↦ rw same (ground (arith, subset-field k v m n, eq_iff j k, eq_iff k j))
    | inr other ↦ rw other (ground (arith, subset_of_remove k v m n, eq_iff j k, eq_iff k j))
  ]

  pub subset-size :
      (m n : Fields F)
      → distinct m ≡ true
      → distinct n ≡ true
      → subset m n ≡ true
      → subset n m ≡ (size m == size n)
  unfolding distinct subset size has_key
  subset-size end end d e s = refl
  subset-size end (field k v n) d e s = ground arith
  subset-size (field k v m) n d e s =
      let fresh : has_key k m ≡ false = ground arith in
      let found : has_key k n ≡ true = ground arith in
      subset_of_remove k v m n e found
      ∙ subset-size m (remove k n) (ground arith) (distinct-remove k n e)
          (subset-remove k m n fresh (ground arith))
      ∙ sym (suc_eq (size m) (size (remove k n)))
      ∙ ap (λ c. suc (size m) == c) (sym (size-remove k n found))
