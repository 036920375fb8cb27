-- ===== src/ArchMismatch/Sets.antt =====
-- Sets of resource types (internal/archmismatch/detector.go), as lists of different texts.
use terraform_provider_pyxcl.Prelude.{
  ℕ, ◌+◌, ◌≡◌, refl, sym, ap, Bool, true, false, ◌||◌, not, List, [], ◌∷◌, if◌then◌else◌, inl, inr,
  Bool-cases, arith, ◌&&◌,
}
use terraform_provider_pyxcl.GoLang.Text.{Runes, text_eq, text_eq_iff, trim_space}

-- m[k] of a set
abbrev pub has_key : Runes → List Runes → Bool
has_key k [] = false
has_key k (x ∷ xs) = text_eq k x || has_key k xs

-- m[k] = true
unfoldable pub add_key : Runes → List Runes → List Runes
add_key k m = if has_key k m then m else k ∷ m

-- toSet
unfoldable pub to_set : List Runes → List Runes
unfolding add_key
to_set [] = []
to_set (v ∷ vs) = add_key (trim_space v) (to_set vs)

-- How many keys of the first set the second one has.
abbrev pub shared_keys : List Runes → List Runes → ℕ
shared_keys [] b = 0
shared_keys (k ∷ a) b = (if has_key k b then 1 else 0) + shared_keys a b

-- No key stands twice.
abbrev pub is_distinct : List Runes → Bool
is_distinct [] = true
is_distinct (k ∷ a) = not (has_key k a) && is_distinct a

pub to_set-is_distinct : (vs : List Runes) → is_distinct (to_set vs) ≡ true
unfolding to_set add_key
to_set-is_distinct [] = refl
to_set-is_distinct (v ∷ vs) = elim (Bool-cases (has_key (trim_space v) (to_set vs))) [
  | inl e ↦ rw e (to_set-is_distinct vs)
  | inr e ↦ rw e (ground (arith, to_set-is_distinct vs))
]

text_eq_sym : (s t : Runes) → text_eq s t ≡ text_eq t s
text_eq_sym s t = ground (arith, text_eq_iff s t, text_eq_iff t s)

shared_keys-nothing : (b : List Runes) → shared_keys b [] ≡ 0
shared_keys-nothing [] = refl
shared_keys-nothing (k ∷ b) = omega (arith, shared_keys-nothing b)

-- One more key in the second set counts once, if the first one has it.
shared_keys-cons :
    (k : Runes) (a b : List Runes)
    → is_distinct b ≡ true
    → has_key k a ≡ false
    → shared_keys b (k ∷ a) ≡ (if has_key k b then 1 else 0) + shared_keys b a
shared_keys-cons k a [] d n = refl
shared_keys-cons k a (x ∷ b) d n = elim (Bool-cases (text_eq k x)) [
  | inl e ↦
      let same = (text_eq_iff k x).0 e in
      let n' = rw same at n in
      ground (arith, shared_keys-cons k a b, text_eq_sym x k, e, n', ap (λ y. has_key y b) same)
  | inr e ↦ ground (arith, shared_keys-cons k a b, text_eq_sym x k)
]

pub shared_keys_sym :
    (a b : List Runes)
    → is_distinct a ≡ true
    → is_distinct b ≡ true
    → shared_keys a b ≡ shared_keys b a
shared_keys_sym [] b p q = sym (shared_keys-nothing b)
shared_keys_sym (k ∷ a) b p q = ground (arith, shared_keys_sym a b, shared_keys-cons k a b)
