-- ===== src/Catalog/ObjectStorage/Named.antt =====
-- The names of buckets (internal/catalog/objectstorage.go).
use terraform_provider_pyxcl.Prelude.{
  ℕ, zero, suc, ◌≤◌, ◌≡◌, refl, sym, ◌∙◌, Bool, true, false, [], ◌∷◌, ◌++◌, all, length,
  length-append, ltb, arith, Bool-cases, inl, inr,
}
use terraform_provider_pyxcl.GoLang.Text.{Runes, to_lower}
use terraform_provider_pyxcl.Catalog.ObjectStorage.BucketName.{
  is_alnum, is_bucket_rune, starts_well, max_prefix, sanitise_from, trim_left_hyphen, trim_hyphens,
  sanitise_bucket_prefix, shortened, or_pyx, derive_bucket_name, sanitise_from-all,
  trim_left_hyphen-all, trim_left_hyphen-starts_well, trim_right_hyphen-all,
  trim_right_hyphen-starts_well, length-trim_left_hyphen, length-trim_right_hyphen,
}
use terraform_provider_pyxcl.Catalog.VirtualMachine.Sizes.{take}

-- The last letter, if any, is no hyphen.
abbrev pub ends_well : Runes → Bool
ends_well [] = true
ends_well (c ∷ []) = is_alnum c
ends_well (c ∷ d ∷ s) = ends_well (d ∷ s)

-- A name that every provider takes for a bucket: 3 to 63 small letters, digits and hyphens, with a letter
-- or a digit first and last.
pub record IsBucketName (name : Runes) : Type 0 where
  pub long : 3 ≤ length name
  pub short : length name ≤ 63
  pub letters : all is_bucket_rune name ≡ true
  pub starts : starts_well name ≡ true
  pub ends : ends_well name ≡ true

-- What the code relies on of SHA-256 in hexadecimal: 64 digits, whose letters are small.
pub record IsHexSum (hex_sum : Runes → Runes) : Type 0 where
  pub digits : (s : Runes) → length (hex_sum s) ≡ 64
  pub letters : (s : Runes) → all is_alnum (hex_sum s) ≡ true

-- The part before the hash: at most 52 letters, of which the first is no hyphen.
record IsPrefix (s : Runes) : Type 0 where
  short : length s ≤ 52
  letters : all is_bucket_rune s ≡ true
  starts : starts_well s ≡ true

all-take : (p : ℕ → Bool) (n : ℕ) (s : Runes) → all p s ≡ true → all p (take n s) ≡ true
all-take p zero s h = refl
all-take p (suc n) [] h = refl
all-take p (suc n) (c ∷ s) h = ground (arith, all-take p n s)

length-take : (n : ℕ) (s : Runes) → length (take n s) ≤ n
length-take zero s = omega arith
length-take (suc n) [] = omega arith
length-take (suc n) (c ∷ s) = omega (arith, length-take n s)

length-take_all : (n : ℕ) (s : Runes) → n ≤ length s → length (take n s) ≡ n
length-take_all zero s h = refl
length-take_all (suc n) [] h = absurd (omega arith)
length-take_all (suc n) (c ∷ s) h = omega (arith, length-take_all n s (omega arith))

trim_hyphens-IsPrefix :
    (s : Runes) → all is_bucket_rune s ≡ true → length s ≤ 52 → IsPrefix (trim_hyphens s)
unfolding trim_hyphens
trim_hyphens-IsPrefix s h k = record {
  short = omega (arith, length-trim_left_hyphen s, length-trim_right_hyphen (trim_left_hyphen s));
  letters = trim_right_hyphen-all (trim_left_hyphen s) (trim_left_hyphen-all s h);
  starts = trim_right_hyphen-starts_well (trim_left_hyphen s) (trim_left_hyphen-starts_well s h);
}

sanitised_letters : (s : Runes) → all is_bucket_rune (sanitise_bucket_prefix s) ≡ true
unfolding sanitise_bucket_prefix trim_hyphens
sanitised_letters s =
    trim_right_hyphen-all (trim_left_hyphen (sanitise_from false (to_lower s))) (
      trim_left_hyphen-all (sanitise_from false (to_lower s))
        (sanitise_from-all false (to_lower s)))

sanitised_starts : (s : Runes) → starts_well (sanitise_bucket_prefix s) ≡ true
unfolding sanitise_bucket_prefix trim_hyphens
sanitised_starts s =
    trim_right_hyphen-starts_well (trim_left_hyphen (sanitise_from false (to_lower s))) (
      trim_left_hyphen-starts_well (sanitise_from false (to_lower s))
        (sanitise_from-all false (to_lower s)))

shortened-IsPrefix :
    (s : Runes) → all is_bucket_rune s ≡ true → starts_well s ≡ true → IsPrefix (shortened s)
shortened-IsPrefix s h k = elim (Bool-cases (ltb max_prefix (length s))) [
  | inl e ↦ rw e (
      trim_hyphens-IsPrefix (take max_prefix s) (all-take is_bucket_rune max_prefix s h)
        (length-take max_prefix s))
  | inr e ↦ rw e (record { short = ground arith; letters = h; starts = k })
]

or_pyx-nonempty : (s : Runes) → 1 ≤ length (or_pyx s)
or_pyx-nonempty [] = omega arith
or_pyx-nonempty (c ∷ s) = omega arith

or_pyx-IsPrefix : (s : Runes) → IsPrefix s → IsPrefix (or_pyx s)
or_pyx-IsPrefix [] p = record { short = omega arith; letters = refl; starts = refl }
or_pyx-IsPrefix (c ∷ s) p = p

all-append : (p : ℕ → Bool) (s t : Runes) → all p s ≡ true → all p t ≡ true → all p (s ++ t) ≡ true
all-append p [] t h k = k
all-append p (c ∷ s) t h k = ground (arith, all-append p s t)

starts-append : (s t : Runes) → 1 ≤ length s → starts_well s ≡ true → starts_well (s ++ t) ≡ true
starts-append [] t h k = absurd (omega arith)
starts-append (c ∷ s) t h k = k

ends-append : (s : Runes) (c : ℕ) (t : Runes) → ends_well (c ∷ t) ≡ ends_well (s ++ c ∷ t)
ends-append [] c t = refl
ends-append (d ∷ []) c t = refl
ends-append (d ∷ e ∷ s) c t = ends-append (e ∷ s) c t

ends-all : (c : ℕ) (s : Runes) → 1 ≤ length s → all is_alnum s ≡ true → ends_well (c ∷ s) ≡ true
ends-all c [] h k = absurd (omega arith)
ends-all c (d ∷ []) h k = ground arith
ends-all c (d ∷ e ∷ s) h k = ends-all d (e ∷ s) (omega arith) (ground arith)

alnum_letters : (s : Runes) → all is_alnum s ≡ true → all is_bucket_rune s ≡ true
alnum_letters [] h = refl
alnum_letters (c ∷ s) h = ground (arith, alnum_letters s)

-- The name of a part before the hash and at least ten digits of it.
joined-IsBucketName :
    (s hash : Runes)
    → IsPrefix s
    → 1 ≤ length s
    → length hash ≡ 64
    → all is_alnum hash ≡ true
    → IsBucketName (s ++ (b'-' ∷ take 10 hash))
joined-IsBucketName s hash p full digits letters =
    let ten = length-take_all 10 hash (omega arith) in
    let whole = length-append s (b'-' ∷ take 10 hash) in
    let suffix = all-take is_alnum 10 hash letters in
    let short = p.short in
    record {
      long = omega arith;
      short = omega arith;
      letters =
          all-append is_bucket_rune s (b'-' ∷ take 10 hash) p.letters
            (alnum_letters (take 10 hash) suffix);
      starts = starts-append s (b'-' ∷ take 10 hash) full p.starts;
      ends =
          sym (ends-append s b'-' (take 10 hash))
          ∙ ends-all b'-' (take 10 hash) (omega arith) suffix;
    }

pub derive_bucket_name-IsBucketName :
    (hex_sum : Runes → Runes) (name csp csp_region : Runes)
    → IsHexSum hex_sum
    → IsBucketName (derive_bucket_name hex_sum name csp csp_region)
unfolding derive_bucket_name
derive_bucket_name-IsBucketName hex_sum name csp csp_region h =
    let start = sanitise_bucket_prefix name in
    let s = shortened start in
    joined-IsBucketName (or_pyx s) (hex_sum _)
      (or_pyx-IsPrefix s
        (shortened-IsPrefix start (sanitised_letters name) (sanitised_starts name)))
      (or_pyx-nonempty s) (h.digits _) (h.letters _)
