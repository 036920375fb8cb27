-- ===== src/Catalog/ObjectStorage/BucketName.antt =====
-- deriveBucketName of internal/catalog/objectstorage.go.
use terraform_provider_pyxcl.Prelude.{
  ℕ, ◌≤◌, ◌≡◌, refl, Bool, true, false, ◌&&◌, ◌||◌, [], ◌∷◌, ◌++◌, all, length, leb, ltb, ◌==◌,
  if◌then◌else◌, arith,
}
use terraform_provider_pyxcl.GoLang.Text.{Runes, codes, to_lower}
use terraform_provider_pyxcl.Catalog.Names.{is_empty}
use terraform_provider_pyxcl.Catalog.VirtualMachine.Sizes.{take}

-- maxBucketNameLen
abbrev pub max_bucket_name_len : ℕ
max_bucket_name_len = 63

-- bucketHashLen
abbrev pub bucket_hash_len : ℕ
bucket_hash_len = 10

-- The length that remains for the prefix and its hyphen.
abbrev pub max_prefix : ℕ
max_prefix = 52

-- A small letter or a digit.
abbrev pub is_alnum : ℕ → Bool
is_alnum c = leb b'a' c && leb c b'z' || leb b'0' c && leb c b'9'

-- The loop of sanitiseBucketPrefix over the text in lower case; runs of other letters are one hyphen.
unfoldable pub sanitise_from : Bool → Runes → Runes
sanitise_from last_hyphen [] = []
sanitise_from last_hyphen (c ∷ s) =
    let kept = sanitise_from false s in
    let dropped = sanitise_from true s in
    if is_alnum c then c ∷ kept else if last_hyphen then dropped else b'-' ∷ dropped

unfoldable pub trim_left_hyphen : Runes → Runes
trim_left_hyphen [] = []
trim_left_hyphen (c ∷ s) = let rest = trim_left_hyphen s in if c == b'-' then rest else c ∷ s

unfoldable pub trim_right_hyphen : Runes → Runes
trim_right_hyphen [] = []
trim_right_hyphen (c ∷ s) = elim (trim_right_hyphen s) [
  | [] ↦ if c == b'-' then [] else c ∷ []
  | d ∷ r ↦ c ∷ d ∷ r
]

-- strings.Trim(s, "-")
unfoldable pub trim_hyphens : Runes → Runes
trim_hyphens s = trim_right_hyphen (trim_left_hyphen s)

-- sanitiseBucketPrefix
unfoldable pub sanitise_bucket_prefix : Runes → Runes
sanitise_bucket_prefix s = trim_hyphens (sanitise_from false (to_lower s))

abbrev pub shortened : Runes → Runes
shortened s = if ltb max_prefix (length s) then trim_hyphens (take max_prefix s) else s

abbrev pub or_pyx : Runes → Runes
or_pyx s = if is_empty s then codes "pyx" else s

abbrev bar : Runes
bar = codes "|"

-- deriveBucketName; `hex_sum` is the SHA-256 of a text in hexadecimal digits.
unfoldable pub derive_bucket_name : (Runes → Runes) → Runes → Runes → Runes → Runes
derive_bucket_name hex_sum name csp csp_region =
    let suffix = take bucket_hash_len (hex_sum (csp ++ (bar ++ (csp_region ++ (bar ++ name))))) in
    or_pyx (shortened (sanitise_bucket_prefix name)) ++ (b'-' ∷ suffix)

-- A letter that a bucket's name can have.
abbrev pub is_bucket_rune : ℕ → Bool
is_bucket_rune c = is_alnum c || c == b'-'

-- The first letter, if any, is no hyphen.
abbrev pub starts_well : Runes → Bool
starts_well [] = true
starts_well (c ∷ s) = is_alnum c

pub sanitise_from-all : (last : Bool) (s : Runes) → all is_bucket_rune (sanitise_from last s) ≡ true
unfolding sanitise_from
sanitise_from-all last [] = refl
sanitise_from-all last (c ∷ s) = ground (arith, sanitise_from-all false s, sanitise_from-all true s)

pub trim_left_hyphen-all :
    (s : Runes) → all is_bucket_rune s ≡ true → all is_bucket_rune (trim_left_hyphen s) ≡ true
unfolding trim_left_hyphen
trim_left_hyphen-all [] h = refl
trim_left_hyphen-all (c ∷ s) h = ground (arith, trim_left_hyphen-all s)

pub trim_left_hyphen-starts_well :
    (s : Runes) → all is_bucket_rune s ≡ true → starts_well (trim_left_hyphen s) ≡ true
unfolding trim_left_hyphen
trim_left_hyphen-starts_well [] h = refl
trim_left_hyphen-starts_well (c ∷ s) h = ground (arith, trim_left_hyphen-starts_well s)

pub trim_right_hyphen-all :
    (s : Runes) → all is_bucket_rune s ≡ true → all is_bucket_rune (trim_right_hyphen s) ≡ true
unfolding trim_right_hyphen
trim_right_hyphen-all [] h = refl
trim_right_hyphen-all (c ∷ s) h = ground (arith, trim_right_hyphen-all s)

pub trim_right_hyphen-starts_well :
    (s : Runes) → starts_well s ≡ true → starts_well (trim_right_hyphen s) ≡ true
unfolding trim_right_hyphen
trim_right_hyphen-starts_well [] h = refl
trim_right_hyphen-starts_well (c ∷ s) h = ground arith

pub length-trim_left_hyphen : (s : Runes) → length (trim_left_hyphen s) ≤ length s
unfolding trim_left_hyphen
length-trim_left_hyphen [] = omega arith
length-trim_left_hyphen (c ∷ s) = ground (arith, length-trim_left_hyphen s)

pub length-trim_right_hyphen : (s : Runes) → length (trim_right_hyphen s) ≤ length s
unfolding trim_right_hyphen
length-trim_right_hyphen [] = omega arith
length-trim_right_hyphen (c ∷ s) = ground (arith, length-trim_right_hyphen s)
