-- ===== src/GoLang/Text.antt =====
-- Go's `strings` package, over the code points of a text. A text that is valid UTF-8 is determined by
-- its code points, and a search for a substring finds the same places in both.
use Prim.Native.Char.{code}
use text.Mathlib.Text.{◌==◌ as str_eq}
use terraform_provider_pyxcl.Prelude.{
  not, ℕ, ◌+◌, String, ◌≡◌, ◌↔◌, refl, arith, eq_iff, Bool, true, false, ◌&&◌, ◌||◌, List, [], ◌∷◌,
  map, leb, ◌==◌, if◌then◌else◌,
}

-- A text by its code points.
abbrev pub Runes : Type 0
Runes = List ℕ

abbrev pub codes : String → List ℕ
codes String.[] = []
codes (String.◌∷◌ c s) = code c ∷ codes s

-- unicode.ToLower on ASCII, on Latin-1 and on the letters whose lower case is ASCII, U+0130 and the
-- Kelvin sign. Other letters stay as they are: their lower case is not ASCII either, so no comparison
-- with an ASCII text can tell.
unfoldable pub to_lower_rune : ℕ → ℕ
to_lower_rune c =
    if leb b'A' c && leb c b'Z' || leb 0xc0 c && leb c 0xde && not (c == 0xd7)
    then c + 32
    else if c == 0x130
    then b'i'
    else if c == 0x212a
    then b'k'
    else c

-- strings.ToLower
unfoldable pub to_lower : List ℕ → List ℕ
unfolding to_lower_rune
to_lower s = map to_lower_rune s

-- unicode.IsSpace
unfoldable pub is_space : ℕ → Bool
is_space c =
    leb 9 c && leb c 13
    || c == 0x20
    || c == 0x85
    || c == 0xa0
    || c == 0x1680
    || leb 0x2000 c && leb c 0x200a
    || c == 0x2028
    || c == 0x2029
    || c == 0x202f
    || c == 0x205f
    || c == 0x3000

unfoldable pub trim_left : List ℕ → List ℕ
unfolding is_space
trim_left [] = []
trim_left (c ∷ s) = let rest = trim_left s in if is_space c then rest else c ∷ s

-- Drops the white space at the end.
unfoldable pub trim_right : List ℕ → List ℕ
unfolding is_space
trim_right [] = []
trim_right (c ∷ s) = elim (trim_right s) [
  | [] ↦ if is_space c then [] else c ∷ []
  | d ∷ r ↦ c ∷ d ∷ r
]

-- strings.TrimSpace
unfoldable pub trim_space : List ℕ → List ℕ
unfolding trim_left trim_right
trim_space s = trim_right (trim_left s)

abbrev pub text_eq : List ℕ → List ℕ → Bool
text_eq [] [] = true
text_eq (c ∷ s) (d ∷ t) = c == d && text_eq s t
text_eq _ _ = false

-- strings.HasPrefix(s, prefix)
unfoldable pub has_prefix : List ℕ → List ℕ → Bool
has_prefix s [] = true
has_prefix [] (d ∷ t) = false
has_prefix (c ∷ s) (d ∷ t) = c == d && has_prefix s t

-- strings.Contains(s, substr)
unfoldable pub contains : List ℕ → List ℕ → Bool
unfolding has_prefix
contains [] t = has_prefix [] t
contains (c ∷ s) t = has_prefix (c ∷ s) t || contains s t

-- The lower case of a letter that folds to an ASCII letter: the ASCII letters, the Kelvin sign and the
-- long s.
unfoldable pub fold_rune : ℕ → ℕ
fold_rune c =
    if leb b'A' c && leb c b'Z'
    then c + 32
    else if c == 0x212a
    then b'k'
    else if c == 0x17f
    then b's'
    else c

-- strings.EqualFold, where one of the texts is ASCII
unfoldable pub equal_fold_ascii : List ℕ → List ℕ → Bool
unfolding fold_rune
equal_fold_ascii s t = text_eq (map fold_rune s) (map fold_rune t)

-- A text that equals one constant equals no other.
pub str_eq_ne : (s t u : String) → str_eq s t ≡ true → str_eq t u ≡ false → str_eq s u ≡ false
str_eq_ne s t u h k = ground (arith, eq_iff s t, eq_iff s u, eq_iff t u)

pub text_eq_iff : (s t : Runes) → (text_eq s t ≡ true) ↔ (s ≡ t)
text_eq_iff s t = (to s t, λ e. rw e (same t))
  where
    to : (s t : Runes) → text_eq s t ≡ true → s ≡ t
    to [] [] h = refl
    to [] (d ∷ t) h = cc
    to (c ∷ s) [] h = cc
    to (c ∷ s) (d ∷ t) h = ground (arith, to s t)

    same : (t : Runes) → text_eq t t ≡ true
    same [] = refl
    same (d ∷ t) = ground (arith, same t)
