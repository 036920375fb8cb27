-- ===== src/GoLang/Int64.antt =====
-- Go's int, which is 64 bits wide on the platforms the provider is built for: addition and
-- multiplication wrap around.
use terraform_provider_pyxcl.Prelude.{
  ℕ, ◌+◌, ◌-◌, ◌*◌, ◌/◌, ◌%◌, ◌^◌, ◌<◌, ◌≡◌, arith, ltb, if◌then◌else◌,
}
use terraform_provider_pyxcl.Prelude.Int.{ℤ, pos, negsuc, sub_ℕ}

abbrev pub word : ℕ
word = 2 ^ 64

-- The two's complement bit pattern.
unfoldable pub to_word : ℤ → ℕ
to_word (pos n) = n % word
to_word (negsuc n) = word - 1 - n % word

unfoldable pub of_word : ℕ → ℤ
of_word w = if ltb w (2 ^ 63) then pos w else negsuc (word - 1 - w)

unfoldable pub add64 : ℤ → ℤ → ℤ
unfolding to_word
add64 a b = of_word ((to_word a + to_word b) % word)

unfoldable pub sub64 : ℤ → ℤ → ℤ
unfolding to_word
sub64 a b = of_word ((to_word a + (word - to_word b)) % word)

unfoldable pub mul64 : ℤ → ℤ → ℤ
unfolding to_word
mul64 a b = of_word ((to_word a * to_word b) % word)

-- a / d for a divisor above 0, truncated towards 0
unfoldable pub quot : ℤ → ℕ → ℤ
quot (pos n) d = pos (n / d)
quot (negsuc n) d = sub_ℕ 0 ((n + 1) / d)

mod_word : (n : ℕ) → n < 2 ^ 63 → n % word ≡ n
mod_word n h = omega arith

of_word_small : (n : ℕ) → n < 2 ^ 63 → of_word (n % word) ≡ pos n
unfolding of_word
of_word_small n h = rw (mod_word n h) (ground arith)

-- Below 2^63 nothing wraps.
pub add64_pos : (m n : ℕ) → m + n < 2 ^ 63 → add64 (pos m) (pos n) ≡ pos (m + n)
unfolding add64
add64_pos m n h = rw (mod_word m (omega arith), mod_word n (omega arith)) (of_word_small (m + n) h)

pub mul64_pos :
    (m n : ℕ) → m < 2 ^ 63 → n < 2 ^ 63 → m * n < 2 ^ 63 → mul64 (pos m) (pos n) ≡ pos (m * n)
unfolding mul64
mul64_pos m n h k l = rw (mod_word m h, mod_word n k) (of_word_small (m * n) l)
