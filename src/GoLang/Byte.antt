-- ===== src/GoLang/Byte.antt =====
-- The operators ^ and | on bytes.
use terraform_provider_pyxcl.Prelude.{
  ℕ, zero, suc, ◌+◌, ◌*◌, ◌/◌, ◌%◌, ◌<◌, ◌≡◌, refl, List, arith, All,
}

-- The operators on the low w bits.
xor_bits : ℕ → ℕ → ℕ → ℕ
xor_bits zero a b = 0
xor_bits (suc w) a b = (a % 2 + b % 2) % 2 + 2 * xor_bits w (a / 2) (b / 2)

or_bits : ℕ → ℕ → ℕ → ℕ
or_bits zero a b = 0
or_bits (suc w) a b = (a % 2 + b % 2 + 1) / 2 + 2 * or_bits w (a / 2) (b / 2)

-- a ^ b
unfoldable pub xor : ℕ → ℕ → ℕ
unfolding xor_bits
xor a b = xor_bits 8 a b

-- a | b
unfoldable pub or : ℕ → ℕ → ℕ
unfolding or_bits
or a b = or_bits 8 a b

-- A number of w bits.
abbrev Fits : ℕ → ℕ → Type 0
Fits zero a = a ≡ 0
Fits (suc w) a = Fits w (a / 2)

-- A slice of bytes.
abbrev pub AreBytes : List ℕ → Type 0
AreBytes bytes = All (λ b. b < 256) bytes

Fits-byte : (a : ℕ) → a < 256 → Fits 8 a
Fits-byte a h = omega arith

byte-Fits : (a : ℕ) → Fits 8 a → a < 256
byte-Fits a h = omega arith

xor_bits-same : (w a : ℕ) → xor_bits w a a ≡ 0
unfolding xor_bits
xor_bits-same zero a = refl
xor_bits-same (suc w) a = omega (arith, xor_bits-same w (a / 2))

xor_bits-zero : (w a b : ℕ) → Fits w a → Fits w b → xor_bits w a b ≡ 0 → a ≡ b
unfolding xor_bits
xor_bits-zero zero a b p q h = omega arith
xor_bits-zero (suc w) a b p q h = omega (arith, xor_bits-zero w (a / 2) (b / 2) p q (omega arith))

or_bits-none : (w : ℕ) → or_bits w 0 0 ≡ 0
unfolding or_bits
or_bits-none zero = refl
or_bits-none (suc w) = omega (arith, or_bits-none w)

or_bits-zero : (w a b : ℕ) → Fits w a → Fits w b → or_bits w a b ≡ 0 → (a ≡ 0) × (b ≡ 0)
unfolding or_bits
or_bits-zero zero a b p q h = (p, q)
or_bits-zero (suc w) a b p q h =
    let r = or_bits-zero w (a / 2) (b / 2) p q (omega arith) in
    (omega (arith, r.0), omega (arith, r.1))

Fits-bits : (w a r : ℕ) → a < 2 → Fits w r → Fits (suc w) (a + 2 * r)
Fits-bits w a r h p = let e : (a + 2 * r) / 2 ≡ r = omega arith in rw e p

xor_bits-Fits : (w a b : ℕ) → Fits w (xor_bits w a b)
unfolding xor_bits
xor_bits-Fits zero a b = refl
xor_bits-Fits (suc w) a b = Fits-bits w _ _ (omega arith) (xor_bits-Fits w (a / 2) (b / 2))

or_bits-Fits : (w a b : ℕ) → Fits w (or_bits w a b)
unfolding or_bits
or_bits-Fits zero a b = refl
or_bits-Fits (suc w) a b = Fits-bits w _ _ (omega arith) (or_bits-Fits w (a / 2) (b / 2))

pub xor-same : (a : ℕ) → xor a a ≡ 0
unfolding xor
xor-same a = xor_bits-same 8 a

pub or-none : or 0 0 ≡ 0
unfolding or
or-none = or_bits-none 8

pub xor-zero : (a b : ℕ) → a < 256 → b < 256 → xor a b ≡ 0 → a ≡ b
unfolding xor
xor-zero a b p q h = xor_bits-zero 8 a b (Fits-byte a p) (Fits-byte b q) h

pub or-zero : (a b : ℕ) → a < 256 → b < 256 → or a b ≡ 0 → (a ≡ 0) × (b ≡ 0)
unfolding or
or-zero a b p q h = or_bits-zero 8 a b (Fits-byte a p) (Fits-byte b q) h

pub xor-byte : (a b : ℕ) → xor a b < 256
unfolding xor
xor-byte a b = byte-Fits _ (xor_bits-Fits 8 a b)

pub or-byte : (a b : ℕ) → or a b < 256
unfolding or
or-byte a b = byte-Fits _ (or_bits-Fits 8 a b)
