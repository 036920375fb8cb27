-- ===== src/Migration/Runtime/Nitro/Equality.antt =====
-- The comparison of bytes in constant time (internal/migration/runtime/nitro.go).
use terraform_provider_pyxcl.Prelude.{
  ℕ, ◌<◌, ◌≡◌, refl, ◌↔◌, true, inl, inr, Bool-cases, [], ◌∷◌, length, ◌==◌, ==_iff, arith,
}
use terraform_provider_pyxcl.GoLang.Byte.{
  xor, or, AreBytes, xor-same, or-none, xor-zero, or-zero, xor-byte, or-byte,
}
use terraform_provider_pyxcl.Migration.Seal.{Bytes}
use terraform_provider_pyxcl.Migration.Runtime.Nitro.{differences, bytes_equal_const_time}

differences-same : (a : Bytes) → differences 0 a a ≡ 0
unfolding differences
differences-same [] = refl
differences-same (x ∷ a) = rw (xor-same x, or-none) (differences-same a)

differences-zero :
    (v : ℕ) (a b : Bytes)
    → v < 256
    → AreBytes a
    → AreBytes b
    → length a ≡ length b
    → differences v a b ≡ 0
    → (v ≡ 0) × (a ≡ b)
unfolding differences
differences-zero v [] [] h p q l e = (e, refl)
differences-zero v [] (y ∷ b) h p q l e = cc
differences-zero v (x ∷ a) [] h p q l e = cc
differences-zero v (x ∷ a) (y ∷ b) h (px, p) (qy, q) l e =
    let r = differences-zero (or v (xor x y)) a b (or-byte v (xor x y)) p q (omega arith) e in
    let z = or-zero v (xor x y) h (xor-byte x y) r.0 in
    let same = xor-zero x y px qy z.1 in let rest = r.1 in (z.0, cc)

-- On slices of bytes, the comparison in constant time tells whether they are equal.
pub bytes_equal_const_time-equal :
    (a b : Bytes) → AreBytes a → AreBytes b → (bytes_equal_const_time a b ≡ true) ↔ (a ≡ b)
unfolding bytes_equal_const_time
bytes_equal_const_time-equal a b p q = (
  λ e. elim (Bool-cases (length a == length b)) [
    | inl same ↦
        let e' = rw same at e in
        (differences-zero 0 a b (omega arith) p q (ground arith) (ground arith)).1
    | inr other ↦ let e' = rw other at e in cc
  ],
  λ e. rw (e, (==_iff (length b) (length b)).1 refl, differences-same b) refl,
)
