-- ===== src/Migration/Seal/RoundTrip.antt =====
-- Opening what was sealed (internal/migration/seal.go).
use mathlib.Core.Option.{some-injective}
use terraform_provider_pyxcl.Prelude.{
  ◌≡◌, refl, sym, ◌∙◌, ap, false, some, [], ◌∷◌, ◌++◌, length, ltb, arith, Bool-cases, Option-cases,
  inl, inr, length-append,
}
use terraform_provider_pyxcl.Migration.Seal.{
  Bytes, Sealed, Crypto, take_bytes, drop_bytes, derive_key, seal_to, open_sealed, open_bytes,
  seal_info,
}

-- What the code relies on: both sides of a key exchange get the same secret, and the cipher opens what
-- it sealed.
pub record IsSound (c : Crypto) : Type 0 where
  pub exchange :
      (a b p q : Bytes)
      → c.x25519 a c.basepoint ≡ some p
      → c.x25519 b c.basepoint ≡ some q
      → c.x25519 a q ≡ c.x25519 b p
  pub decrypt :
      (key nonce text aad : Bytes)
      → c.aead_open key nonce (c.aead_seal key nonce text aad) aad ≡ some text

take_bytes-append : (xs ys : Bytes) → take_bytes (length xs) (xs ++ ys) ≡ xs
unfolding take_bytes
take_bytes-append [] ys = refl
take_bytes-append (x ∷ xs) ys = ap (λ r. x ∷ r) (take_bytes-append xs ys)

drop_bytes-append : (xs ys : Bytes) → drop_bytes (length xs) (xs ++ ys) ≡ ys
unfolding drop_bytes
drop_bytes-append [] ys = refl
drop_bytes-append (x ∷ xs) ys = drop_bytes-append xs ys

append_long_enough : (xs ys : Bytes) → ltb (length (xs ++ ys)) (length xs) ≡ false
append_long_enough xs ys = ground (arith, length-append xs ys)

module _ (c : Crypto) (sound : IsSound c) (nonce : Bytes) (fits : length nonce ≡ c.nonce_size) where
  open_bytes-seal :
      (key plaintext aad : Bytes)
      → open_bytes c key (nonce ++ c.aead_seal key nonce plaintext aad) aad ≡ some plaintext
  open_bytes-seal key plaintext aad =
      let text = c.aead_seal key nonce plaintext aad in
      rw
        (
          sym fits,
          append_long_enough nonce text,
          take_bytes-append nonce text,
          drop_bytes-append nonce text,
        )
        (sound.decrypt key nonce plaintext aad)

-- With a sound exchange and cipher and a nonce of the cipher's size, whatever is sealed to a public
-- key, the owner of that key opens with the same additional data, and gets the plaintext.
pub seal_to-open_sealed :
    (c : Crypto) (sound : IsSound c)
    (recipient_priv recipient_pub eph_priv nonce plaintext aad : Bytes) (s : Sealed)
    → c.x25519 recipient_priv c.basepoint ≡ some recipient_pub
    → length nonce ≡ c.nonce_size
    → seal_to c (some eph_priv) (some nonce) recipient_pub plaintext aad ≡ some s
    → open_sealed c recipient_priv s aad ≡ some plaintext
unfolding seal_to open_sealed derive_key
seal_to-open_sealed c sound recipient_priv recipient_pub eph_priv nonce plaintext aad s own fits
      sealed =
    elim (Option-cases (c.x25519 eph_priv c.basepoint)) [
      | inl e ↦ let h = rw e at sealed in cc h
      | inr (eph_pub, e) ↦ elim (Option-cases (c.x25519 eph_priv recipient_pub)) [
        | inl f ↦ let h = rw (e, f) at sealed in cc h
        | inr (shared, f) ↦
            elim (Option-cases (c.hkdf shared (eph_pub ++ recipient_pub) seal_info)) [
              | inl g ↦ let h = rw (e, f, g) at sealed in cc h
              | inr (key, g) ↦ elim (Bool-cases (c.accepts key)) [
                | inl k ↦
                    let h = rw (e, f, g, k) at sealed in
                    rw
                      (
                        sym (some-injective _ s h),
                        own,
                        sound.exchange recipient_priv eph_priv recipient_pub eph_pub own e ∙ f,
                        g,
                        k,
                      )
                      (open_bytes-seal c sound nonce fits key plaintext aad)
                | inr k ↦ let h = rw (e, f, g, k) at sealed in cc h
              ]
            ]
      ]
    ]
