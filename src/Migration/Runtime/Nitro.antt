-- ===== src/Migration/Runtime/Nitro.antt =====
-- VerifyNitroDocument (internal/migration/runtime/nitro.go). X.509 certificates, the keys in them and
-- COSE signatures are arguments.
pub mod Equality
pub mod Accepts
mod Tests
use terraform_provider_pyxcl.Prelude.{
  ℕ, Bool, true, false, not, Option, none, some, List, [], ◌∷◌, length, ◌==◌, if◌then◌else◌, ◌≡◌,
}
use terraform_provider_pyxcl.Prelude.Results.{Result, ok, err, ◌>>=◌, ◌>>◌, guard}
use terraform_provider_pyxcl.GoLang.Byte.{xor, or}
use terraform_provider_pyxcl.Migration.Seal.{Bytes}
use terraform_provider_pyxcl.Migration.Runtime.Attest.{
  NitroDocument, Attestor, parse_nitro_document,
}

-- What verification calls outside of this code; `none` is an error.
pub record Pki : Type 1 where
  pub Certificate : Type 0
  pub CertPool : Type 0
  pub PublicKey : Type 0
  pub Verifier : Type 0
  pub Time : Type 0
  -- x509.ParseCertificate
  pub parse_certificate : Bytes → Option Certificate
  -- leaf.Verify with these roots, intermediates and time, for any use of the key
  pub chain_verifies : Certificate → CertPool → List Certificate → Time → Bool
  -- leaf.PublicKey where it is an ECDSA key
  pub ecdsa_key : Certificate → Option PublicKey
  -- cose.NewVerifier for ES384
  pub new_verifier : PublicKey → Option Verifier
  -- UnmarshalCBOR of the document as a COSE_Sign1 message
  pub is_sign1 : Bytes → Bool
  -- Verify of the message that the document decodes to
  pub signature_verifies : Bytes → Verifier → Bool
  -- time.Now
  pub clock : Time

-- NitroVerifyOptions; nil roots and bytes and the zero time are `none`.
pub record NitroVerifyOptions (k : Pki) : Type 0 where
  pub roots : Option k.CertPool
  pub expected_nonce : Option Bytes
  pub expected_public_key : Option Bytes
  pub now : Option k.Time

-- The errors of VerifyNitroDocument.
pub data NitroError : Type 0 where
  invalid_document : NitroError
  invalid_leaf : NitroError
  invalid_bundle : NitroError
  no_roots : NitroError
  untrusted : NitroError
  not_ecdsa : NitroError
  no_verifier : NitroError
  not_sign1 : NitroError
  forged : NitroError
  replayed : NitroError
  other_key : NitroError

-- v |= a[i] ^ b[i] over a
unfoldable pub differences : ℕ → Bytes → Bytes → ℕ
differences v (x ∷ a) (y ∷ b) = differences (or v (xor x y)) a b
differences v _ _ = v

-- bytesEqualConstTime
unfoldable pub bytes_equal_const_time : Bytes → Bytes → Bool
bytes_equal_const_time a b = if length a == length b then differences 0 a b == 0 else false

-- The value or, on failure, this error.
abbrev pub or_error {ℓ} : {A : Type ℓ} → Option A → NitroError → Result NitroError A
or_error none e = err e
or_error (some a) e = ok a

abbrev pub value_or {ℓ} : {A : Type ℓ} → Option A → A → A
value_or none b = b
value_or (some a) b = a

-- expected == nil || bytesEqualConstTime(got, expected)
unfoldable pub matches_expected : Option Bytes → Bytes → Bool
matches_expected none got = true
matches_expected (some expected) got = bytes_equal_const_time got expected

module _ (k : Pki) where
  -- The loop over the CA bundle.
  unfoldable pub intermediates : List Bytes → Result NitroError (List k.Certificate)
  intermediates [] = ok []
  intermediates (der ∷ rest) = or_error (k.parse_certificate der) invalid_bundle >>= λ c.
      intermediates rest >>= λ cs. ok (c ∷ cs)

  -- The signature, by the leaf's key.
  unfoldable pub check_signature : Bytes → k.Certificate → Result NitroError (Unit {0})
  check_signature cose_sign1 leaf = or_error (k.ecdsa_key leaf) not_ecdsa >>= λ key.
      or_error (k.new_verifier key) no_verifier >>= λ verifier.
      guard (k.is_sign1 cose_sign1) not_sign1
      >> guard (k.signature_verifies cose_sign1 verifier) forged

  -- The nonce and the public key.
  unfoldable pub check_binding :
      NitroVerifyOptions k → NitroDocument → Result NitroError NitroDocument
  check_binding opts doc =
      guard (matches_expected opts.expected_nonce doc.nonce) replayed
      >> (guard (matches_expected opts.expected_public_key doc.public_key) other_key >> ok doc)

  -- VerifyNitroDocument
  unfoldable pub verify_nitro_document :
      Attestor → Bytes → NitroVerifyOptions k → Result NitroError NitroDocument
  verify_nitro_document a cose_sign1 opts =
      or_error (parse_nitro_document a cose_sign1) invalid_document >>= λ doc.
      or_error (k.parse_certificate doc.certificate) invalid_leaf >>= λ leaf.
      intermediates doc.cabundle >>= λ pool. or_error opts.roots no_roots >>= λ roots.
      guard (k.chain_verifies leaf roots pool (value_or opts.now k.clock)) untrusted
      >> (check_signature cose_sign1 leaf >> check_binding opts doc)
