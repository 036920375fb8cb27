-- ===== src/Migration/Runtime/Nitro/Accepts.antt =====
-- What VerifyNitroDocument accepts (internal/migration/runtime/nitro.go).
use terraform_provider_pyxcl.Prelude.{◌≡◌, refl, ◌↔◌, true, Option, none, some, List, [], ◌∷◌, All₂}
use terraform_provider_pyxcl.Prelude.Results.{
  ok, OnOk, OnOk-bind_eq, OnOk-guard, OnOk-guard_last, OnOk_apply,
}
use terraform_provider_pyxcl.GoLang.Byte.{AreBytes}
use terraform_provider_pyxcl.Migration.Seal.{Bytes}
use terraform_provider_pyxcl.Migration.Runtime.Attest.{
  NitroDocument, Attestor, parse_nitro_document,
}
use terraform_provider_pyxcl.Migration.Runtime.Nitro.{
  Pki, NitroVerifyOptions, NitroError, untrusted, replayed, other_key, not_ecdsa, no_verifier,
  not_sign1, forged, matches_expected, or_error, value_or, intermediates, check_signature,
  check_binding, verify_nitro_document,
}
use terraform_provider_pyxcl.Migration.Runtime.Nitro.Equality.{bytes_equal_const_time-equal}

-- A run that expects bytes gets just these.
abbrev pub Binds : Option Bytes → Bytes → Type 0
Binds none got = Unit
Binds (some expected) got = got ≡ expected

-- What is expected are bytes.
abbrev pub OptionalBytes : Option Bytes → Type 0
OptionalBytes none = Unit
OptionalBytes (some bytes) = AreBytes bytes

-- Decoding gives slices of bytes.
pub record DecodesBytes (a : Attestor) : Type 0 where
  pub nonce_bytes :
      (bytes : Bytes) (doc : NitroDocument)
      → parse_nitro_document a bytes ≡ some doc
      → AreBytes doc.nonce
  pub key_bytes :
      (bytes : Bytes) (doc : NitroDocument)
      → parse_nitro_document a bytes ≡ some doc
      → AreBytes doc.public_key

-- A document that its leaf's key has signed, whose leaf's chain leads through the bundle to a trusted
-- root, and that carries what the run expects.
pub record IsTrusted (k : Pki) (a : Attestor) (cose_sign1 : Bytes) (opts : NitroVerifyOptions k)
    (doc : NitroDocument) : Type 0 where
  pub parsed : parse_nitro_document a cose_sign1 ≡ some doc
  pub leaf : k.Certificate
  pub leaf_parsed : k.parse_certificate doc.certificate ≡ some leaf
  pub pool : List k.Certificate
  pub bundle_parsed : All₂ (λ der c. k.parse_certificate der ≡ some c) doc.cabundle pool
  pub roots : k.CertPool
  pub configured : opts.roots ≡ some roots
  pub chained : k.chain_verifies leaf roots pool (value_or opts.now k.clock) ≡ true
  pub key : k.PublicKey
  pub ecdsa : k.ecdsa_key leaf ≡ some key
  pub verifier : k.Verifier
  pub made : k.new_verifier key ≡ some verifier
  pub sign1 : k.is_sign1 cose_sign1 ≡ true
  pub signed : k.signature_verifies cose_sign1 verifier ≡ true
  pub nonce : Binds opts.expected_nonce doc.nonce
  pub public_key : Binds opts.expected_public_key doc.public_key

matches_expected-Binds :
    (expected : Option Bytes) (got : Bytes)
    → OptionalBytes expected
    → AreBytes got
    → (matches_expected expected got ≡ true) ↔ Binds expected got
unfolding matches_expected
matches_expected-Binds none got p q = (λ _. tt, λ _. refl)
matches_expected-Binds (some expected) got p q = bytes_equal_const_time-equal got expected q p

or_error_ok {ℓ} :
    {A : Type ℓ} (o : Option A) (e : NitroError) (a : A) → or_error o e ≡ ok a → o ≡ some a
or_error_ok none e a h = cc
or_error_ok (some b) e a h = cc

intermediates-parsed :
    (k : Pki) (ders : List Bytes)
    → OnOk (λ cs. All₂ (λ der c. k.parse_certificate der ≡ some c) ders cs) (intermediates k ders)
unfolding intermediates
intermediates-parsed k [] = tt
intermediates-parsed k (der ∷ ders) =
    OnOk-bind_eq _ (or_error (k.parse_certificate der) _) _ (λ c e.
      OnOk-bind_eq _ (intermediates k ders) _ (λ cs f. (
        or_error_ok _ _ c e,
        OnOk_apply _ (intermediates k ders) cs (intermediates-parsed k ders) f,
      )))

parsed-intermediates :
    (k : Pki) (ders : List Bytes) (cs : List k.Certificate)
    → All₂ (λ der c. k.parse_certificate der ≡ some c) ders cs
    → intermediates k ders ≡ ok cs
unfolding intermediates
parsed-intermediates k [] [] h = refl
parsed-intermediates k [] (c ∷ cs) h = absurd h
parsed-intermediates k (der ∷ ders) [] h = absurd h
parsed-intermediates k (der ∷ ders) (c ∷ cs) (e, h) = rw (e, parsed-intermediates k ders cs h) refl

check_signature-signed :
    (k : Pki) (cose_sign1 : Bytes) (leaf : k.Certificate)
    → OnOk
        (λ _.
          (key : k.PublicKey) × (verifier : k.Verifier) × (k.ecdsa_key leaf ≡ some key)
          × (k.new_verifier key ≡ some verifier)
          × (k.is_sign1 cose_sign1 ≡ true)
          × (k.signature_verifies cose_sign1 verifier ≡ true))
        (check_signature k cose_sign1 leaf)
unfolding check_signature
check_signature-signed k cose_sign1 leaf =
    OnOk-bind_eq _ (or_error (k.ecdsa_key leaf) not_ecdsa) _ (λ key e.
      OnOk-bind_eq _ (or_error (k.new_verifier key) no_verifier) _ (λ verifier f.
        OnOk-guard _ (k.is_sign1 cose_sign1) not_sign1 _ (λ g.
          OnOk-guard_last _ (k.signature_verifies cose_sign1 verifier) forged
            (λ h. (key, verifier, or_error_ok _ _ key e, or_error_ok _ _ verifier f, g, h)))))

module _ (k : Pki) (a : Attestor) (decodes : DecodesBytes a) (cose_sign1 : Bytes)
    (opts : NitroVerifyOptions k) (nonce : OptionalBytes opts.expected_nonce)
    (public_key : OptionalBytes opts.expected_public_key) where
  accepted : OnOk (IsTrusted k a cose_sign1 opts) (verify_nitro_document k a cose_sign1 opts)
  unfolding verify_nitro_document check_signature check_binding
  accepted = OnOk-bind_eq _ (or_error (parse_nitro_document a cose_sign1) _) _ (λ doc parsed.
      OnOk-bind_eq _ (or_error (k.parse_certificate doc.certificate) _) _ (λ leaf leaf_parsed.
        OnOk-bind_eq _ (intermediates k doc.cabundle) _ (λ pool bundle_parsed.
          OnOk-bind_eq _ (or_error opts.roots _) _ (λ roots configured.
            OnOk-guard (IsTrusted k a cose_sign1 opts)
              (k.chain_verifies leaf roots pool (value_or opts.now k.clock)) untrusted _
              (λ chained. OnOk-bind_eq _ (check_signature k cose_sign1 leaf) _ (λ _ signature.
                let s =
                  OnOk_apply _ (check_signature k cose_sign1 leaf) tt
                    (check_signature-signed k cose_sign1 leaf) signature in
                OnOk-guard (IsTrusted k a cose_sign1 opts)
                  (matches_expected opts.expected_nonce doc.nonce) replayed _
                  (λ n.
                    OnOk-guard (IsTrusted k a cose_sign1 opts)
                      (matches_expected opts.expected_public_key doc.public_key) other_key _
                      (λ p.
                        let document =
                          or_error_ok (parse_nitro_document a cose_sign1) _ doc parsed in
                        record {
                          parsed = document;
                          leaf = leaf;
                          leaf_parsed = or_error_ok _ _ leaf leaf_parsed;
                          pool = pool;
                          bundle_parsed =
                              OnOk_apply _ (intermediates k doc.cabundle) pool
                                (intermediates-parsed k doc.cabundle) bundle_parsed;
                          roots = roots;
                          configured = or_error_ok _ _ roots configured;
                          chained = chained;
                          key = s.0;
                          verifier = s.1;
                          ecdsa = s.2;
                          made = s.3;
                          sign1 = s.4;
                          signed = s.5;
                          nonce =
                              (matches_expected-Binds opts.expected_nonce doc.nonce nonce
                                  (decodes.nonce_bytes cose_sign1 doc document)).0
                                n;
                          public_key =
                              (matches_expected-Binds opts.expected_public_key doc.public_key
                                  public_key (decodes.key_bytes cose_sign1 doc document)).0
                                p;
                        }))))))))

  trusted :
      (doc : NitroDocument)
      → IsTrusted k a cose_sign1 opts doc
      → verify_nitro_document k a cose_sign1 opts ≡ ok doc
  unfolding verify_nitro_document check_signature check_binding
  trusted doc h =
      let parsed = h.parsed in
      let n =
        (matches_expected-Binds opts.expected_nonce doc.nonce nonce
            (decodes.nonce_bytes cose_sign1 doc parsed)).1
          h.nonce in
      let p =
        (matches_expected-Binds opts.expected_public_key doc.public_key public_key
            (decodes.key_bytes cose_sign1 doc parsed)).1
          h.public_key in
      rw
        (
          parsed,
          h.leaf_parsed,
          parsed-intermediates k doc.cabundle h.pool h.bundle_parsed,
          h.configured,
          h.chained,
          h.ecdsa,
          h.made,
          h.sign1,
          h.signed,
          n,
          p,
        )
        refl

  -- Where decoding gives slices of bytes and the run expects such: a document is accepted, and returned
  -- as it decodes, exactly if it has the required fields, the certificates in it parse, the leaf's chain
  -- leads through its bundle to a root of the configured pool at the given time, the leaf's ECDSA key
  -- verifies the signature, and its nonce and public key equal those that the run expects, if any.
  pub verify_nitro_document-accepts :
      (doc : NitroDocument)
      → (verify_nitro_document k a cose_sign1 opts ≡ ok doc) ↔ IsTrusted k a cose_sign1 opts doc
  verify_nitro_document-accepts doc = (OnOk_apply _ _ doc accepted, trusted doc)
