-- ===== src/Migration/Runtime/Nitro/Tests.antt =====
-- Instances of the theorems on Nitro documents.
use mathlib.Core.Option.{some-injective}
use terraform_provider_pyxcl.Prelude.{
  ℕ, ◌≡◌, refl, sym, ◌↔◌, true, ◌==◌, none, some, [], ◌∷◌, arith,
}
use terraform_provider_pyxcl.Prelude.Results.{ok, err}
use terraform_provider_pyxcl.GoLang.Byte.{xor, or}
use terraform_provider_pyxcl.GoLang.Text.{codes}
use terraform_provider_pyxcl.Migration.Runtime.Attest.{
  NitroDocument, Attestor, parse_nitro_document,
}
use terraform_provider_pyxcl.Migration.Runtime.Nitro.{
  Pki, NitroVerifyOptions, differences, bytes_equal_const_time, replayed, matches_expected,
  intermediates, check_signature, check_binding, verify_nitro_document,
}
use terraform_provider_pyxcl.Migration.Runtime.Nitro.Accepts.{
  DecodesBytes, IsTrusted, verify_nitro_document-accepts,
}

-- A certificate is a number, which is its own key.
abbrev numbered : Pki
numbered = record {
  Certificate = ℕ;
  CertPool = ℕ;
  PublicKey = ℕ;
  Verifier = ℕ;
  Time = ℕ;
  parse_certificate = λ der. elim der [ [] ↦ none | c ∷ rest ↦ some c ];
  chain_verifies = λ leaf roots pool time. roots == 1;
  ecdsa_key = λ leaf. some leaf;
  new_verifier = λ key. some key;
  is_sign1 = λ bytes. true;
  signature_verifies = λ bytes verifier. verifier == 9;
  clock = 0;
}

abbrev document : NitroDocument
document = record {
  module_id = "i-1";
  timestamp = 5;
  digest = "SHA384";
  pcrs = (0, 4 ∷ []) ∷ [];
  certificate = 9 ∷ [];
  cabundle = (2 ∷ []) ∷ [];
  public_key = 6 ∷ [];
  user_data = [];
  nonce = 7 ∷ 8 ∷ [];
}

abbrev device : Attestor
device = record {
  random_nonce = none;
  sha256 = codes;
  nsm_document = λ nonce pub_key. none;
  decode_cose = λ bytes. some document;
}

abbrev fresh : NitroVerifyOptions numbered
fresh = record {
  roots = some 1;
  expected_nonce = some (7 ∷ 8 ∷ []);
  expected_public_key = some (6 ∷ []);
  now = none;
}

abbrev stale : NitroVerifyOptions numbered
stale = record {
  roots = some 1;
  expected_nonce = some (7 ∷ 9 ∷ []);
  expected_public_key = none;
  now = none;
}

accepts_fresh : verify_nitro_document numbered device (1 ∷ []) fresh ≡ ok document
unfolding verify_nitro_document check_signature check_binding intermediates matches_expected
    bytes_equal_const_time differences xor or parse_nitro_document
accepts_fresh = refl

rejects_replay : verify_nitro_document numbered device (1 ∷ []) stale ≡ err replayed
unfolding verify_nitro_document check_signature check_binding intermediates matches_expected
    bytes_equal_const_time differences xor or parse_nitro_document
rejects_replay = refl

device-DecodesBytes : DecodesBytes device
unfolding parse_nitro_document
device-DecodesBytes = record {
  nonce_bytes =
      λ bytes doc h. rw (sym (some-injective document doc h)) (omega arith, (omega arith, tt));
  key_bytes = λ bytes doc h. rw (sym (some-injective document doc h)) (omega arith, tt);
}

verify_nitro_document-accepts_example :
    (verify_nitro_document numbered device (1 ∷ []) fresh ≡ ok document)
    ↔ IsTrusted numbered device (1 ∷ []) fresh document
verify_nitro_document-accepts_example =
    verify_nitro_document-accepts numbered device device-DecodesBytes (1 ∷ []) fresh
      (omega arith, (omega arith, tt)) (omega arith, tt) document
