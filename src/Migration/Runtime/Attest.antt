-- ===== src/Migration/Runtime/Attest.antt =====
-- The Attest methods (internal/migration/runtime/sealedwasm.go, hwtee.go and cc.go) and the decoding of
-- Nitro documents (nitro.go).
use text.Mathlib.Text.{◌==◌ as str_eq}
use terraform_provider_pyxcl.Prelude.{
  ℕ, String, Bool, true, false, ◌||◌, Option, none, some, List, [], ◌∷◌, ◌++◌, ◌==◌, if◌then◌else◌,
}
use terraform_provider_pyxcl.GoLang.Text.{codes}
use terraform_provider_pyxcl.Migration.Seal.{Bytes, ◌>>=◌}
use terraform_provider_pyxcl.Migration.Runtime.{
  Substrate, Runtime, sealed_wasm, hardware_tee, confidential_container, wasm_substrate,
  tee_substrate, cc_substrate, nitro,
}

-- Evidence
pub record Evidence : Type 0 where
  pub substrate : Substrate
  pub measurement : Bytes
  pub nonce : Bytes
  pub format : String
  pub document : Bytes

-- NitroDocument; a missing text is "" and missing bytes are [].
pub record NitroDocument : Type 0 where
  pub module_id : String
  pub timestamp : ℕ
  pub digest : String
  pub pcrs : List (ℕ × Bytes)
  pub certificate : Bytes
  pub cabundle : List Bytes
  pub public_key : Bytes
  pub user_data : Bytes
  pub nonce : Bytes

-- What attestation calls outside of this code; `none` is an error.
pub record Attestor : Type 0 where
  -- io.ReadFull(rand.Reader, nonce)
  pub random_nonce : Option Bytes
  -- sha256.Sum256 of the bytes of a text
  pub sha256 : String → Bytes
  -- the device's answer to a nonce and a public key
  pub nsm_document : Bytes → Bytes → Option Bytes
  -- COSE and CBOR decoding of a document
  pub decode_cose : Bytes → Option NitroDocument

unfoldable pub pcr : ℕ → List (ℕ × Bytes) → Bytes
pcr n [] = []
pcr n (p ∷ ps) = let rest = pcr n ps in if p.0 == n then p.1 else rest

abbrev pub has_none {ℓ} : {A : Type ℓ} → List A → Bool
has_none [] = true
has_none (x ∷ xs) = false

-- Measurement, the value of PCR 0 or nothing.
unfoldable pub document_measurement : NitroDocument → Bytes
document_measurement d = pcr 0 d.pcrs

abbrev lacks_fields : NitroDocument → Bool
lacks_fields d =
    str_eq d.module_id ""
    || str_eq d.digest ""
    || d.timestamp == 0
    || has_none d.pcrs
    || has_none d.certificate

module _ (a : Attestor) where
  -- ParseNitroDocument
  unfoldable pub parse_nitro_document : Bytes → Option NitroDocument
  parse_nitro_document bytes = do
    d ← a.decode_cose bytes
    if lacks_fields d then none else if str_eq d.digest "SHA384" then some d else none

  -- Evidence with a measurement that is there.
  abbrev nitro_evidence : Bytes → Bytes → Bytes → Option Evidence
  nitro_evidence nonce doc measurement =
      if has_none measurement
      then none
      else some (record {
        substrate = cc_substrate;
        measurement = measurement;
        nonce = nonce;
        format = "nitro-attestation-doc";
        document = doc;
      })

  -- attestNitroEvidence
  unfoldable pub attest_nitro_evidence : Bytes → Bytes → Option Evidence
  attest_nitro_evidence pub_key nonce = do
    doc ← a.nsm_document nonce pub_key
    parsed ← parse_nitro_document doc
    nitro_evidence nonce doc (document_measurement parsed)

  abbrev stub_evidence : String → String → Bytes → Evidence
  stub_evidence backend format nonce = record {
    substrate = cc_substrate;
    measurement = a.sha256 "pyxcloud-confidential-container-runtime/v1";
    nonce = nonce;
    format = format;
    document = codes "STUB:" ++ codes backend ++ codes ":not-a-real-attestation-document";
  }

  -- The switch over the backend of a confidential container.
  unfoldable pub attest_container : String → Bytes → Bytes → Option Evidence
  attest_container backend pub_key nonce =
      if str_eq backend nitro
      then attest_nitro_evidence pub_key nonce
      else if str_eq backend "gcp-confidential-space"
      then some (stub_evidence backend "gcp-confidential-space-token" nonce)
      else if str_eq backend "azure-cc"
      then some (stub_evidence backend "azure-maa-token" nonce)
      else none

  unfoldable pub attest_nonce : Runtime → Bytes → Option Evidence
  attest_nonce sealed_wasm nonce = some (record {
    substrate = wasm_substrate;
    measurement = a.sha256 "pyxcloud-sealed-wasm-runtime/v1";
    nonce = nonce;
    format = "sealed-wasm-local";
    document = a.sha256 "pyxcloud-sealed-wasm-runtime/v1";
  })
  attest_nonce hardware_tee nonce = some (record {
    substrate = tee_substrate;
    measurement = a.sha256 "pyxcloud-hardware-tee-runtime/v1";
    nonce = nonce;
    format = "sev-snp-report";
    document = codes "STUB:hardware-tee-attestation-report:not-a-real-quote";
  })
  attest_nonce (confidential_container backend pub_key) nonce =
      attest_container backend pub_key nonce

  -- The three Attest methods.
  unfoldable pub attest : Runtime → Option Evidence
  attest rt = do nonce ← a.random_nonce; attest_nonce rt nonce
