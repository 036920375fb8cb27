-- ===== src/Migration/Engine/HonestTests.antt =====
-- A run of the engine against a backend that keeps to the protocol, in a small world.
use text.Mathlib.Text.{◌==◌ as str_eq}
use mathlib.Core.Option.{some-injective}
use terraform_provider_pyxcl.Prelude.{
  ℕ, ◌+◌, ◌≡◌, refl, sym, ap, true, false, none, some, [], ◌∷◌, arith, if◌then◌else◌, inr,
}
use terraform_provider_pyxcl.Prelude.Int.{pos}
use terraform_provider_pyxcl.GoLang.Text.{codes}
use terraform_provider_pyxcl.Migration.Status.{OpaqueStep, no_payload}
use terraform_provider_pyxcl.Migration.Seal.{
  Bytes, Crypto, EphemeralKey, new_ephemeral_key, zeros, derive_key, seal_to,
}
use terraform_provider_pyxcl.Migration.Seal.RoundTrip.{IsSound}
use terraform_provider_pyxcl.Migration.Interpreter.{run_program}
use terraform_provider_pyxcl.Migration.Runtime.{
  Capability, sealed_wasm, wasm_substrate, note, select, bind_public_key, auto_detect, tee_or_wasm,
  detect, detect_host_tee, first_marker, detect_cc_launchable, new_confidential_container,
}
use terraform_provider_pyxcl.Migration.Runtime.Attest.{Evidence, attest, attest_nonce}
use terraform_provider_pyxcl.Migration.Client.{
  PlanInput, PlanResponse, SealedInputs, sealed_inputs_from, to_sealed, creds_sealed, plan_request,
}
use terraform_provider_pyxcl.Migration.Engine.{Options, World, request_of, run}
use terraform_provider_pyxcl.Migration.Engine.Honest.{IsHonest, run_completes}

abbrev total : Bytes → ℕ
total [] = 0
total (b ∷ bs) = b + total bs

-- 31 bytes of zeros
abbrev padding : Bytes
padding =
    0 ∷ 0 ∷ 0 ∷ 0 ∷ 0 ∷ 0 ∷ 0 ∷ 0 ∷ 0 ∷ 0 ∷ 0 ∷ 0 ∷ 0 ∷ 0 ∷ 0 ∷ 0 ∷ 0 ∷ 0 ∷ 0 ∷ 0 ∷ 0 ∷ 0 ∷ 0 ∷ 0
    ∷ 0 ∷ 0 ∷ 0 ∷ 0 ∷ 0 ∷ 0 ∷ 0 ∷ []

-- Keys of 32 bytes, exchanged by addition, and a cipher that leaves the text.
abbrev additive : Crypto
additive = record {
  basepoint = 0 ∷ [];
  x25519 = λ a p. some ((total a + total p) ∷ padding);
  hkdf = λ secret salt info. some secret;
  accepts = λ key. true;
  nonce_size = 1;
  aead_seal = λ key nonce text aad. text;
  aead_open = λ key nonce text aad. some text;
}

additive-IsSound : IsSound additive
additive-IsSound = record {
  exchange = λ a b p q h k.
      rw (sym (some-injective _ p h), sym (some-injective _ q k))
        (ap (λ n. some (n ∷ padding)) (omega arith));
  decrypt = λ key nonce text aad. refl;
}

abbrev only_step : OpaqueStep
only_step = record { phase = "syncing"; weight = pos 1; cutover = false; payload = no_payload }

abbrev reply : PlanResponse
reply = record {
  run_id = "r1";
  bundle = record { kem_pub = "kk"; ciphertext = "cc" };
  creds = record { kem_pub = "kk"; ciphertext = "dd" };
  expected_measurement = "mm";
}

abbrev honest_world : World
honest_world = record {
  random_key = some (5 ∷ []);
  crypto = additive;
  present = λ path. false;
  attestor = record {
    random_nonce = some (1 ∷ []);
    sha256 = codes;
    nsm_document = λ nonce pub_key. none;
    decode_cose = λ doc. none;
  };
  base64 = record {
    encode = λ bytes. "AA==";
    decode = λ text.
        if str_eq text "kk"
        then some (4 ∷ padding)
        else if str_eq text "cc"
        then some (8 ∷ 1 ∷ 2 ∷ [])
        else if str_eq text "dd"
        then some (7 ∷ 3 ∷ [])
        else some (9 ∷ []);
  };
  backend = λ request. some reply;
  unmarshal = λ bytes. some (only_step ∷ []);
  deliver = λ n. true;
}

abbrev wet : Options
wet = record { confidential_runtime = "auto"; cc_backend = ""; dry_run = false }

abbrev input : PlanInput
input = record {
  place = "eu";
  source_provider = "aws";
  target_provider = "gcp";
  source_topology = "{}";
  dry_run = true;
}

abbrev key : EphemeralKey
key = record { priv = 5 ∷ []; pub_key = 5 ∷ padding; cleared = false }

abbrev evidence : Evidence
evidence = record {
  substrate = wasm_substrate;
  measurement = codes "pyxcloud-sealed-wasm-runtime/v1";
  nonce = 1 ∷ [];
  format = "sealed-wasm-local";
  document = codes "pyxcloud-sealed-wasm-runtime/v1";
}

abbrev capability : Capability
capability = record {
  substrate = wasm_substrate;
  strength = 1;
  available = true;
  hardware_backed = false;
  detail = note "software memory-sealed WASM sandbox (portable fallback)";
}

abbrev inputs : SealedInputs
inputs = record {
  bundle = record { kem_pub = 4 ∷ padding; ciphertext = 8 ∷ 1 ∷ 2 ∷ [] };
  creds = record { kem_pub = 4 ∷ padding; ciphertext = 7 ∷ 3 ∷ [] };
  expected_measurement = 9 ∷ [];
  dry_run = false;
}

honest_world-IsHonest : IsHonest honest_world input wet
unfolding new_ephemeral_key select auto_detect tee_or_wasm detect detect_host_tee first_marker
    detect_cc_launchable new_confidential_container attest attest_nonce bind_public_key request_of
    plan_request sealed_inputs_from to_sealed creds_sealed seal_to derive_key zeros
honest_world-IsHonest = record {
  sound = additive-IsSound;
  key = key;
  made = refl;
  rt = sealed_wasm;
  capability = capability;
  chosen = refl;
  evidence = evidence;
  attested = refl;
  response = reply;
  answered = refl;
  inputs = inputs;
  decoded = refl;
  creds = inr (record {
    sender_key = 4 ∷ [];
    nonce = 7 ∷ [];
    fits = refl;
    plaintext = 3 ∷ [];
    sealed = refl;
  });
  bundle = record {
    sender_key = 4 ∷ [];
    nonce = 8 ∷ [];
    fits = refl;
    plaintext = 1 ∷ 2 ∷ [];
    sealed = refl;
  };
  first_step = only_step;
  steps = [];
  program = refl;
}

run_completes_example :
    let p = (run honest_world input wet).0 in
    (p.fault ≡ none)
    × (p.result.run_id ≡ "r1")
    × (p.result.substrate ≡ wasm_substrate)
    × (p.result.observations ≡ run_program honest_world.deliver false (only_step ∷ []))
unfolding honest_world-IsHonest
run_completes_example = run_completes honest_world input wet honest_world-IsHonest
