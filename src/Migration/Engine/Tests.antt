-- ===== src/Migration/Engine/Tests.antt =====
-- A run of the engine in a small world, and instances of the theorems on sealing and on runs.
use mathlib.Core.Option.{some-injective}
use terraform_provider_pyxcl.Prelude.{
  any, ℕ, ◌+◌, String, ◌≡◌, refl, sym, ap, ◌⊎◌, Bool, true, false, none, some, List, [], ◌∷◌, arith,
  All,
}
use terraform_provider_pyxcl.Prelude.Int.{pos}
use terraform_provider_pyxcl.GoLang.Text.{codes}
use terraform_provider_pyxcl.Migration.Status.{Phase, OpaqueStep, no_payload}
use terraform_provider_pyxcl.Migration.Seal.{
  Bytes, Sealed, Crypto, EphemeralKey, new_ephemeral_key, zeros, derive_key, seal_to, open_sealed,
  take_bytes, drop_bytes,
}
use terraform_provider_pyxcl.Migration.Seal.RoundTrip.{IsSound, seal_to-open_sealed}
use terraform_provider_pyxcl.Migration.Interpreter.{run_program, decode_bundle}
use terraform_provider_pyxcl.Migration.Interpreter.Verdict.{any_failed, Reports}
use terraform_provider_pyxcl.Migration.Interpreter.DryRun.{NoCutover}
use terraform_provider_pyxcl.Migration.Runtime.{
  select, bind_public_key, auto_detect, tee_or_wasm, detect, detect_host_tee, first_marker,
  detect_cc_launchable, new_confidential_container, detect_all,
}
use terraform_provider_pyxcl.Migration.Runtime.Strongest.{is_strongest, auto_detect-is_strongest}
use terraform_provider_pyxcl.Migration.Runtime.Attest.{attest, attest_nonce}
use terraform_provider_pyxcl.Migration.Client.{
  PlanInput, sealed_inputs_from, to_sealed, creds_sealed, plan_request,
}
use terraform_provider_pyxcl.Migration.Engine.{
  Options, World, Fault, unseal, open_creds, run_inputs, run_plan, run_attested, run_selected,
  run_keyed, run,
}
use terraform_provider_pyxcl.Migration.Engine.Opaque.{requests_of, run-requests_of}
use terraform_provider_pyxcl.Migration.Engine.Reports.{
  IsUnsealed, run-observations, run-Reports, run-NoCutover, is_mislabelled,
}

abbrev total : Bytes → ℕ
total [] = 0
total (b ∷ bs) = b + total bs

-- A key exchange by addition, and a cipher that leaves the text.
abbrev additive : Crypto
additive = record {
  basepoint = 0 ∷ [];
  x25519 = λ a p. some ((total a + total p) ∷ []);
  hkdf = λ secret salt info. some secret;
  accepts = λ key. true;
  nonce_size = 1;
  aead_seal = λ key nonce text aad. text;
  aead_open = λ key nonce text aad. some text;
}

additive-IsSound : IsSound additive
additive-IsSound = record {
  exchange = λ a b p q h k.
      rw (sym (some-injective _ p h), sym (some-injective _ q k))
        (ap (λ n. some (n ∷ [])) (omega arith));
  decrypt = λ key nonce text aad. refl;
}

abbrev box : Sealed
box = record { kem_pub = 4 ∷ []; ciphertext = 8 ∷ 1 ∷ 2 ∷ [] }

box_sealed :
    seal_to additive (some (4 ∷ [])) (some (8 ∷ [])) (7 ∷ []) (1 ∷ 2 ∷ []) (3 ∷ []) ≡ some box
unfolding seal_to derive_key
box_sealed = refl

seal_to-open_sealed_example : open_sealed additive (7 ∷ []) box (3 ∷ []) ≡ some (1 ∷ 2 ∷ [])
seal_to-open_sealed_example =
    seal_to-open_sealed additive additive-IsSound (7 ∷ []) (7 ∷ []) (4 ∷ []) (8 ∷ []) (1 ∷ 2 ∷ [])
      (3 ∷ []) box refl refl box_sealed

abbrev one_device : String → Bool
one_device path = true

auto_detect-is_strongest_example :
    let (rt, capability) = auto_detect one_device "azure-cc" in
    (capability.available ≡ true)
    × (is_strongest capability (detect_all one_device "azure-cc") ≡ true)
    × (capability ≡ detect one_device rt)
auto_detect-is_strongest_example = auto_detect-is_strongest one_device "azure-cc"

abbrev step : Phase → Bool → OpaqueStep
step phase cutover = record {
  phase = phase;
  weight = pos 1;
  cutover = cutover;
  payload = no_payload;
}

abbrev program : List OpaqueStep
program = step "syncing" false ∷ step "cutover" true ∷ []

abbrev bare_host : World
bare_host = record {
  random_key = some (5 ∷ []);
  crypto = additive;
  present = λ path. false;
  attestor = record {
    random_nonce = some (1 ∷ []);
    sha256 = codes;
    nsm_document = λ nonce pub_key. none;
    decode_cose = λ doc. none;
  };
  base64 = record { encode = λ bytes. "AA=="; decode = λ text. some (zeros 32) };
  backend = λ request. some (record {
    run_id = "r1";
    bundle = record { kem_pub = "kk"; ciphertext = "cc" };
    creds = record { kem_pub = ""; ciphertext = "" };
    expected_measurement = "mm";
  });
  unmarshal = λ bytes. some program;
  deliver = λ n. true;
}

abbrev dry : Options
dry = record { confidential_runtime = "auto"; cc_backend = ""; dry_run = true }

abbrev input : PlanInput
input = record {
  place = "eu";
  source_provider = "aws";
  target_provider = "gcp";
  source_topology = "{}";
  dry_run = false;
}

run_fault : (run bare_host input dry).0.fault ≡ none
unfolding run run_keyed run_selected run_attested run_plan run_inputs unseal open_creds open_sealed
    derive_key take_bytes drop_bytes decode_bundle sealed_inputs_from to_sealed creds_sealed zeros
    plan_request attest attest_nonce select bind_public_key auto_detect tee_or_wasm detect
    detect_host_tee first_marker detect_cc_launchable new_confidential_container new_ephemeral_key
run_fault = refl

run-observations_example :
    let p = (run bare_host input dry).0 in
    (((f : Fault) × (p.fault ≡ some f)) × (p.result.observations ≡ []))
    ⊎ ((p.fault ≡ none)
        × ((steps : List OpaqueStep) × (IsUnsealed bare_host steps
              × (p.result.observations ≡ run_program bare_host.deliver true steps))))
run-observations_example = run-observations bare_host dry input

run-Reports_example :
    (steps : List OpaqueStep) × (IsUnsealed bare_host steps
      × Reports (any_failed steps) (run bare_host input dry).0.result)
run-Reports_example = run-Reports bare_host dry input (λ n. refl) run_fault

run-NoCutover_example :
    All NoCutover (run bare_host input dry).0.result.observations
    ⊎ ((steps : List OpaqueStep) × (IsUnsealed bare_host steps
          × (((run bare_host input dry).0.result.observations
                ≡ run_program bare_host.deliver true steps)
              × (any is_mislabelled steps ≡ true))))
run-NoCutover_example = run-NoCutover bare_host dry input refl

abbrev key : EphemeralKey
key = record { priv = 5 ∷ []; pub_key = 5 ∷ []; cleared = false }

key_made : new_ephemeral_key additive (some (5 ∷ [])) ≡ some key
unfolding new_ephemeral_key
key_made = refl

run-requests_of_example :
    ((run bare_host input dry).0.sent ≡ requests_of bare_host input dry (5 ∷ []))
    × ((run bare_host input dry).1
        ≡ some (record { priv = zeros 1; pub_key = 5 ∷ []; cleared = true }))
run-requests_of_example = run-requests_of bare_host input dry key key_made
