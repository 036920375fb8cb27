-- ===== src/Migration/Engine.antt =====
-- internal/migration/engine.go: one run of the engine, from the key to the last status.
pub mod Opaque
pub mod Outcome
pub mod Reports
pub mod Honest
mod Tests
mod HonestTests
use text.Mathlib.Text.{◌==◌ as str_eq}
use terraform_provider_pyxcl.Prelude.{
  ℕ, String, Bool, true, false, not, Option, none, some, List, [], ◌∷◌, ◌++◌, if◌then◌else◌,
}
use terraform_provider_pyxcl.Prelude.Int.{ℤ, pos}
use terraform_provider_pyxcl.Migration.Seal.{
  Bytes, Sealed, Crypto, EphemeralKey, new_ephemeral_key, open_sealed, zeroize_key, ◌>>=◌,
}
use terraform_provider_pyxcl.Migration.Status.{Phase, failed, Status, OpaqueStep}
use terraform_provider_pyxcl.Migration.Interpreter.{decode_bundle, run_program}
use terraform_provider_pyxcl.Migration.Runtime.{
  Substrate, Detail, Capability, Runtime, bind_public_key, select,
}
use terraform_provider_pyxcl.Migration.Runtime.Attest.{Evidence, Attestor, attest, has_none}
use terraform_provider_pyxcl.Migration.Client.{
  PlanInput, PlanRequest, PlanResponse, SealedInputs, Base64, plan_request, sealed_inputs_from,
}

-- Result
pub record Result : Type 0 where
  pub run_id : String
  pub substrate : Substrate
  pub hardware_backed : Bool
  pub runtime_detail : Option Detail
  pub final_phase : Phase
  pub percent : ℤ
  pub verdict : String
  pub rolled_back : Bool
  pub attestation_ok : Bool
  pub observations : List Status

-- The loop's body; an empty verdict keeps the one before, and a rollback is never taken back.
unfoldable pub observe : Result → Status → Result
observe res st = record res {
  final_phase = st.phase;
  percent = st.percent;
  verdict = (if str_eq st.verdict "" then res.verdict else st.verdict);
  rolled_back = (if st.rolled_back then true else res.rolled_back);
  observations = res.observations ++ st ∷ [];
}

-- for st := range stream
unfoldable pub observe_all : Result → List Status → Result
observe_all res [] = res
observe_all res (st ∷ sts) = observe_all (observe res st) sts

-- Options; the attestation endpoint is forwarded by no call of Run.
pub record Options : Type 0 where
  pub confidential_runtime : Substrate
  pub cc_backend : String
  pub dry_run : Bool

-- What a run meets outside of this code: the random source, the cryptography, the files of the host,
-- attestation, base64, the backend behind RequestPlan, json.Unmarshal of a bundle, and which statuses
-- arrive.
pub record World : Type 0 where
  pub random_key : Option Bytes
  pub crypto : Crypto
  pub present : String → Bool
  pub attestor : Attestor
  pub base64 : Base64
  pub backend : PlanRequest → Option PlanResponse
  pub unmarshal : Bytes → Option (List OpaqueStep)
  pub deliver : ℕ → Bool

-- The call of Run that failed.
pub data Fault : Type 0 where
  no_key no_runtime not_attested no_plan bad_inputs not_run : Fault

-- How a run ends: the result and the error that it returns, and the plan requests that it sent.
pub record Progress : Type 0 where
  pub result : Result
  pub fault : Option Fault
  pub sent : List PlanRequest

abbrev pub no_result : Result
no_result = record {
  run_id = "";
  substrate = "";
  hardware_backed = false;
  runtime_detail = none;
  final_phase = "";
  percent = pos 0;
  verdict = "";
  rolled_back = false;
  attestation_ok = false;
  observations = [];
}

abbrev pub selected : Capability → Result
selected cape = record no_result {
  substrate = cape.substrate;
  hardware_backed = cape.hardware_backed;
  runtime_detail = some cape.detail;
}

abbrev pub stop : Result → Fault → List PlanRequest → Progress
stop res fault sent = record {
  result = record res { final_phase = failed };
  fault = some fault;
  sent = sent;
}

module _ (w : World) where
  -- Credentials are opened only if there are any.
  unfoldable pub open_creds : Bytes → SealedInputs → Option Bytes
  open_creds priv inputs =
      if has_none inputs.creds.ciphertext
      then some []
      else open_sealed w.crypto priv inputs.creds inputs.expected_measurement

  -- SealedWASM.Run, which the other two runtimes call: the program that it runs, or an error.
  unfoldable pub unseal : Bytes → SealedInputs → Option (List OpaqueStep)
  unseal priv inputs = do
    bundle ← open_sealed w.crypto priv inputs.bundle inputs.expected_measurement
    creds ← open_creds priv inputs
    decode_bundle (w.unmarshal bundle)

  unfoldable pub run_inputs : Result → List PlanRequest → Bytes → SealedInputs → Progress
  run_inputs res sent priv inputs = elim (unseal priv inputs) [
    | none ↦ stop res not_run sent
    | some steps ↦ record {
      result = observe_all res (run_program w.deliver inputs.dry_run steps);
      fault = none;
      sent = sent;
    }
  ]

  unfoldable pub run_plan : Options → Result → List PlanRequest → Bytes → PlanResponse → Progress
  run_plan opt res sent priv pr = elim (sealed_inputs_from w.base64 pr opt.dry_run) [
    | none ↦ stop (record res { run_id = pr.run_id }) bad_inputs sent
    | some inputs ↦ run_inputs (record res { run_id = pr.run_id }) sent priv inputs
  ]

  -- The request that a run sends, once it is attested.
  unfoldable pub request_of : PlanInput → Options → Bytes → Evidence → PlanRequest
  request_of input opt pub_key ev =
      plan_request w.base64 (record input { dry_run = opt.dry_run }) pub_key ev

  unfoldable pub run_attested : PlanInput → Options → EphemeralKey → Result → Evidence → Progress
  run_attested input opt key res ev =
      let request = request_of input opt key.pub_key ev in
      let res' = record res { attestation_ok = not (has_none ev.measurement) } in
      elim (w.backend request) [
        | none ↦ stop res' no_plan (request ∷ [])
        | some pr ↦ run_plan opt res' (request ∷ []) key.priv pr
      ]

  unfoldable pub run_selected : PlanInput → Options → EphemeralKey → Runtime → Capability → Progress
  run_selected input opt key rt cape = elim (attest w.attestor (bind_public_key rt key.pub_key)) [
    | none ↦ stop (selected cape) not_attested []
    | some ev ↦ run_attested input opt key (selected cape) ev
  ]

  unfoldable pub run_keyed : PlanInput → Options → EphemeralKey → Progress
  run_keyed input opt key = elim (select w.present opt.confidential_runtime opt.cc_backend) [
    | none ↦ record { result = no_result; fault = some no_runtime; sent = [] }
    | some (rt, cape) ↦ run_selected input opt key rt cape
  ]

  -- Run: how it ends, and the key after the deferred Zeroize.
  unfoldable pub run : PlanInput → Options → Progress × Option EphemeralKey
  run input opt = elim (new_ephemeral_key w.crypto w.random_key) [
    | none ↦ (record { result = no_result; fault = some no_key; sent = [] }, none)
    | some key ↦ (run_keyed input opt key, some (zeroize_key key))
  ]
