-- ===== src/Migration/Engine/Honest.antt =====
-- A run against a backend that keeps to the protocol (internal/migration/engine.go).
use mathlib.Core.Option.{some-injective}
use terraform_provider_pyxcl.Prelude.{
  ◌≡◌, refl, sym, inl, inr, Option, none, some, List, [], ◌∷◌, length, Option-cases, ◌⊎◌,
  Bool-cases,
}
use terraform_provider_pyxcl.Migration.Seal.{
  Bytes, Sealed, Crypto, EphemeralKey, new_ephemeral_key, seal_to, open_sealed,
}
use terraform_provider_pyxcl.Migration.Seal.RoundTrip.{IsSound, seal_to-open_sealed}
use terraform_provider_pyxcl.Migration.Status.{Status, OpaqueStep}
use terraform_provider_pyxcl.Migration.Interpreter.{run_program, decode_bundle}
use terraform_provider_pyxcl.Migration.Runtime.{Capability, Runtime, bind_public_key, select}
use terraform_provider_pyxcl.Migration.Runtime.Attest.{Evidence, attest, has_none}
use terraform_provider_pyxcl.Migration.Client.{
  PlanInput, PlanResponse, SealedInputs, sealed_inputs_from,
}
use terraform_provider_pyxcl.Migration.Engine.{
  Result, observe, observe_all, Options, World, open_creds, unseal, run_inputs, run_plan,
  request_of, run_attested, run_selected, run_keyed, run,
}
use terraform_provider_pyxcl.Migration.Engine.Outcome.{
  sealed_inputs_from-dry_run, observe_all-observations,
}

-- A box that somebody seals to a public key and to a measurement.
pub record IsSealed (c : Crypto) (pub_key measurement : Bytes) (box : Sealed) : Type 0 where
  pub sender_key : Bytes
  pub nonce : Bytes
  pub fits : length nonce ≡ c.nonce_size
  pub plaintext : Bytes
  pub sealed : seal_to c (some sender_key) (some nonce) pub_key plaintext measurement ≡ some box

-- The key, the runtime and its evidence come about, and the backend answers the request with a program
-- and, if it has any, credentials, each of which is sealed to the key of the request and to the
-- measurement that the answer expects.
pub record IsHonest (w : World) (input : PlanInput) (opt : Options) : Type 0 where
  pub sound : IsSound w.crypto
  pub key : EphemeralKey
  pub made : new_ephemeral_key w.crypto w.random_key ≡ some key
  pub rt : Runtime
  pub capability : Capability
  pub chosen : select w.present opt.confidential_runtime opt.cc_backend ≡ some (rt, capability)
  pub evidence : Evidence
  pub attested : attest w.attestor (bind_public_key rt key.pub_key) ≡ some evidence
  pub response : PlanResponse
  pub answered : w.backend (request_of w input opt key.pub_key evidence) ≡ some response
  pub inputs : SealedInputs
  pub decoded : sealed_inputs_from w.base64 response opt.dry_run ≡ some inputs
  pub creds :
      (inputs.creds.ciphertext ≡ [])
      ⊎ IsSealed w.crypto key.pub_key inputs.expected_measurement inputs.creds
  pub bundle : IsSealed w.crypto key.pub_key inputs.expected_measurement inputs.bundle
  pub first_step : OpaqueStep
  pub steps : List OpaqueStep
  pub program : w.unmarshal bundle.plaintext ≡ some (first_step ∷ steps)

-- The public key is that of the private key.
new_ephemeral_key-public :
    (c : Crypto) (random : Option Bytes) (key : EphemeralKey)
    → new_ephemeral_key c random ≡ some key
    → c.x25519 key.priv c.basepoint ≡ some key.pub_key
unfolding new_ephemeral_key
new_ephemeral_key-public c none key h = cc h
new_ephemeral_key-public c (some priv) key h = elim (Option-cases (c.x25519 priv c.basepoint)) [
  | inl e ↦ let h' = rw e at h in cc h'
  | inr (pub_key, e) ↦ let h' = rw e at h in rw (sym (some-injective _ key h')) e
]

-- No status changes where a run ran.
observe_all-keeps :
    (res : Result) (sts : List Status)
    → ((observe_all res sts).run_id ≡ res.run_id)
      × ((observe_all res sts).substrate ≡ res.substrate)
unfolding observe_all observe
observe_all-keeps res [] = (refl, refl)
observe_all-keeps res (st ∷ sts) = observe_all-keeps (observe res st) sts

module _ (w : World) (input : PlanInput) (opt : Options) (h : IsHonest w input opt) where
  box-opened :
      (box : Sealed) (s : IsSealed w.crypto h.key.pub_key h.inputs.expected_measurement box)
      → open_sealed w.crypto h.key.priv box h.inputs.expected_measurement ≡ some s.plaintext
  box-opened box s =
      seal_to-open_sealed w.crypto h.sound h.key.priv h.key.pub_key s.sender_key s.nonce s.plaintext
        h.inputs.expected_measurement box
        (new_ephemeral_key-public w.crypto w.random_key h.key h.made) s.fits s.sealed

  creds_opened : (creds : Bytes) × (open_creds w h.key.priv h.inputs ≡ some creds)
  unfolding open_creds
  creds_opened = elim h.creds [
    | inl e ↦ ([], rw e refl)
    | inr s ↦ elim (Bool-cases (has_none h.inputs.creds.ciphertext)) [
      | inl e ↦ ([], rw e refl)
      | inr e ↦ (s.plaintext, rw e (box-opened h.inputs.creds s))
    ]
  ]

  unsealed : unseal w h.key.priv h.inputs ≡ some (h.first_step ∷ h.steps)
  unfolding unseal decode_bundle
  unsealed = rw (box-opened h.inputs.bundle h.bundle, creds_opened.1, h.program)

  -- Where every party keeps to the protocol, with or without sealed credentials, the run returns no
  -- error, its result has the backend's run id and the runtime's substrate, and it has observed exactly
  -- the statuses that arrive from the execution of the sealed program under the dry-run option.
  pub run_completes :
      let p = (run w input opt).0 in
      (p.fault ≡ none)
      × (p.result.run_id ≡ h.response.run_id)
      × (p.result.substrate ≡ h.capability.substrate)
      × (p.result.observations ≡ run_program w.deliver opt.dry_run (h.first_step ∷ h.steps))
  unfolding run run_keyed run_selected run_attested run_plan run_inputs
  run_completes =
      let sts = run_program w.deliver opt.dry_run (h.first_step ∷ h.steps) in
      let dry = sealed_inputs_from-dry_run w.base64 h.response opt.dry_run h.inputs h.decoded in
      rw
        (
          h.made, run, h.chosen, run_keyed, h.attested, run_selected, h.answered, run_attested,
          h.decoded, run_plan, unsealed, run_inputs, dry,
        )
        (
          refl,
          (observe_all-keeps _ sts).0,
          (observe_all-keeps _ sts).1,
          observe_all-observations _ sts,
        )
