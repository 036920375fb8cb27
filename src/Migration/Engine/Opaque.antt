-- ===== src/Migration/Engine/Opaque.antt =====
-- What leaves the provider during a run, and what is left of the key (internal/migration/engine.go,
-- client.go and ephemeral.go).
use mathlib.Core.Option.{some-injective}
use terraform_provider_pyxcl.Prelude.{
  ◌≡◌, refl, sym, ap, inl, inr, true, false, Option, none, some, List, [], ◌∷◌, length,
  Option-cases,
}
use terraform_provider_pyxcl.Migration.Seal.{
  Bytes, Crypto, EphemeralKey, new_ephemeral_key, zeros, zeroize, zeroize_key,
}
use terraform_provider_pyxcl.Migration.Runtime.{Capability, Runtime, bind_public_key, select}
use terraform_provider_pyxcl.Migration.Runtime.Attest.{Evidence, attest}
use terraform_provider_pyxcl.Migration.Client.{
  PlanInput, PlanRequest, PlanResponse, SealedInputs, sealed_inputs_from,
}
use terraform_provider_pyxcl.Migration.Engine.{
  Result, Options, World, unseal, run_inputs, run_plan, request_of, run_attested, run_selected,
  run_keyed, run,
}

zeroize-zeros : (bs : Bytes) → zeroize bs ≡ zeros (length bs)
unfolding zeroize zeros
zeroize-zeros [] = refl
zeroize-zeros (b ∷ bs) = ap (λ r. 0 ∷ r) (zeroize-zeros bs)

new_ephemeral_key-fresh :
    (c : Crypto) (random : Option Bytes) (key : EphemeralKey)
    → new_ephemeral_key c random ≡ some key
    → key.cleared ≡ false
unfolding new_ephemeral_key
new_ephemeral_key-fresh c none key h = cc h
new_ephemeral_key-fresh c (some priv) key h = elim (Option-cases (c.x25519 priv c.basepoint)) [
  | inl e ↦ let h' = rw e at h in cc h'
  | inr (pub_key, e) ↦
      let h' = rw e at h in ap (λ (k : EphemeralKey). k.cleared) (sym (some-injective _ key h'))
]

module _ (w : World) (input : PlanInput) (opt : Options) where
  -- The requests of a run, from its public key alone: at most one, with the evidence of the selected
  -- runtime, into which that same key is bound.
  abbrev attested_request : Bytes → Option Evidence → List PlanRequest
  attested_request pub_key none = []
  attested_request pub_key (some ev) = request_of w input opt pub_key ev ∷ []

  abbrev selected_requests : Bytes → Option (Runtime × Capability) → List PlanRequest
  selected_requests pub_key none = []
  selected_requests pub_key (some (rt, cape)) =
      attested_request pub_key (attest w.attestor (bind_public_key rt pub_key))

  abbrev pub requests_of : Bytes → List PlanRequest
  requests_of pub_key =
      selected_requests pub_key (select w.present opt.confidential_runtime opt.cc_backend)

module _ (w : World) (opt : Options) where
  run_inputs-sent :
      (res : Result) (sent : List PlanRequest) (priv : Bytes) (inputs : SealedInputs)
      → (run_inputs w res sent priv inputs).sent ≡ sent
  unfolding run_inputs
  run_inputs-sent res sent priv inputs = elim (Option-cases (unseal w priv inputs)) [
    | inl e ↦ rw (e, run_inputs)
    | inr (steps, e) ↦ rw (e, run_inputs)
  ]

  run_plan-sent :
      (res : Result) (sent : List PlanRequest) (priv : Bytes) (pr : PlanResponse)
      → (run_plan w opt res sent priv pr).sent ≡ sent
  unfolding run_plan
  run_plan-sent res sent priv pr =
      elim (Option-cases (sealed_inputs_from w.base64 pr opt.dry_run)) [
        | inl e ↦ rw (e, run_plan)
        | inr (inputs, e) ↦ rw (e, run_plan) (run_inputs-sent _ sent priv inputs)
      ]

  run_attested-sent :
      (input : PlanInput) (key : EphemeralKey) (res : Result) (ev : Evidence)
      → (run_attested w input opt key res ev).sent ≡ request_of w input opt key.pub_key ev ∷ []
  unfolding run_attested
  run_attested-sent input key res ev =
      elim (Option-cases (w.backend (request_of w input opt key.pub_key ev))) [
        | inl e ↦ rw (e, run_attested)
        | inr (pr, e) ↦ rw (e, run_attested) (run_plan-sent _ _ key.priv pr)
      ]

  run_selected-sent :
      (input : PlanInput) (key : EphemeralKey) (rt : Runtime) (cape : Capability)
      → (run_selected w input opt key rt cape).sent
        ≡ attested_request w input opt key.pub_key
            (attest w.attestor (bind_public_key rt key.pub_key))
  unfolding run_selected
  run_selected-sent input key rt cape =
      elim (Option-cases (attest w.attestor (bind_public_key rt key.pub_key))) [
        | inl e ↦ rw (e, run_selected)
        | inr (ev, e) ↦ rw (e, run_selected) (run_attested-sent input key _ ev)
      ]

  run_keyed-sent :
      (input : PlanInput) (key : EphemeralKey)
      → (run_keyed w input opt key).sent ≡ requests_of w input opt key.pub_key
  unfolding run_keyed
  run_keyed-sent input key =
      elim (Option-cases (select w.present opt.confidential_runtime opt.cc_backend)) [
        | inl e ↦ rw (e, run_keyed)
        | inr ((rt, cape), e) ↦ rw (e, run_keyed) (run_selected-sent input key rt cape)
      ]

-- A run with a new key sends the requests that its public key alone determines, so the private key
-- does not influence what is sent; and however the run ends, it leaves the private key all zeros and
-- marked as cleared.
pub run-requests_of :
    (w : World) (input : PlanInput) (opt : Options) (key : EphemeralKey)
    → new_ephemeral_key w.crypto w.random_key ≡ some key
    → ((run w input opt).0.sent ≡ requests_of w input opt key.pub_key)
      × ((run w input opt).1
          ≡ some (record { priv = zeros (length key.priv); pub_key = key.pub_key; cleared = true }))
unfolding run zeroize_key
run-requests_of w input opt key h =
    let fresh = new_ephemeral_key-fresh w.crypto w.random_key key h in
    rw (h, run) (run_keyed-sent w opt input key, rw (fresh, zeroize-zeros key.priv))
