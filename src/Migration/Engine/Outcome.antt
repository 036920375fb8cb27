-- ===== src/Migration/Engine/Outcome.antt =====
-- How a run of the engine ends (internal/migration/engine.go).
use mathlib.Core.Option.{some-injective}
use terraform_provider_pyxcl.Prelude.{
  String, ◌≡◌, refl, sym, ◌∙◌, ap, ◌⊎◌, inl, inr, Bool, false, not, none, some, List, [], ◌∷◌, ◌++◌,
  Option-cases,
}
use mathlib.Core.List.{append-nil, append_assoc}
use terraform_provider_pyxcl.Migration.Seal.{Bytes, EphemeralKey, new_ephemeral_key}
use terraform_provider_pyxcl.Migration.Status.{Status, OpaqueStep}
use terraform_provider_pyxcl.Migration.Interpreter.{run_program}
use terraform_provider_pyxcl.Migration.Runtime.{Capability, Runtime, bind_public_key, select}
use terraform_provider_pyxcl.Migration.Runtime.Attest.{Evidence, attest, has_none}
use terraform_provider_pyxcl.Migration.Client.{
  PlanInput, PlanRequest, PlanResponse, SealedInputs, Base64, sealed_inputs_from, to_sealed,
  creds_sealed,
}
use terraform_provider_pyxcl.Migration.Engine.{
  Result, observe, observe_all, Options, World, Fault, Progress, stop, selected, no_result, unseal,
  run_inputs, run_plan, request_of, run_attested, run_selected, run_keyed, run,
}

-- Nothing of a status is in the result.
pub record IsBlank (res : Result) : Type 0 where
  pub verdict : res.verdict ≡ ""
  pub rolled_back : res.rolled_back ≡ false
  pub observations : res.observations ≡ []

-- The run returned an error, before any status.
pub record Refused (p : Progress) : Type 0 where
  pub fault : (f : Fault) × (p.fault ≡ some f)
  pub blank : IsBlank p.result

-- The run returned no error: a program came out of the seal, and the result is what the statuses of
-- its execution make of a blank result.
pub record Executed (w : World) (opt : Options) (p : Progress) : Type 0 where
  pub fault : p.fault ≡ none
  pub priv : Bytes
  pub inputs : SealedInputs
  pub steps : List OpaqueStep
  pub unsealed : unseal w priv inputs ≡ some steps
  pub start : Result
  pub blank : IsBlank start
  pub result : p.result ≡ observe_all start (run_program w.deliver opt.dry_run steps)

abbrev pub Ends : World → Options → Progress → Type 0
Ends w opt p = Refused p ⊎ Executed w opt p

-- The fields that a run sets before the first status leave a result blank.
IsBlank-record :
    (res : Result) (run_id : String) (attestation_ok : Bool)
    → IsBlank res
    → IsBlank (record res { run_id = run_id; attestation_ok = attestation_ok })
IsBlank-record res run_id attestation_ok b = record {
  verdict = b.verdict;
  rolled_back = b.rolled_back;
  observations = b.observations;
}

stop-Ends :
    (w : World) (opt : Options) (res : Result) (f : Fault) (sent : List PlanRequest)
    → IsBlank res
    → Ends w opt (stop res f sent)
stop-Ends w opt res f sent b = inl (record {
  fault = (f, refl);
  blank = record {
    verdict = b.verdict;
    rolled_back = b.rolled_back;
    observations = b.observations;
  };
})

pub sealed_inputs_from-dry_run :
    (b : Base64) (pr : PlanResponse) (dry_run : Bool) (inputs : SealedInputs)
    → sealed_inputs_from b pr dry_run ≡ some inputs
    → inputs.dry_run ≡ dry_run
unfolding sealed_inputs_from
sealed_inputs_from-dry_run b pr dry_run inputs h = elim (Option-cases (to_sealed b pr.bundle)) [
  | inl e ↦ let h' = rw e at h in cc h'
  | inr (bundle, e) ↦ elim (Option-cases (creds_sealed b pr.creds)) [
    | inl f ↦ let h' = rw (e, f) at h in cc h'
    | inr (creds, f) ↦ elim (Option-cases (b.decode pr.expected_measurement)) [
      | inl g ↦ let h' = rw (e, f, g) at h in cc h'
      | inr (measurement, g) ↦
          let h' = rw (e, f, g) at h in
          ap (λ (i : SealedInputs). i.dry_run) (sym (some-injective _ inputs h'))
    ]
  ]
]

module _ (w : World) (opt : Options) where
  run_inputs-Ends :
      (res : Result) (sent : List PlanRequest) (priv : Bytes) (inputs : SealedInputs)
      → IsBlank res
      → inputs.dry_run ≡ opt.dry_run
      → Ends w opt (run_inputs w res sent priv inputs)
  unfolding run_inputs
  run_inputs-Ends res sent priv inputs b dry = elim (Option-cases (unseal w priv inputs)) [
    | inl e ↦ rw (e, run_inputs) (stop-Ends w opt res _ sent b)
    | inr (steps, e) ↦
        rw (e, run_inputs)
          (inr (record {
            fault = refl;
            priv = priv;
            inputs = inputs;
            steps = steps;
            unsealed = e;
            start = res;
            blank = b;
            result = rw dry;
          }))
  ]

  run_plan-Ends :
      (res : Result) (sent : List PlanRequest) (priv : Bytes) (pr : PlanResponse)
      → IsBlank res
      → Ends w opt (run_plan w opt res sent priv pr)
  unfolding run_plan
  run_plan-Ends res sent priv pr b =
      elim (Option-cases (sealed_inputs_from w.base64 pr opt.dry_run)) [
        | inl e ↦
            rw (e, run_plan)
              (stop-Ends w opt _ _ sent (IsBlank-record res pr.run_id res.attestation_ok b))
        | inr (inputs, e) ↦
            rw (e, run_plan)
              (run_inputs-Ends _ sent priv inputs
                (IsBlank-record res pr.run_id res.attestation_ok b)
                (sealed_inputs_from-dry_run w.base64 pr opt.dry_run inputs e))
      ]

  run_attested-Ends :
      (input : PlanInput) (key : EphemeralKey) (res : Result) (ev : Evidence)
      → IsBlank res
      → Ends w opt (run_attested w input opt key res ev)
  unfolding run_attested
  run_attested-Ends input key res ev b =
      let b' = IsBlank-record res res.run_id (not (has_none ev.measurement)) b in
      elim (Option-cases (w.backend (request_of w input opt key.pub_key ev))) [
        | inl e ↦ rw (e, run_attested) (stop-Ends w opt _ _ _ b')
        | inr (pr, e) ↦ rw (e, run_attested) (run_plan-Ends _ _ key.priv pr b')
      ]

  selected-IsBlank : (cape : Capability) → IsBlank (selected cape)
  selected-IsBlank cape = record { verdict = refl; rolled_back = refl; observations = refl }

  run_selected-Ends :
      (input : PlanInput) (key : EphemeralKey) (rt : Runtime) (cape : Capability)
      → Ends w opt (run_selected w input opt key rt cape)
  unfolding run_selected
  run_selected-Ends input key rt cape =
      elim (Option-cases (attest w.attestor (bind_public_key rt key.pub_key))) [
        | inl e ↦ rw (e, run_selected) (stop-Ends w opt _ _ _ (selected-IsBlank cape))
        | inr (ev, e) ↦
            rw (e, run_selected) (run_attested-Ends input key _ ev (selected-IsBlank cape))
      ]

  -- An error before there is a runtime.
  early-Ends : (f : Fault) → Ends w opt (record { result = no_result; fault = some f; sent = [] })
  early-Ends f = inl (record {
    fault = (f, refl);
    blank = record { verdict = refl; rolled_back = refl; observations = refl };
  })

  run_keyed-Ends : (input : PlanInput) (key : EphemeralKey) → Ends w opt (run_keyed w input opt key)
  unfolding run_keyed
  run_keyed-Ends input key =
      elim (Option-cases (select w.present opt.confidential_runtime opt.cc_backend)) [
        | inl e ↦ rw (e, run_keyed) (early-Ends _)
        | inr ((rt, cape), e) ↦ rw (e, run_keyed) (run_selected-Ends input key rt cape)
      ]

  pub run-Ends : (input : PlanInput) → Ends w opt (run w input opt).0
  unfolding run
  run-Ends input = elim (Option-cases (new_ephemeral_key w.crypto w.random_key)) [
    | inl e ↦ rw (e, run) (early-Ends _)
    | inr (key, e) ↦ rw (e, run) (run_keyed-Ends input key)
  ]

pub observe_all-observations :
    (res : Result) (sts : List Status)
    → (observe_all res sts).observations ≡ res.observations ++ sts
unfolding observe_all observe
observe_all-observations res [] = sym (append-nil res.observations)
observe_all-observations res (st ∷ sts) =
    observe_all-observations (observe res st) sts ∙ append_assoc res.observations (st ∷ []) sts
