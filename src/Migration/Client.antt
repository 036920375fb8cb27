-- ===== src/Migration/Client.antt =====
-- internal/migration/client.go: the plan request and what its answer hands to the runtime.
use text.Mathlib.Text.{◌==◌ as str_eq}
use terraform_provider_pyxcl.Prelude.{
  String, Bool, Option, none, some, [], ◌==◌, length, if◌then◌else◌,
}
use terraform_provider_pyxcl.Migration.Seal.{Bytes, Sealed, zeros, ◌>>=◌}
use terraform_provider_pyxcl.Migration.Runtime.Attest.{Evidence}

-- PlanInput; the source topology is text that is passed through.
pub record PlanInput : Type 0 where
  pub place : String
  pub source_provider : String
  pub target_provider : String
  pub source_topology : String
  pub dry_run : Bool

-- AttestationWire
pub record AttestationWire : Type 0 where
  pub substrate : String
  pub format : String
  pub measurement : String
  pub nonce : String
  pub document : String

-- PlanRequest
pub record PlanRequest : Type 0 where
  pub place : String
  pub source_provider : String
  pub target_provider : String
  pub source_topology : String
  pub ephemeral_pub_key : String
  pub attestation : AttestationWire
  pub dry_run : Bool

-- SealedWire
pub record SealedWire : Type 0 where
  pub kem_pub : String
  pub ciphertext : String

-- PlanResponse
pub record PlanResponse : Type 0 where
  pub run_id : String
  pub bundle : SealedWire
  pub creds : SealedWire
  pub expected_measurement : String

-- runtime.SealedInputs
pub record SealedInputs : Type 0 where
  pub bundle : Sealed
  pub creds : Sealed
  pub expected_measurement : Bytes
  pub dry_run : Bool

-- base64.StdEncoding
pub record Base64 : Type 0 where
  pub encode : Bytes → String
  pub decode : String → Option Bytes

-- var creds Sealed
abbrev pub no_seal : Sealed
no_seal = record { kem_pub = zeros 32; ciphertext = [] }

module _ (b : Base64) where
  -- The body that RequestPlan sends.
  unfoldable pub plan_request : PlanInput → Bytes → Evidence → PlanRequest
  plan_request input eph_pub ev = record {
    place = input.place;
    source_provider = input.source_provider;
    target_provider = input.target_provider;
    source_topology = input.source_topology;
    ephemeral_pub_key = b.encode eph_pub;
    attestation = record {
      substrate = ev.substrate;
      format = ev.format;
      measurement = b.encode ev.measurement;
      nonce = b.encode ev.nonce;
      document = b.encode ev.document;
    };
    dry_run = input.dry_run;
  }

  -- toSealed; `none` is an error.
  unfoldable pub to_sealed : SealedWire → Option Sealed
  to_sealed w = do
    kem_pub ← b.decode w.kem_pub
    checked ← (if length kem_pub == 32 then some kem_pub else none)
    ciphertext ← b.decode w.ciphertext
    some (record { kem_pub = checked; ciphertext = ciphertext })

  -- Credentials without a ciphertext stay empty.
  unfoldable pub creds_sealed : SealedWire → Option Sealed
  creds_sealed w = if str_eq w.ciphertext "" then some no_seal else to_sealed w

  -- SealedInputsFrom
  unfoldable pub sealed_inputs_from : PlanResponse → Bool → Option SealedInputs
  sealed_inputs_from pr dry_run = do
    bundle ← to_sealed pr.bundle
    creds ← creds_sealed pr.creds
    measurement ← b.decode pr.expected_measurement
    some (record {
      bundle = bundle;
      creds = creds;
      expected_measurement = measurement;
      dry_run = dry_run;
    })
