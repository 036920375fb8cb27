-- ===== src/Migration/Status.antt =====
-- Phase, Status and opaqueStep (internal/migration/runtime/runtime.go and interpreter.go).
use text.Mathlib.Text.{◌==◌ as str_eq}
use terraform_provider_pyxcl.Prelude.{String, Bool, ◌||◌, Option}
use terraform_provider_pyxcl.Prelude.Int.{ℤ}

-- A phase is a string, and a bundle may label its steps with any.
abbrev pub Phase : Type 0
Phase = String

abbrev pub pending : Phase
pending = "pending"

abbrev pub verifying : Phase
verifying = "verifying"

abbrev pub cutover_phase : Phase
cutover_phase = "cutover"

abbrev pub succeeded : Phase
succeeded = "succeeded"

abbrev pub rolled_back_phase : Phase
rolled_back_phase = "rolled-back"

abbrev pub failed : Phase
failed = "failed"

pub record Status : Type 0 where
  pub phase : Phase
  pub percent : ℤ
  pub verdict : String
  pub detail : String
  pub rolled_back : Bool

-- Terminal
unfoldable pub terminal : Status → Bool
terminal s = str_eq s.phase succeeded || str_eq s.phase rolled_back_phase || str_eq s.phase failed

-- What json.Unmarshal makes of a step's payload for convergeFailed: no bytes, no JSON of that shape,
-- or the value of `__converge__`, if it has one.
pub data Payload : Type 0 where
  no_payload : Payload
  undecodable : Payload
  control : Option Bool → Payload

pub record OpaqueStep : Type 0 where
  pub phase : Phase
  pub weight : ℤ
  pub cutover : Bool
  pub payload : Payload
