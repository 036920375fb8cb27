-- ===== src/Migration/Runtime.antt =====
-- internal/migration/runtime (runtime.go, detect.go, hwtee.go, cc.go, sealedwasm.go): the substrates,
-- what each can do on a host, and how one is chosen.
pub mod Attest
pub mod Strongest
pub mod Nitro
use text.Mathlib.Text.{◌==◌ as str_eq}
use terraform_provider_pyxcl.Prelude.{
  ℕ, String, Bool, true, false, ◌||◌, Option, none, some, List, [], ◌∷◌, if◌then◌else◌,
}
use terraform_provider_pyxcl.Migration.Seal.{Bytes}

-- A substrate is a string, as the schema gives it.
abbrev pub Substrate : Type 0
Substrate = String

abbrev pub auto : Substrate
auto = "auto"

abbrev pub local_tee : Substrate
local_tee = "local-tee"

abbrev pub cc_substrate : Substrate
cc_substrate = "confidential-container"

abbrev pub wasm_substrate : Substrate
wasm_substrate = "sealed-wasm"

abbrev pub tee_substrate : Substrate
tee_substrate = "hardware-tee"

abbrev pub nitro : String
nitro = "aws-nitro"

-- The `Detail` of a capability, as the data that it prints.
pub data Detail : Type 0 where
  note : String → Detail
  device_present : String → Detail
  of_backend : Detail → String → Detail

-- Capability
pub record Capability : Type 0 where
  pub substrate : Substrate
  pub strength : ℕ
  pub available : Bool
  pub hardware_backed : Bool
  pub detail : Detail

-- The three implementations of ConfidentialRuntime; a confidential container has its backend and the
-- public key that BindPublicKey leaves in it.
pub data Runtime : Type 0 where
  sealed_wasm : Runtime
  hardware_tee : Runtime
  confidential_container : String → Bytes → Runtime

-- NewConfidentialContainer
unfoldable pub new_confidential_container : String → Runtime
new_confidential_container backend =
    confidential_container (if str_eq backend "" then nitro else backend) []

-- BindPublicKey, which only confidential containers have
unfoldable pub bind_public_key : Runtime → Bytes → Runtime
bind_public_key (confidential_container backend _) pub_key = confidential_container backend pub_key
bind_public_key rt pub_key = rt

-- `present path` says whether os.Stat finds the path.
module _ (present : String → Bool) where
  unfoldable pub first_marker : List (String × String) → Bool × Detail
  first_marker [] = (false, note "no SEV-SNP/TDX/SGX device found")
  first_marker (m ∷ ms) =
      let rest = first_marker ms in if present m.0 then (true, device_present m.1) else rest

  -- detectHostTEE
  unfoldable pub detect_host_tee : Bool × Detail
  detect_host_tee = first_marker (
      ("/dev/sev-guest", "AMD SEV-SNP")
      ∷ ("/dev/tdx_guest", "Intel TDX")
      ∷ ("/dev/sgx_enclave", "Intel SGX")
      ∷ [])

  -- detectCCLaunchable
  unfoldable pub detect_cc_launchable : Bool × Detail
  detect_cc_launchable =
      if present "/dev/nitro_enclaves"
      then (true, note "AWS Nitro Enclaves allocator present")
      else (
        false,
        note
            "no confidential-container backend launchable (Nitro allocator absent; GCP/Azure detection TODO)",
      )

  -- The three Detect methods.
  unfoldable pub detect : Runtime → Capability
  detect sealed_wasm = record {
    substrate = wasm_substrate;
    strength = 1;
    available = true;
    hardware_backed = false;
    detail = note "software memory-sealed WASM sandbox (portable fallback)";
  }
  detect hardware_tee = record {
    substrate = tee_substrate;
    strength = 2;
    available = detect_host_tee.0;
    hardware_backed = true;
    detail = detect_host_tee.1;
  }
  detect (confidential_container backend _) = record {
    substrate = cc_substrate;
    strength = 3;
    available = detect_cc_launchable.0;
    hardware_backed = true;
    detail = of_backend detect_cc_launchable.1 backend;
  }

  abbrev pub with_capability : Runtime → Runtime × Capability
  with_capability rt = (rt, detect rt)

  -- A hardware TEE if there is one, else the sandbox.
  unfoldable pub tee_or_wasm : Runtime × Capability
  tee_or_wasm =
      if (detect hardware_tee).available
      then with_capability hardware_tee
      else with_capability sealed_wasm

  -- autoDetect
  unfoldable pub auto_detect : String → Runtime × Capability
  auto_detect backend =
      if (detect (new_confidential_container backend)).available
      then with_capability (new_confidential_container backend)
      else tee_or_wasm

  -- Select; `none` is the error on an unknown substrate.
  unfoldable pub select : Substrate → String → Option (Runtime × Capability)
  select substrate backend =
      if str_eq substrate auto || str_eq substrate ""
      then some (auto_detect backend)
      else if str_eq substrate cc_substrate
      then some (with_capability (new_confidential_container backend))
      else if str_eq substrate local_tee
      then some tee_or_wasm
      else if str_eq substrate wasm_substrate
      then some (with_capability sealed_wasm)
      else if str_eq substrate tee_substrate
      then some (with_capability hardware_tee)
      else none

  -- DetectAll
  unfoldable pub detect_all : String → List Capability
  detect_all backend =
      detect (new_confidential_container backend) ∷ detect hardware_tee ∷ detect sealed_wasm ∷ []
