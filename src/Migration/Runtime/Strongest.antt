-- ===== src/Migration/Runtime/Strongest.antt =====
-- What the automatic choice of a runtime gives (internal/migration/runtime/detect.go).
use terraform_provider_pyxcl.Prelude.{
  String, ◌≡◌, refl, Bool, true, not, ◌||◌, List, all, leb, arith, Bool-cases, inl, inr,
}
use terraform_provider_pyxcl.Migration.Runtime.{
  Capability, new_confidential_container, hardware_tee, detect, tee_or_wasm, auto_detect,
  detect_all,
}

-- No substrate that the host offers is stronger.
abbrev pub is_strongest : Capability → List Capability → Bool
is_strongest chosen cs = all (λ c. not c.available || leb c.strength chosen.strength) cs

-- On every host and for every backend, the runtime that `auto` chooses can run there and no runtime
-- that can run there is stronger; the capability reported with it is the runtime's own. So there is a
-- runtime on every host.
pub auto_detect-is_strongest :
    (present : String → Bool) (backend : String)
    → let (rt, capability) = auto_detect present backend in
      (capability.available ≡ true)
      × (is_strongest capability (detect_all present backend) ≡ true)
      × (capability ≡ detect present rt)
unfolding auto_detect detect_all tee_or_wasm detect new_confidential_container
auto_detect-is_strongest present backend =
    elim (Bool-cases (detect present (new_confidential_container backend)).available) [
      | inl cc_runs ↦ rw cc_runs (refl, ground arith, rw cc_runs)
      | inr no_cc ↦ elim (Bool-cases (detect present hardware_tee).available) [
        | inl tee_runs ↦ rw (no_cc, tee_runs) (refl, refl, rw tee_runs)
        | inr no_tee ↦ rw (no_cc, no_tee) (refl, refl, refl)
      ]
    ]
