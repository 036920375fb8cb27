-- ===== src/Scan.antt =====
-- pkg/iacsecscan/scanner.go: the security checks on Terraform resources. The children `Ports` and
-- `Storage` hold the checks by kind.
pub mod Types
pub mod Ports
pub mod Storage
pub mod Severity
mod Tests
use text.Mathlib.Text.{◌==◌ as str_eq}
use terraform_provider_pyxcl.Prelude.{Bool, true, not, List, [], ◌∷◌, ◌++◌, any}
use terraform_provider_pyxcl.GoLang.Float.{Float64}
use Types.{Resource, Finding, high}
use Ports.{check_open_ports}
use Storage.{check_public_storage, check_iam_wildcards, check_unencrypted_storage}

-- The checks on one resource, in the order of the loop's body.
unfoldable pub scan_resource : {F : Float64} → Resource F → List (Finding F)
scan_resource r =
    check_open_ports r
    ++ (check_public_storage r ++ (check_iam_wildcards r ++ check_unencrypted_storage r))

-- Scan
unfoldable pub scan : {F : Float64} → List (Resource F) → List (Finding F)
scan [] = []
scan (r ∷ rs) = scan_resource r ++ scan rs

-- ScanResult, without the time of the scan
pub record ScanResult (F : Float64) : Type 0 where
  pub findings : List (Finding F)
  pub ok : Bool

unfoldable pub is_high : {F : Float64} → Finding F → Bool
is_high f = str_eq f.severity high

-- ScanWithResult
unfoldable pub scan_with_result : {F : Float64} → List (Resource F) → ScanResult F
scan_with_result rs = record { findings = scan rs; ok = not (any is_high (scan rs)) }
