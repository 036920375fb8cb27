-- ===== src/Scan/Severity.antt =====
-- Which resources make the security gate fail (pkg/iacsecscan/scanner.go, ScanWithResult).
use text.Mathlib.Text.{◌==◌ as str_eq}
use terraform_provider_pyxcl.Prelude.{
  String, ◌≡◌, refl, Bool, true, false, not, ◌&&◌, ◌||◌, List, [], ◌∷◌, any, All, any-append, arith,
  Bool-cases, inl, inr,
}
use mathlib.Core.Bool.{and-true, and-false, or-false}
use terraform_provider_pyxcl.GoLang.Float.{Float64}
use terraform_provider_pyxcl.GoLang.Text.{codes, has_prefix, str_eq_ne}
use terraform_provider_pyxcl.GoLang.Value.{Value, list, object, Items, nil, cons, lookup, get}
use terraform_provider_pyxcl.Scan.{scan_resource, scan, scan_with_result, is_high}
use terraform_provider_pyxcl.Scan.Types.{Resource, Finding, make_finding, severity_of}
use terraform_provider_pyxcl.Scan.Ports.{
  is_open_ingress, ingress_attrs, check_ingress, check_ingress_list, check_open_ports,
}
use terraform_provider_pyxcl.Scan.Storage.{
  only_if, policy_has, is_missing_or_false, is_iam_type, check_public_storage, check_iam_wildcards,
  check_unencrypted_storage,
}

-- Some block of the list is open to the world on a sensitive port.
unfoldable pub any_open_block : {F : Float64} → Items F → Bool
any_open_block nil = false
any_open_block (cons (object ing) xs) = is_open_ingress (ingress_attrs ing) || any_open_block xs
any_open_block (cons _ xs) = any_open_block xs

unfoldable pub has_open_block : {F : Float64} → Value F → Bool
unfolding any_open_block
has_open_block (list xs) = any_open_block xs
has_open_block _ = false

-- The causes of a failing gate, by the resource's type.
unfoldable pub blocks : {F : Float64} → Resource F → Bool
blocks r =
    str_eq r.resource_type "aws_security_group_rule" && is_open_ingress r.attributes
    || str_eq r.resource_type "aws_security_group" && has_open_block (get "ingress" r.attributes)
    || is_iam_type r.resource_type
      && (policy_has "\"Action\":\"*\"" "\"Resource\":\"*\"" (lookup "policy" r.attributes)
          || policy_has "\"Action\":[\"*\"]" "\"Resource\":\"*\"" (lookup "policy" r.attributes))
    || str_eq r.resource_type "aws_ebs_volume"
      && is_missing_or_false (lookup "encrypted" r.attributes)
    || (str_eq r.resource_type "aws_db_instance" || str_eq r.resource_type "aws_rds_cluster")
      && is_missing_or_false (lookup "storage_encrypted" r.attributes)

module _ {F : Float64} (r : Resource F) (rule description remediation : String) where
  -- A finding is HIGH unless its rule is one of public storage.
  high-make_finding :
      is_high (make_finding r rule description remediation)
      ≡ not (has_prefix (codes rule) (codes "PUBLIC-STORAGE"))
  unfolding is_high make_finding severity_of
  high-make_finding = elim (Bool-cases (has_prefix (codes rule) (codes "PUBLIC-STORAGE"))) [
    | inl storage ↦ rw storage
    | inr other ↦ rw other
  ]

module _ {F : Float64} (r : Resource F) where
  check_ingress-high : (xs : Items F) → any is_high (check_ingress r xs) ≡ any_open_block xs
  unfolding check_ingress any_open_block has_prefix
  check_ingress-high nil = refl
  check_ingress-high (cons (object ing) xs) =
      elim (Bool-cases (is_open_ingress (ingress_attrs ing))) [
        | inl wide ↦ rw (wide, high-make_finding)
        | inr shut ↦ rw shut (check_ingress-high xs)
      ]
  check_ingress-high (cons _ xs) = check_ingress-high xs

  check_ingress_list-high : (v : Value F) → any is_high (check_ingress_list r v) ≡ has_open_block v
  unfolding check_ingress_list has_open_block
  check_ingress_list-high (list xs) = check_ingress-high xs
  check_ingress_list-high _ = refl

  only_if-high : (b : Bool) (f : Finding F) → any is_high (only_if b f) ≡ (b && is_high f)
  only_if-high true f = or-false _
  only_if-high false f = refl

  check_public_storage-high : any is_high (check_public_storage r) ≡ false
  unfolding check_public_storage has_prefix
  check_public_storage-high = elim (Bool-cases (str_eq r.resource_type "aws_s3_bucket")) [
    | inl bucket ↦ rw bucket (simp (any-append, only_if-high, high-make_finding, and-false))
    | inr other ↦ rw other
  ]

  check_open_ports-high : any is_high (check_open_ports r) ≡ (
      str_eq r.resource_type "aws_security_group_rule" && is_open_ingress r.attributes
      || str_eq r.resource_type "aws_security_group" && has_open_block (get "ingress" r.attributes))
  unfolding check_open_ports has_prefix
  check_open_ports-high = elim (Bool-cases (str_eq r.resource_type "aws_security_group_rule")) [
    | inl rule ↦
        rw (rule, str_eq_ne _ _ "aws_security_group" rule refl)
          (elim (Bool-cases (is_open_ingress r.attributes)) [
            | inl wide ↦ rw (wide, high-make_finding)
            | inr shut ↦ rw shut
          ])
    | inr other ↦ rw other (elim (Bool-cases (str_eq r.resource_type "aws_security_group")) [
      | inl group ↦ rw group (check_ingress_list-high _)
      | inr neither ↦ rw neither
    ])
  ]

  check_iam_wildcards-high : any is_high (check_iam_wildcards r) ≡ (
      is_iam_type r.resource_type
      && (policy_has "\"Action\":\"*\"" "\"Resource\":\"*\"" (lookup "policy" r.attributes)
          || policy_has "\"Action\":[\"*\"]" "\"Resource\":\"*\"" (lookup "policy" r.attributes)))
  unfolding check_iam_wildcards has_prefix
  check_iam_wildcards-high = elim (Bool-cases (is_iam_type r.resource_type)) [
    | inl policy ↦ rw policy (simp (any-append, only_if-high, high-make_finding, and-true))
    | inr other ↦ rw other
  ]

  check_unencrypted_storage-high : any is_high (check_unencrypted_storage r) ≡ (
      str_eq r.resource_type "aws_ebs_volume"
        && is_missing_or_false (lookup "encrypted" r.attributes)
      || (str_eq r.resource_type "aws_db_instance" || str_eq r.resource_type "aws_rds_cluster")
        && is_missing_or_false (lookup "storage_encrypted" r.attributes))
  unfolding check_unencrypted_storage has_prefix
  check_unencrypted_storage-high = elim (Bool-cases (str_eq r.resource_type "aws_ebs_volume")) [
    | inl volume ↦
        rw
          (
            volume,
            str_eq_ne _ _ "aws_db_instance" volume refl,
            str_eq_ne _ _ "aws_rds_cluster" volume refl,
          )
          (simp (only_if-high, high-make_finding, and-true, or-false))
    | inr other ↦ rw other (elim (Bool-cases (str_eq r.resource_type "aws_db_instance")) [
      | inl database ↦ rw database (simp (only_if-high, high-make_finding, and-true))
      | inr third ↦ rw third (elim (Bool-cases (str_eq r.resource_type "aws_rds_cluster")) [
        | inl cluster ↦ rw cluster (simp (only_if-high, high-make_finding, and-true))
        | inr none_of ↦ rw none_of
      ])
    ])
  ]

  scan_resource-high : any is_high (scan_resource r) ≡ blocks r
  unfolding scan_resource blocks
  scan_resource-high =
      simp
        (
          any-append, check_open_ports-high, check_public_storage-high, check_iam_wildcards-high,
          check_unencrypted_storage-high,
        )
        (ground arith)

scan-high : {F : Float64} (rs : List (Resource F)) → any is_high (scan rs) ≡ any blocks rs
unfolding scan
scan-high [] = refl
scan-high (r ∷ rs) = simp (any-append, scan_resource-high, scan-high rs)

-- The scan of a list of resources is OK exactly when no resource has a blocking cause: an open
-- security-group rule or group, a wildcard IAM policy, or a volume, instance or cluster whose
-- encryption flag is missing or false. Findings of public storage never decide it.
pub scan_with_result-blocks :
    {F : Float64} (rs : List (Resource F)) → (scan_with_result rs).ok ≡ not (any blocks rs)
unfolding scan_with_result
scan_with_result-blocks rs = rw (scan-high rs)

bucket_never_blocks :
    {F : Float64} (r : Resource F)
    → str_eq r.resource_type "aws_s3_bucket" ≡ true
    → blocks r ≡ false
unfolding blocks
bucket_never_blocks r h = rw (
  str_eq_ne _ _ "aws_security_group_rule" h refl,
  str_eq_ne _ _ "aws_security_group" h refl,
  str_eq_ne _ _ "aws_iam_policy" h refl,
  str_eq_ne _ _ "aws_iam_role_policy" h refl,
  str_eq_ne _ _ "aws_iam_group_policy" h refl,
  str_eq_ne _ _ "aws_iam_user_policy" h refl,
  str_eq_ne _ _ "aws_ebs_volume" h refl,
  str_eq_ne _ _ "aws_db_instance" h refl,
  str_eq_ne _ _ "aws_rds_cluster" h refl,
)

no_bucket_blocks :
    {F : Float64} (rs : List (Resource F))
    → All (λ r. str_eq r.resource_type "aws_s3_bucket" ≡ true) rs
    → any blocks rs ≡ false
no_bucket_blocks [] h = refl
no_bucket_blocks (r ∷ rs) (p, h) = rw (bucket_never_blocks r p) (no_bucket_blocks rs h)

-- The scan of a list of buckets (aws_s3_bucket) is OK, whatever their ACL, their public access block
-- and their policy.
pub scan_buckets_ok :
    {F : Float64} (rs : List (Resource F))
    → All (λ r. str_eq r.resource_type "aws_s3_bucket" ≡ true) rs
    → (scan_with_result rs).ok ≡ true
scan_buckets_ok rs h = rw (scan_with_result-blocks rs, no_bucket_blocks rs h)
