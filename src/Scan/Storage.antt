-- ===== src/Scan/Storage.antt =====
-- checkPublicStorage, checkIAMWildcards and checkUnencryptedStorage of pkg/iacsecscan/scanner.go.
use text.Mathlib.Text.{◌==◌ as str_eq}
use terraform_provider_pyxcl.Prelude.{
  String, Bool, true, false, ◌&&◌, ◌||◌, Option, none, some, List, [], ◌∷◌, ◌++◌, if◌then◌else◌,
}
use terraform_provider_pyxcl.GoLang.Float.{Float64}
use terraform_provider_pyxcl.GoLang.Text.{codes, contains}
use terraform_provider_pyxcl.GoLang.Value.{Value, bool, str, lookup, get}
use terraform_provider_pyxcl.Scan.Types.{Resource, Finding, make_finding}
use terraform_provider_pyxcl.Scan.Ports.{is_string}

-- Both texts occur in the policy, if it is a string.
unfoldable pub policy_has : {F : Float64} → String → String → Option (Value F) → Bool
unfolding contains
policy_has s t (some (str policy)) =
    contains (codes policy) (codes s) && contains (codes policy) (codes t)
policy_has s t _ = false

-- ok && v == false
unfoldable pub is_false : {F : Float64} → Option (Value F) → Bool
is_false (some (bool false)) = true
is_false _ = false

-- !ok || v == false
unfoldable pub is_missing_or_false : {F : Float64} → Option (Value F) → Bool
unfolding is_false
is_missing_or_false none = true
is_missing_or_false (some v) = is_false (some v)

abbrev pub only_if {ℓ} : {A : Type ℓ} → Bool → A → List A
only_if b x = if b then x ∷ [] else []

-- checkPublicStorage
unfoldable pub check_public_storage : {F : Float64} → Resource F → List (Finding F)
check_public_storage r =
    if str_eq r.resource_type "aws_s3_bucket"
    then only_if
        (is_string "public-read" (get "acl" r.attributes)
          || is_string "public-read-write" (get "acl" r.attributes))
        (make_finding r "PUBLIC-STORAGE-ACL" "S3 bucket has a public ACL"
          "Remove the public ACL and use bucket policies or IAM for access control.")
      ++ (only_if (is_false (lookup "block_public_acls" r.attributes)) (
            make_finding r "PUBLIC-STORAGE-BLOCK" "S3 bucket does not block public ACLs"
              "Set block_public_acls = true in the aws_s3_bucket_public_access_block resource.")
          ++ only_if
              (policy_has "\"Effect\":\"Allow\"" "\"Principal\":\"*\""
                (lookup "policy" r.attributes))
              (make_finding r "PUBLIC-STORAGE-POLICY" "S3 bucket policy allows public access"
                "Review the bucket policy and restrict the Principal to specific AWS accounts or roles."))
    else []

abbrev pub is_iam_type : String → Bool
is_iam_type t =
    str_eq t "aws_iam_policy"
    || str_eq t "aws_iam_role_policy"
    || str_eq t "aws_iam_group_policy"
    || str_eq t "aws_iam_user_policy"

abbrev least_privilege : String
least_privilege =
    "Replace the wildcard Action and Resource with specific permissions following least privilege."

-- checkIAMWildcards
unfoldable pub check_iam_wildcards : {F : Float64} → Resource F → List (Finding F)
check_iam_wildcards r =
    if is_iam_type r.resource_type
    then only_if (policy_has "\"Action\":\"*\"" "\"Resource\":\"*\"" (lookup "policy" r.attributes))
        (make_finding r "IAM-WILDCARD" "IAM policy allows all actions on all resources"
          least_privilege)
      ++ only_if
          (policy_has "\"Action\":[\"*\"]" "\"Resource\":\"*\"" (lookup "policy" r.attributes))
          (make_finding r "IAM-WILDCARD-ARRAY"
            "IAM policy allows all actions on all resources (array form)" least_privilege)
    else []

-- checkUnencryptedStorage
unfoldable pub check_unencrypted_storage : {F : Float64} → Resource F → List (Finding F)
check_unencrypted_storage r =
    if str_eq r.resource_type "aws_ebs_volume"
    then only_if (is_missing_or_false (lookup "encrypted" r.attributes)) (
        make_finding r "UNENCRYPTED-EBS" "EBS volume does not have encryption at rest enabled"
          "Set encrypted = true on the aws_ebs_volume resource.")
    else if str_eq r.resource_type "aws_db_instance"
    then only_if (is_missing_or_false (lookup "storage_encrypted" r.attributes)) (
        make_finding r "UNENCRYPTED-RDS" "RDS instance does not have storage encryption enabled"
          "Set storage_encrypted = true on the aws_db_instance resource.")
    else if str_eq r.resource_type "aws_rds_cluster"
    then only_if (is_missing_or_false (lookup "storage_encrypted" r.attributes)) (
        make_finding r "UNENCRYPTED-RDS-CLUSTER"
          "RDS cluster does not have storage encryption enabled"
          "Set storage_encrypted = true on the aws_rds_cluster resource.")
    else []
