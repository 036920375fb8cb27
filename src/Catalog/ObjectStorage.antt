-- ===== src/Catalog/ObjectStorage.antt =====
-- internal/catalog/objectstorage.go: a bucket, its plan and the translation. The name of the bucket is
-- derived in `BucketName`; the hash is an argument.
pub mod BucketName
pub mod Lifecycle
pub mod Named
pub mod Stored
mod Tests
use terraform_provider_pyxcl.Prelude.{
  ℕ, Bool, true, false, not, ◌&&◌, ◌||◌, Option, none, some, List, [], ◌∷◌, any, if◌then◌else◌,
  is_some,
}
use terraform_provider_pyxcl.Prelude.Int.{ℤ, pos, ltb_ℤ, eq_ℤ}
use terraform_provider_pyxcl.Prelude.Results.{Result, ok, err, ◌>>=◌, ◌>>◌, guard}
use terraform_provider_pyxcl.GoLang.Sort.{sort, leb_runes}
use terraform_provider_pyxcl.GoLang.Text.{Runes, codes, text_eq, trim_space}
use terraform_provider_pyxcl.Catalog.Names.{
  aws, gcp, digitalocean, azure, linode, oracle, ibm, alibaba, ovh, stackit, normal,
  provider_to_csp, RegionRow, RegionCatalog, is_empty, or_default,
}
use terraform_provider_pyxcl.Catalog.ObjectStorage.BucketName.{derive_bucket_name}

abbrev pub aes256 : Runes
aes256 = codes "AES256"

abbrev pub kms : Runes
kms = codes "aws:kms"

-- WebsiteConfig
pub record WebsiteConfig : Type 0 where
  pub index_document : Runes
  pub error_document : Runes

-- LifecycleRule
pub record LifecycleRule : Type 0 where
  pub id : Runes
  pub prefix : Runes
  pub enabled : Bool
  pub expire_days : ℤ
  pub noncurrent_version_expire_days : ℤ
  pub abort_incomplete_multipart_days : ℤ

-- SSEConfig
pub record SseConfig : Type 0 where
  pub algorithm : Runes
  pub kms_key_id : Runes

-- AccessLogConfig
pub record AccessLogConfig : Type 0 where
  pub target_bucket : Runes
  pub target_prefix : Runes

-- ObjectStorageSpec; `none` is a nil pointer.
pub record ObjectStorageSpec : Type 0 where
  pub name : Runes
  pub region : Runes
  pub provider : Runes
  pub versioning : Bool
  pub is_public : Bool
  pub force_destroy : Option Bool
  pub lifecycle : List LifecycleRule
  pub sse : Option SseConfig
  pub bucket_policy : Runes
  pub access_logs : Option AccessLogConfig
  pub website : Option WebsiteConfig

-- ObjectStoragePlan
pub record ObjectStoragePlan : Type 0 where
  pub provider : Runes
  pub csp : Runes
  pub region_name : Runes
  pub csp_region : Runes
  pub bucket_name : Runes
  pub logical_name : Runes
  pub versioning : Bool
  pub is_public : Bool
  pub force_destroy : Bool
  pub lifecycle : List LifecycleRule
  pub sse : Option SseConfig
  pub bucket_policy : Runes
  pub access_logs : Option AccessLogConfig
  pub website : Option WebsiteConfig
  pub resource_type : Runes

-- What TranslateObjectStorage complains of.
pub data StorageFault : Type 0 where
  no_region : StorageFault
  no_provider : StorageFault
  unknown_provider : StorageFault
  region_not_found : StorageFault
  public_unsupported : StorageFault
  no_rule_id : StorageFault
  duplicate_rule : Runes → StorageFault
  negative_days : Runes → StorageFault
  no_action : Runes → StorageFault
  key_without_kms : StorageFault
  kms_elsewhere : StorageFault
  unknown_algorithm : StorageFault
  no_target_bucket : StorageFault

-- CanonicalObjectStorageType
unfoldable canonical_object_storage_type : Runes → Option Runes
canonical_object_storage_type t =
    if text_eq (normal t) (codes "object-storage") || text_eq (normal t) (codes "blob-storage")
    then some (codes "object-storage")
    else none

-- validateObjectStorageSpec
unfoldable pub validate_object_storage_spec : ObjectStorageSpec → Result StorageFault (Unit {0})
validate_object_storage_spec spec = do
  guard (not (is_empty (trim_space spec.region))) no_region
  guard (not (is_empty (trim_space spec.provider))) no_provider
  guard (is_some (provider_to_csp spec.provider)) unknown_provider

abbrev pub has_negative : LifecycleRule → Bool
has_negative r =
    ltb_ℤ r.expire_days (pos 0)
    || ltb_ℤ r.noncurrent_version_expire_days (pos 0)
    || ltb_ℤ r.abort_incomplete_multipart_days (pos 0)

abbrev pub is_idle : LifecycleRule → Bool
is_idle r =
    eq_ℤ r.expire_days (pos 0)
    && eq_ℤ r.noncurrent_version_expire_days (pos 0)
    && eq_ℤ r.abort_incomplete_multipart_days (pos 0)

-- The loop of resolveLifecycle, with the ids seen so far.
unfoldable pub resolve_rules :
    List Runes → List LifecycleRule → Result StorageFault (List LifecycleRule)
resolve_rules seen [] = ok []
resolve_rules seen (r ∷ rs) =
    let id = trim_space r.id in
    let rest = resolve_rules (id ∷ seen) rs in
    do
      guard (not (is_empty id)) no_rule_id
      guard (not (any (text_eq id) seen)) (duplicate_rule id)
      guard (not (has_negative r)) (negative_days id)
      guard (not (is_idle r)) (no_action id)
      out ← rest
      ok (record r { id = id; prefix = trim_space r.prefix } ∷ out)

abbrev pub by_id : LifecycleRule → LifecycleRule → Bool
by_id a b = leb_runes a.id b.id

-- resolveLifecycle; the ids are different, so every sort gives the same order.
unfoldable pub resolve_lifecycle : List LifecycleRule → Result StorageFault (List LifecycleRule)
resolve_lifecycle rules = do out ← resolve_rules [] rules; ok (sort by_id out)

-- resolveSSE
unfoldable pub resolve_sse : Runes → Option SseConfig → Result StorageFault (Option SseConfig)
resolve_sse provider none = ok none
resolve_sse provider (some sse) =
    let algorithm = or_default aes256 (trim_space sse.algorithm) in
    if text_eq algorithm aes256
    then guard (is_empty (trim_space sse.kms_key_id)) key_without_kms
      >> ok (some (record { algorithm = aes256; kms_key_id = [] }))
    else if text_eq algorithm kms
    then guard (text_eq provider aws) kms_elsewhere
      >> ok (some (record { algorithm = kms; kms_key_id = trim_space sse.kms_key_id }))
    else err unknown_algorithm

-- resolveWebsite
unfoldable pub resolve_website : Option WebsiteConfig → Option WebsiteConfig
resolve_website none = none
resolve_website (some w) =
    let index = or_default (codes "index.html") (trim_space w.index_document) in
    some (record {
      index_document = index;
      error_document = or_default index (trim_space w.error_document);
    })

-- resolveAccessLogs
unfoldable pub resolve_access_logs :
    Option AccessLogConfig → Result StorageFault (Option AccessLogConfig)
resolve_access_logs none = ok none
resolve_access_logs (some al) =
    let target = trim_space al.target_bucket in
    guard (not (is_empty target)) no_target_bucket
    >> ok (some (record { target_bucket = target; target_prefix = trim_space al.target_prefix }))

-- The switch over the provider; others have no resource type.
unfoldable pub storage_resource_type : Runes → Runes
storage_resource_type p =
    if text_eq p aws
    then codes "aws_s3_bucket"
    else if text_eq p gcp
    then codes "google_storage_bucket"
    else if text_eq p digitalocean
    then codes "digitalocean_spaces_bucket"
    else if text_eq p azure
    then codes "azurerm_storage_account"
    else if text_eq p linode
    then codes "linode_object_storage_bucket"
    else if text_eq p oracle
    then codes "oci_objectstorage_bucket"
    else if text_eq p ibm
    then codes "ibm_cos_bucket"
    else if text_eq p alibaba
    then codes "alicloud_oss_bucket"
    else if text_eq p ovh
    then codes "ovh_cloud_project_storage"
    else if text_eq p stackit
    then codes "stackit_objectstorage_bucket"
    else []

abbrev pub storage_name : ObjectStorageSpec → Runes
storage_name spec = or_default (codes "pyxcloud-storage") (trim_space spec.name)

abbrev pub forced : Option Bool → Bool
forced none = false
forced (some b) = b

abbrev pub storage_region : Option RegionRow → Result StorageFault RegionRow
storage_region none = err region_not_found
storage_region (some row) = ok row

-- StackIt has no public buckets.
abbrev pub can_be_public : ObjectStorageSpec → Bool
can_be_public spec = not (text_eq (normal spec.provider) stackit && spec.is_public)

-- `hex_sum` is the SHA-256 of a text in hexadecimal digits.
module _ (hex_sum : Runes → Runes) where
  unfoldable pub object_storage_plan :
      ObjectStorageSpec
      → RegionRow
      → List LifecycleRule
      → Option SseConfig
      → Option AccessLogConfig
      → ObjectStoragePlan
  object_storage_plan spec row lifecycle sse access_logs = record {
    provider = normal spec.provider;
    csp = row.csp;
    region_name = row.region_name;
    csp_region = row.csp_region;
    bucket_name = derive_bucket_name hex_sum (storage_name spec) row.csp row.csp_region;
    logical_name = storage_name spec;
    versioning = spec.versioning;
    is_public = spec.is_public;
    force_destroy = forced spec.force_destroy;
    lifecycle = lifecycle;
    sse = sse;
    bucket_policy = trim_space spec.bucket_policy;
    access_logs = access_logs;
    website = resolve_website spec.website;
    resource_type = storage_resource_type (normal spec.provider);
  }

  -- TranslateObjectStorage
  unfoldable pub translate_object_storage :
      RegionCatalog → ObjectStorageSpec → Result StorageFault ObjectStoragePlan
  translate_object_storage resolve spec = do
    validate_object_storage_spec spec
    row ← storage_region (resolve spec.region spec.provider)
    guard (can_be_public spec) public_unsupported
    lifecycle ← resolve_lifecycle spec.lifecycle
    sse ← resolve_sse (normal spec.provider) spec.sse
    access_logs ← resolve_access_logs spec.access_logs
    ok (object_storage_plan spec row lifecycle sse access_logs)
