-- ===== src/Catalog/ObjectStorage/Tests.antt =====
-- A bucket, and an instance of the theorem on it. The hash is a constant.
use terraform_provider_pyxcl.Prelude.{◌≡◌, refl, true, false, none, some, [], ◌∷◌, ◌++◌}
use terraform_provider_pyxcl.Prelude.Int.{pos}
use terraform_provider_pyxcl.Prelude.Results.{ok, err}
use terraform_provider_pyxcl.GoLang.Map.{lookup_runes}
use terraform_provider_pyxcl.GoLang.Sort.{sort, insert, leb_runes}
use terraform_provider_pyxcl.GoLang.Text.{Runes, codes, to_lower, trim_space}
use terraform_provider_pyxcl.Catalog.Names.{normal, provider_to_csp, RegionRow, RegionCatalog}
use terraform_provider_pyxcl.Catalog.ObjectStorage.{
  LifecycleRule, ObjectStorageSpec, ObjectStoragePlan, kms_elsewhere, resolve_rules,
  resolve_lifecycle, resolve_sse, resolve_access_logs, validate_object_storage_spec,
  object_storage_plan, translate_object_storage,
}
use terraform_provider_pyxcl.Catalog.ObjectStorage.BucketName.{
  sanitise_from, trim_left_hyphen, trim_right_hyphen, trim_hyphens, sanitise_bucket_prefix,
  derive_bucket_name,
}
use terraform_provider_pyxcl.Catalog.ObjectStorage.Stored.{
  IsStored, translate_object_storage-IsStored,
}

abbrev sixteen : Runes
sixteen = codes "0123456789abcdef"

abbrev same_sum : Runes → Runes
same_sum s = sixteen ++ (sixteen ++ (sixteen ++ sixteen))

names_assets :
    derive_bucket_name same_sum (codes " App__Assets (EU)") (codes "aws") (codes "eu-west-1")
    ≡ codes "app-assets-eu-0123456789"
unfolding derive_bucket_name sanitise_bucket_prefix sanitise_from trim_hyphens trim_left_hyphen
    trim_right_hyphen to_lower
names_assets = refl

abbrev ireland : RegionRow
ireland = record {
  macro_region = codes "europe";
  country = codes "Ireland";
  region_name = codes "Dublin";
  csp_region = codes "eu-west-1";
  csp_region_description = [];
  csp = codes "aws";
}

abbrev one_region : RegionCatalog
one_region region provider = some ireland

abbrev expiring : Runes → LifecycleRule
expiring id = record {
  id = id;
  prefix = [];
  enabled = true;
  expire_days = pos 30;
  noncurrent_version_expire_days = pos 0;
  abort_incomplete_multipart_days = pos 0;
}

abbrev assets : ObjectStorageSpec
assets = record {
  name = codes "assets";
  region = codes "Dublin";
  provider = codes "AWS";
  versioning = true;
  is_public = false;
  force_destroy = none;
  lifecycle = expiring (codes "old") ∷ expiring (codes "logs") ∷ [];
  sse = some (record { algorithm = codes "aws:kms"; kms_key_id = codes "key" });
  bucket_policy = [];
  access_logs = none;
  website = some (record { index_document = []; error_document = [] });
}

abbrev assets_plan : ObjectStoragePlan
assets_plan =
    object_storage_plan same_sum assets ireland
      (expiring (codes "logs") ∷ expiring (codes "old") ∷ [])
      (some (record { algorithm = codes "aws:kms"; kms_key_id = codes "key" })) none

translates_assets : translate_object_storage same_sum one_region assets ≡ ok assets_plan
unfolding translate_object_storage validate_object_storage_spec normal provider_to_csp to_lower
    trim_space lookup_runes resolve_lifecycle resolve_rules sort insert leb_runes resolve_sse
    resolve_access_logs
translates_assets = refl

refuses_kms :
    translate_object_storage same_sum one_region (record assets { provider = codes "gcp" })
    ≡ err kms_elsewhere
unfolding translate_object_storage validate_object_storage_spec normal provider_to_csp to_lower
    trim_space lookup_runes resolve_lifecycle resolve_rules sort insert leb_runes resolve_sse
refuses_kms = refl

translate_object_storage-IsStored_example : IsStored one_region assets assets_plan
translate_object_storage-IsStored_example =
    translate_object_storage-IsStored same_sum one_region assets
      (record { digits = λ s. refl; letters = λ s. refl }) assets_plan translates_assets
