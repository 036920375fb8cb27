-- ===== src/Catalog/ObjectStorage/Stored.antt =====
-- The plan of a bucket (internal/catalog/objectstorage.go).
use terraform_provider_pyxcl.Prelude.{
  ◌≡◌, refl, sym, true, false, Bool, not, ◌⊎◌, inl, inr, Option, none, some, [], ◌∷◌, Bool-cases,
  arith,
}
use terraform_provider_pyxcl.Prelude.Results.{
  ok, OnOk, OnOk-bind, OnOk-bind_eq, OnOk-guard, OnOk_apply,
}
use terraform_provider_pyxcl.GoLang.Text.{Runes, codes, text_eq, text_eq_iff, trim_space}
use terraform_provider_pyxcl.Catalog.Names.{
  aws, stackit, normal, RegionRow, RegionCatalog, is_empty, or_default,
}
use terraform_provider_pyxcl.Catalog.ObjectStorage.{
  aes256, kms, WebsiteConfig, AccessLogConfig, no_target_bucket, SseConfig, ObjectStorageSpec,
  ObjectStoragePlan, key_without_kms, kms_elsewhere, public_unsupported,
  validate_object_storage_spec, resolve_lifecycle, resolve_sse, resolve_website,
  resolve_access_logs, storage_region, can_be_public, storage_name, forced, object_storage_plan,
  translate_object_storage,
}
use terraform_provider_pyxcl.Catalog.ObjectStorage.Lifecycle.{
  AreOrdered, resolve_lifecycle-AreOrdered,
}
use terraform_provider_pyxcl.Catalog.ObjectStorage.Named.{
  IsBucketName, IsHexSum, derive_bucket_name-IsBucketName,
}

-- The algorithm of the spec with the keys of the provider, or on AWS a key of KMS.
abbrev pub IsEncryption : Runes → Option SseConfig → Option SseConfig → Type 0
IsEncryption provider none out = out ≡ none
IsEncryption provider (some sse) none = ⊥
IsEncryption provider (some sse) (some out) =
    (out.algorithm ≡ or_default aes256 (trim_space sse.algorithm))
    × ((out.algorithm ≡ aes256) × (out.kms_key_id ≡ [])
        ⊎ (out.algorithm ≡ kms) × ((provider ≡ aws) × (out.kms_key_id ≡ trim_space sse.kms_key_id)))

-- The log goes where the spec says, and to some bucket.
abbrev pub IsLogged : Option AccessLogConfig → Option AccessLogConfig → Type 0
IsLogged none out = out ≡ none
IsLogged (some al) none = ⊥
IsLogged (some al) (some out) =
    (out.target_bucket ≡ trim_space al.target_bucket)
    × ((out.target_prefix ≡ trim_space al.target_prefix) × (is_empty out.target_bucket ≡ false))

resolve_sse-IsEncryption :
    (provider : Runes) (sse : Option SseConfig)
    → OnOk (IsEncryption provider sse) (resolve_sse provider sse)
unfolding resolve_sse
resolve_sse-IsEncryption provider none = refl
resolve_sse-IsEncryption provider (some sse) =
    let algorithm = or_default aes256 (trim_space sse.algorithm) in
    elim (Bool-cases (text_eq algorithm aes256)) [
      | inl e ↦ rw e (
          OnOk-guard (IsEncryption provider (some sse)) (is_empty (trim_space sse.kms_key_id))
            key_without_kms _ (λ _. (sym ((text_eq_iff algorithm aes256).0 e), inl (refl, refl))))
      | inr e ↦ elim (Bool-cases (text_eq algorithm kms)) [
        | inl f ↦
            rw (e, f)
              (OnOk-guard (IsEncryption provider (some sse)) (text_eq provider aws) kms_elsewhere _
                (λ g. (
                  sym ((text_eq_iff algorithm kms).0 f),
                  inr (refl, ((text_eq_iff provider aws).0 g, refl)),
                )))
        | inr f ↦ rw (e, f) tt
      ]
    ]

resolve_access_logs-IsLogged :
    (logs : Option AccessLogConfig) → OnOk (IsLogged logs) (resolve_access_logs logs)
unfolding resolve_access_logs
resolve_access_logs-IsLogged none = refl
resolve_access_logs-IsLogged (some al) =
    OnOk-guard (IsLogged (some al)) (not (is_empty (trim_space al.target_bucket))) no_target_bucket
      _ (λ h. (refl, (refl, ground arith)))

-- The website of the spec, with both of its documents.
abbrev pub IsWebsite : Option WebsiteConfig → Option WebsiteConfig → Type 0
IsWebsite none out = out ≡ none
IsWebsite (some w) none = ⊥
IsWebsite (some w) (some out) =
    (out.index_document ≡ or_default (codes "index.html") (trim_space w.index_document))
    × ((out.error_document ≡ or_default out.index_document (trim_space w.error_document))
        × ((is_empty out.index_document ≡ false) × (is_empty out.error_document ≡ false)))

or_default-full :
    (default s : Runes) → is_empty default ≡ false → is_empty (or_default default s) ≡ false
or_default-full default [] h = h
or_default-full default (c ∷ s) h = refl

resolve_website-IsWebsite : (w : Option WebsiteConfig) → IsWebsite w (resolve_website w)
unfolding resolve_website
resolve_website-IsWebsite none = refl
resolve_website-IsWebsite (some w) =
    let index = or_default-full (codes "index.html") (trim_space w.index_document) refl in
    (refl, (refl, (index, or_default-full _ (trim_space w.error_document) index)))

-- A bucket is destroyed with its contents only if the spec says so.
abbrev pub IsForced : Option Bool → Bool → Type 0
IsForced none out = out ≡ false
IsForced (some wish) out = out ≡ wish

forced-IsForced : (wish : Option Bool) → IsForced wish (forced wish)
forced-IsForced none = refl
forced-IsForced (some b) = refl

-- The plan is in the region that the catalog has for the spec.
pub record IsLocated (resolve : RegionCatalog) (spec : ObjectStorageSpec) (plan : ObjectStoragePlan)
    : Type 0 where
  pub row : RegionRow
  pub found : resolve spec.region spec.provider ≡ some row
  pub csp_same : plan.csp ≡ row.csp
  pub region_same : plan.csp_region ≡ row.csp_region
  pub name_same : plan.region_name ≡ row.region_name

storage_region-some :
    (o : Option RegionRow) (row : RegionRow) → storage_region o ≡ ok row → o ≡ some row
storage_region-some none row h = cc h
storage_region-some (some r) row h = cc h

-- A plan of a bucket that can be made and is safe where the spec says nothing.
pub record IsStored (resolve : RegionCatalog) (spec : ObjectStorageSpec) (plan : ObjectStoragePlan)
    : Type 0 where
  pub located : IsLocated resolve spec plan
  pub named : IsBucketName plan.bucket_name
  pub kept : IsForced spec.force_destroy plan.force_destroy
  pub versioned : plan.versioning ≡ spec.versioning
  pub policy : plan.bucket_policy ≡ trim_space spec.bucket_policy
  public_same : plan.is_public ≡ spec.is_public
  pub on_stackit : plan.provider ≡ stackit → plan.is_public ≡ false
  pub encryption : IsEncryption plan.provider spec.sse plan.sse
  pub lifecycle : AreOrdered spec.lifecycle plan.lifecycle
  pub logs : IsLogged spec.access_logs plan.access_logs
  pub website : IsWebsite spec.website plan.website

private_on_stackit :
    (spec : ObjectStorageSpec)
    → can_be_public spec ≡ true
    → normal spec.provider ≡ stackit
    → spec.is_public ≡ false
private_on_stackit spec h e = ground (arith, (text_eq_iff (normal spec.provider) stackit).1 e)

module _ (hex_sum : Runes → Runes) (resolve : RegionCatalog) (spec : ObjectStorageSpec) where
  stored :
      IsHexSum hex_sum
      → OnOk (IsStored resolve spec) (translate_object_storage hex_sum resolve spec)
  unfolding translate_object_storage object_storage_plan
  stored hash = OnOk-bind_eq _ (validate_object_storage_spec spec) _ (λ _ _.
      OnOk-bind_eq _ (storage_region (resolve spec.region spec.provider)) _ (λ row at_row.
        OnOk-guard _ (can_be_public spec) public_unsupported _ (λ can.
          OnOk-bind (AreOrdered spec.lifecycle) _ (resolve_lifecycle spec.lifecycle) _
            (resolve_lifecycle-AreOrdered spec.lifecycle)
            (λ lifecycle ordered.
              OnOk-bind (IsEncryption (normal spec.provider) spec.sse) _
                (resolve_sse (normal spec.provider) spec.sse) _
                (resolve_sse-IsEncryption (normal spec.provider) spec.sse)
                (λ sse encrypted.
                  OnOk-bind (IsLogged spec.access_logs) _ (resolve_access_logs spec.access_logs) _
                    (resolve_access_logs-IsLogged spec.access_logs)
                    (λ logs logged. record {
                      located = record {
                        row = row;
                        found = storage_region-some (resolve spec.region spec.provider) row at_row;
                        csp_same = refl;
                        region_same = refl;
                        name_same = refl;
                      };
                      named =
                          derive_bucket_name-IsBucketName hex_sum (storage_name spec) row.csp
                            row.csp_region hash;
                      kept = forced-IsForced spec.force_destroy;
                      versioned = refl;
                      policy = refl;
                      public_same = refl;
                      on_stackit = private_on_stackit spec can;
                      encryption = encrypted;
                      lifecycle = ordered;
                      logs = logged;
                      website = resolve_website-IsWebsite spec.website;
                    }))))))

  -- With a hash of 64 hexadecimal digits: a plan is in the region that the catalog has; the name of its
  -- bucket has 3 to 63 small letters, digits and hyphens, and begins and ends with a letter or a digit.
  -- The bucket is public and versioned exactly if the spec says so, and never public on StackIt; it is
  -- destroyed with its contents exactly if the spec says so, and not if it says nothing; its policy is
  -- the spec's, trimmed. It is encrypted exactly if the spec says so, by its algorithm or AES256, with a
  -- key of KMS on AWS alone. All rules of the spec's lifecycle are in the plan by strictly ascending
  -- ids, and each does something after a number of days that is not negative. Accesses are logged
  -- exactly if the spec says so, to the bucket and prefix that it names; there is a website exactly if
  -- the spec has one, with its documents or their defaults.
  pub translate_object_storage-IsStored :
      IsHexSum hex_sum
      → (plan : ObjectStoragePlan) → translate_object_storage hex_sum resolve spec ≡ ok plan
      → IsStored resolve spec plan
  translate_object_storage-IsStored hash plan h = OnOk_apply _ _ plan (stored hash) h
