-- ===== src/Migration/Redact/Clean.antt =====
-- What is left in a redacted body (internal/migration/client.go).
use text.Mathlib.Text.{◌==◌ as str_eq}
use terraform_provider_pyxcl.Prelude.{
  ◌≡◌, refl, Bool, true, false, not, ◌&&◌, ◌||◌, Option, some, String, List, [], ◌∷◌, arith,
  Bool-cases, inl, inr, eq_refl,
}
use terraform_provider_pyxcl.GoLang.Float.{Float64}
use terraform_provider_pyxcl.GoLang.Value.{
  Value, null, bool, float, int, int64, str, list, object, Items, nil, cons, Fields, end, field,
}
use terraform_provider_pyxcl.Migration.Seal.{Bytes, take_bytes}
use terraform_provider_pyxcl.Migration.Redact.{
  mark, sensitive_field, redact_json, redact_items, redact_fields, Told, empty, fields,
  redacted_body, redacted_non_json,
}

abbrev is_mark : {F : Float64} → Value F → Bool
is_mark (str s) = str_eq s mark
is_mark _ = false

-- Every text is the mark, and so is every value under a sensitive name, at any depth.
mutual
  pub is_clean : {F : Float64} → Value F → Bool
  is_clean (object m) = clean_fields m
  is_clean (list xs) = clean_items xs
  is_clean (str s) = str_eq s mark
  is_clean null = true
  is_clean (bool b) = true
  is_clean (float x) = true
  is_clean (int n) = true
  is_clean (int64 n) = true

  pub clean_items : {F : Float64} → Items F → Bool
  clean_items nil = true
  clean_items (cons x xs) = is_clean x && clean_items xs

  pub clean_fields : {F : Float64} → Fields F → Bool
  clean_fields end = true
  clean_fields (field k v m) =
      (not (sensitive_field k) || is_mark v) && is_clean v && clean_fields m

mutual
  unfolding is_clean clean_items clean_fields redact_json redact_items redact_fields

  redact_json-clean : {F : Float64} (v : Value F) → is_clean (redact_json v) ≡ true
  redact_json-clean (object m) = redact_fields-clean m
  redact_json-clean (list xs) = redact_items-clean xs
  redact_json-clean (str s) = eq_refl mark
  redact_json-clean null = refl
  redact_json-clean (bool b) = refl
  redact_json-clean (float x) = refl
  redact_json-clean (int n) = refl
  redact_json-clean (int64 n) = refl

  redact_items-clean : {F : Float64} (xs : Items F) → clean_items (redact_items xs) ≡ true
  redact_items-clean nil = refl
  redact_items-clean (cons x xs) = ground (arith, redact_json-clean x, redact_items-clean xs)

  redact_fields-clean : {F : Float64} (m : Fields F) → clean_fields (redact_fields m) ≡ true
  redact_fields-clean end = refl
  redact_fields-clean (field k v m) = elim (Bool-cases (sensitive_field k)) [
    | inl e ↦ rw e (redact_fields-clean m)
    | inr e ↦ rw e (ground (arith, redact_json-clean v, redact_fields-clean m))
  ]

abbrev pub told_clean : {F : Float64} → Told F → Bool
told_clean (fields m) = clean_fields m
told_clean empty = true
told_clean redacted_body = true
told_clean redacted_non_json = true

abbrev pub names : {F : Float64} → Fields F → List String
names end = []
names (field k v m) = k ∷ names m

-- The names of the fields that the error tells.
abbrev pub told_names : {F : Float64} → Told F → List String
told_names (fields m) = names m
told_names _ = []

abbrev pub object_names : {F : Float64} → Option (Value F) → List String
object_names (some (object m)) = names m
object_names _ = []

-- The names of the fields of a body that is an object.
abbrev pub body_names : {F : Float64} → (Bytes → Option (Value F)) → Bytes → List String
body_names unmarshal [] = []
body_names unmarshal (b ∷ bs) = object_names (unmarshal (take_bytes 512 (b ∷ bs)))
