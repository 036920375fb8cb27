-- ===== src/Migration/Redact.antt =====
-- The redaction of a backend's error body (internal/migration/client.go). A message is kept as the
-- value that json.Marshal prints; json.Unmarshal is an argument.
pub mod Clean
mod Tests
use terraform_provider_pyxcl.Prelude.{
  ℕ, String, Bool, ◌||◌, Option, none, some, List, [], ◌∷◌, any, if◌then◌else◌,
}
use terraform_provider_pyxcl.GoLang.Float.{Float64}
use terraform_provider_pyxcl.GoLang.Text.{Runes, codes, text_eq, to_lower}
use terraform_provider_pyxcl.GoLang.Value.{
  Value, null, bool, float, int, int64, str, list, object, Items, nil, cons, Fields, end, field,
}
use terraform_provider_pyxcl.Migration.Seal.{Bytes, take_bytes}

abbrev pub mark : String
mark = "<redacted>"

abbrev pub sensitive_names : List Runes
sensitive_names =
    codes "token"
    ∷ codes "access_token"
    ∷ codes "refresh_token"
    ∷ codes "authorization"
    ∷ codes "password"
    ∷ codes "secret"
    ∷ codes "secretaccesskey"
    ∷ codes "accesskeyid"
    ∷ codes "credentials"
    ∷ codes "credential"
    ∷ codes "key"
    ∷ codes "private_key"
    ∷ []

-- sensitiveField
unfoldable pub sensitive_field : String → Bool
sensitive_field name = any (text_eq (to_lower (codes name))) sensitive_names

-- redactJSON
unfoldable mutual
  pub redact_json : {F : Float64} → Value F → Value F
  redact_json (object m) = object (redact_fields m)
  redact_json (list xs) = list (redact_items xs)
  redact_json (str s) = str mark
  redact_json null = null
  redact_json (bool b) = bool b
  redact_json (float x) = float x
  redact_json (int n) = int n
  redact_json (int64 n) = int64 n

  pub redact_items : {F : Float64} → Items F → Items F
  redact_items nil = nil
  redact_items (cons x xs) = cons (redact_json x) (redact_items xs)

  pub redact_fields : {F : Float64} → Fields F → Fields F
  redact_fields end = end
  redact_fields (field k v m) =
      field k (if sensitive_field k then str mark else redact_json v) (redact_fields m)

-- What the error tells of a body.
pub data Told (F : Float64) : Type 0 where
  empty : Told F
  fields : Fields F → Told F
  redacted_body : Told F
  redacted_non_json : Told F

-- redactJSONValue
unfoldable pub redact_json_value : {F : Float64} → Value F → Told F
redact_json_value (object m) = fields (redact_fields m)
redact_json_value _ = redacted_body

unfoldable pub redact_decoded : {F : Float64} → Option (Value F) → Told F
redact_decoded none = redacted_non_json
redact_decoded (some v) = redact_json_value v

-- redactBackendErrorBody, which looks at 512 bytes at most
unfoldable pub redact_backend_error_body :
    {F : Float64} → (Bytes → Option (Value F)) → Bytes → Told F
redact_backend_error_body unmarshal [] = empty
redact_backend_error_body unmarshal (b ∷ bs) = redact_decoded (unmarshal (take_bytes 512 (b ∷ bs)))
