-- ===== src/Migration/Redact/Tests.antt =====
-- An instance of the theorem on redaction.
use terraform_provider_pyxcl.Prelude.{◌≡◌, refl, some, [], ◌∷◌}
use terraform_provider_pyxcl.Prelude.Int.{pos}
use terraform_provider_pyxcl.GoLang.Exact.{exact}
use terraform_provider_pyxcl.GoLang.Text.{to_lower}
use terraform_provider_pyxcl.GoLang.Value.{Value, float, str, object, end, field}
use terraform_provider_pyxcl.Migration.Redact.{
  sensitive_field, redact_json, redact_fields, redact_json_value, redact_decoded, fields,
  redact_backend_error_body,
}

abbrev body : Value exact
body = object (
    field "Token" (float (pos 7)) (
      field "error" (object (field "detail" (str "no quota") (field "code" (float (pos 3)) end)))
        end))

redacted :
    redact_backend_error_body {F = exact} (λ bytes. some body) (1 ∷ [])
    ≡ fields (
        field "Token" (str "<redacted>") (
          field "error"
            (object (field "detail" (str "<redacted>") (field "code" (float (pos 3)) end)))
            end))
unfolding redact_backend_error_body redact_decoded redact_json_value redact_fields redact_json
    sensitive_field to_lower
redacted = refl
