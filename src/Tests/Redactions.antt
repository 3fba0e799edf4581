-- ===== src/Tests/Redactions.antt =====
-- What a log keeps of a value with a password, headers and a body.
use partner_integration_reli.Prelude.{◌≡◌, refl, none, []}
use partner_integration_reli.Json.{Json, string, object, field, empty, number}
use partner_integration_reli.Redaction.{
  redact_headers, Texts, is_sensitive, is_omitted, redact_unknown,
}
use partner_integration_reli.Redaction.Laws.{IsSafe, redact_unknown-Safe}

abbrev texts : Texts
texts = record { to_lower = λ name. name; index_name = λ n. "0"; redact_text = λ text. text }

abbrev entry : Json
entry = object (
    field "clientPassword" (string "hunter2") (
      field "headers" (object (field "api_key" (string "k") (field "accept" (string "*") empty)))
        (field "Body" (string "{}") (field "attempt" (number "2") empty))))

logged :
    redact_unknown texts entry
    ≡ object (
        field "clientPassword" (string "[REDACTED]") (
          field "headers"
            (object (field "api_key" (string "[REDACTED]") (field "accept" (string "*") empty)))
            (field "Body" (string "[OMITTED]") (field "attempt" (number "2") empty))))
unfolding redact_unknown is_sensitive is_omitted
logged = refl

redact_unknown-Safe_example :
    IsSafe (redact_unknown texts entry)
    × IsSafe (
        object (
          redact_headers texts
            (field "x-token" (string "t") empty)
            (record { allowlist = none; sensitive_names = [] })))
redact_unknown-Safe_example =
    redact_unknown-Safe texts entry (field "x-token" (string "t") empty)
      (record { allowlist = none; sensitive_names = [] })
