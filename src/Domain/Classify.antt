-- ===== src/Domain/Classify.antt =====
-- `classifyDeliveryResult` of packages/domain/src/index.ts.
pub mod Laws
use Prim.Native.String.{String}
use partner_integration_reli.Prelude.{
  ℕ, Bool, true, false, ◌&&◌, ◌||◌, leb, ltb, ◌==◌, Option, none, some, get_or, if◌then◌else◌, List,
  [], ◌∷◌,
}
use partner_integration_reli.Text.{lookup}
use partner_integration_reli.Domain.Types.{
  FailureCategory, invalid_destination, secret_not_found, oauth_token_error, dns_error,
  connection_error, tls_error, timeout, rate_limited, partner_4xx, partner_5xx, response_too_large,
  response_contract_error, unknown,
}

pub record DeliveryResultClassification : Type 0 where
  pub success : Bool
  pub retryable : Bool
  pub failure_category : Option FailureCategory
  pub counts_toward_circuit : Bool

abbrev pub failing : Bool → FailureCategory → Bool → DeliveryResultClassification
failing retry category counts = record {
  success = false;
  retryable = retry;
  failure_category = some category;
  counts_toward_circuit = counts;
}

abbrev pub includes_status : List ℕ → ℕ → Bool
includes_status [] s = false
includes_status (x ∷ xs) s = x == s || includes_status xs s

abbrev pub retried_statuses : List ℕ
retried_statuses = 408 ∷ 425 ∷ 429 ∷ 500 ∷ 502 ∷ 503 ∷ 504 ∷ []

abbrev pub circuit_statuses : List ℕ
circuit_statuses = 500 ∷ 502 ∷ 503 ∷ 504 ∷ []

unfoldable pub classify_status : ℕ → DeliveryResultClassification
classify_status s =
    if leb 200 s && ltb s 300
    then record {
      success = true;
      retryable = false;
      failure_category = none;
      counts_toward_circuit = false;
    }
    else if includes_status retried_statuses s
    then failing true (if s == 429 then rate_limited else partner_5xx)
        (includes_status circuit_statuses s)
    else failing false partner_4xx false

abbrev classified : List (String × DeliveryResultClassification)
classified =
    ("DNS_ERROR", failing true dns_error true)
    ∷ ("CONNECTION_ERROR", failing true connection_error true)
    ∷ ("TLS_ERROR", failing true tls_error true)
    ∷ ("TIMEOUT", failing true timeout true)
    ∷ ("OAUTH_TOKEN_ERROR", failing false oauth_token_error false)
    ∷ ("SECRET_NOT_FOUND", failing false secret_not_found false)
    ∷ ("INVALID_DESTINATION", failing false invalid_destination false)
    ∷ ("RESPONSE_TOO_LARGE", failing false response_too_large false)
    ∷ ("RESPONSE_CONTRACT_ERROR", failing false response_contract_error false)
    ∷ []

unfoldable pub classify_error : String → DeliveryResultClassification
unfolding lookup
classify_error code = get_or (lookup code classified) (failing false unknown false)

unfoldable pub classify_delivery_result : Option ℕ → Option String → DeliveryResultClassification
unfolding classify_status classify_error
classify_delivery_result (some s) code = classify_status s
classify_delivery_result none code = classify_error (get_or code "UNKNOWN")
