-- ===== src/Delivery/Failure.antt =====
-- How `deliver` of packages/application/src/index.ts reads the message of what was thrown while it
-- made a request, and the messages that packages/partner-http/src/index.ts throws.
pub mod Laws
use Prim.Native.String.{String}
use partner_integration_reli.Prelude.{
  ◌≡◌, refl, Bool, true, false, none, some, List, [], ◌∷◌, if◌then◌else◌, arith,
}
use partner_integration_reli.Text.{has_word, any_word}

-- The chain of tests on the message, each an alternative of patterns without special characters,
-- and the code of each.
abbrev pub message_codes : List (List String × String)
message_codes =
    ("TIMEOUT" ∷ [], "TIMEOUT")
    ∷ ("DNS" ∷ "ENOTFOUND" ∷ "EAI_AGAIN" ∷ [], "DNS_ERROR")
    ∷ ("ECONN" ∷ "CONNECTION" ∷ [], "CONNECTION_ERROR")
    ∷ ("TLS" ∷ "CERT" ∷ [], "TLS_ERROR")
    ∷ ("RESPONSE_TOO_LARGE" ∷ [], "RESPONSE_TOO_LARGE")
    ∷ ("INVALID_" ∷ "UNSAFE" ∷ "REDIRECT" ∷ "ENCODED" ∷ [], "RESPONSE_CONTRACT_ERROR")
    ∷ ("SECRET_NOT_FOUND" ∷ [], "SECRET_NOT_FOUND")
    ∷ ("OAUTH" ∷ [], "OAUTH_TOKEN_ERROR")
    ∷ []

unfoldable pub first_code : String → List (List String × String) → String
first_code message [] = "UNKNOWN"
first_code message ((words, code) ∷ rows) =
    if any_word has_word message words then code else first_code message rows

unfoldable pub error_code : String → String
unfolding first_code
error_code message = first_code message message_codes
