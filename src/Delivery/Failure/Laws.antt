-- ===== src/Delivery/Failure/Laws.antt =====
-- What becomes of the failures that a request can meet.
use Prim.Native.String.{String}
use partner_integration_reli.Prelude.{
  ◌≡◌, refl, false, some, Bool-cases, inl, inr, List, [], ◌∷◌, All,
}
use partner_integration_reli.Text.{lookup, any_word, has_word}
use partner_integration_reli.Domain.Types.{FailureCategory, unknown, invalid_destination}
use partner_integration_reli.Domain.Classify.{classify_error, failing}
use partner_integration_reli.PartnerHttp.{
  Unsafe, invalid_url, unsafe_url, invalid_scheme, unsafe_address, redirect, encoded_response,
  response_too_large, timeout, message,
}
use partner_integration_reli.Delivery.Failure.{message_codes, first_code, error_code}

-- Whatever the HTTP client refuses, a timeout included, is classified as unknown and not retried:
-- the tests are made on the message of the error, which does not hold its code.
pub error_code-message :
    (u : Unsafe) → classify_error (error_code (message u)) ≡ failing false unknown false
unfolding error_code message classify_error lookup
error_code-message invalid_url = refl
error_code-message unsafe_url = refl
error_code-message invalid_scheme = refl
error_code-message unsafe_address = refl
error_code-message redirect = refl
error_code-message encoded_response = refl
error_code-message response_too_large = refl
error_code-message timeout = refl

abbrev Spares : FailureCategory → String → Type 0
Spares c code = ¬ ((classify_error code).failure_category ≡ some c)

first_code-All {ℓ} :
    (P : String → Type ℓ) (m : String) (rows : List (List String × String))
    → All (λ row. P row.1) rows
    → P "UNKNOWN"
    → P (first_code m rows)
unfolding first_code
first_code-All P m [] h p = p
first_code-All P m ((words, code) ∷ rows) h p = elim (Bool-cases (any_word has_word m words)) [
  | inl yes_word ↦ rw yes_word h.0
  | inr no_word ↦ rw no_word (first_code-All P m rows h.1 p)
]

-- No message is classified as an invalid destination.
pub error_code-invalid_destination :
    (m : String) → ¬ ((classify_error (error_code m)).failure_category ≡ some invalid_destination)
unfolding error_code classify_error lookup
error_code-invalid_destination m =
    first_code-All (Spares invalid_destination) m message_codes
      (λ e. cc, (λ e. cc, (λ e. cc, (λ e. cc, (λ e. cc, (λ e. cc, (λ e. cc, (λ e. cc, tt))))))))
      (λ e. cc)
