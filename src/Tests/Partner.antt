-- ===== src/Tests/Partner.antt =====
-- The answers of a partner, and what is kept of them.
use Prim.Native.String.{String}
use partner_integration_reli.Prelude.{
  ℕ, ◌≡◌, ◌≤◌, ◌<◌, ◌↔◌, refl, true, false, none, some, Option, ok, err, Result, List, [], ◌∷◌,
  if◌then◌else◌, ◌⊎◌, Bool-cases, inl, inr, sym, subst, arith,
}
use partner_integration_reli.Json.{Json, string, object, field, empty, property, assign}
use partner_integration_reli.Text.{str_eq, lookup}
use partner_integration_reli.Json.Path.{split_dots}
use partner_integration_reli.Domain.Types.{
  in_progress, succeeded, failed_terminal, dead_lettered, retry_scheduled, issued,
  DeliveryExecution, invalid_destination,
}
use partner_integration_reli.Domain.Records.{AttemptOutcome}
use partner_integration_reli.Domain.Transition.{transition_delivery, moved}
use partner_integration_reli.Domain.Classify.{failing, classify_error}
use partner_integration_reli.Domain.Types.{unknown}
use partner_integration_reli.PartnerHttp.{
  ClientConfig, Url, timeout, message, private_ip, private_v4, private_v6, address_of, validate_url,
  is_unsafe_url, is_local, check_addresses, some_private, Incoming, receive,
}
use partner_integration_reli.PartnerHttp.Laws.{receive_iff, Accepted}
use partner_integration_reli.PartnerHttp.Public.{IsQuad, IsPublic, IsIpLaw, address-IsPublic}
use text.Mathlib.TextEquality.{eq_iff}
use partner_integration_reli.Delivery.Failure.{error_code}
use partner_integration_reli.Delivery.Failure.Laws.{
  error_code-message, error_code-invalid_destination,
}
use partner_integration_reli.Delivery.Evidence.{
  Runtime, redacted, redacted_headers, redact_parts, redact_final, member, replace_member,
}
use partner_integration_reli.Delivery.Evidence.Headers.{IsHiding, lookup-redacted_headers}
use partner_integration_reli.Delivery.Evidence.Hidden.{IsHidden, value_at, redact_parts-Hidden}
use partner_integration_reli.Delivery.Request.{PartnerResponse}
use partner_integration_reli.Delivery.Outcome.{
  Readers, Completion, classify_answer, next_state, completion_transition,
}
use partner_integration_reli.Delivery.Outcome.Laws.{completion_total, next_state_iff, IsSuccess}
use partner_integration_reli.Tests.Fixtures.{delivery_in}
use partner_integration_reli.Tests.Attempts.{attempt}

abbrev parse_url : String → Option Url
parse_url text = some (record {
  username = "";
  password = "";
  hash = "";
  hostname = "partner.test";
  protocol = "https:";
})

abbrev is_ip : String → ℕ
is_ip host = if str_eq host "93.184.216.34" then 4 else 0

abbrev hosted : ClientConfig
hosted = record { is_local_mode = false; local_http_hostnames = []; max_response_bytes = some 100 }

abbrev resolve : String → List String
resolve host = "93.184.216.34" ∷ []

connected : address_of parse_url is_ip hosted resolve resolve "u" ≡ ok "93.184.216.34"
unfolding address_of validate_url is_unsafe_url is_local check_addresses some_private private_ip
    private_v4 split_dots
connected = refl

quad_split : split_dots "93.184.216.34" ≡ "93" ∷ "184" ∷ "216" ∷ "34" ∷ []
unfolding split_dots
quad_split = refl

is_ip-IsIpLaw : IsIpLaw is_ip
is_ip-IsIpLaw address e = elim (Bool-cases (str_eq address "93.184.216.34")) [
  | inr other ↦ let g = rw other at e in cc
  | inl same ↦
      let at_address : "93.184.216.34" ≡ address = sym ((eq_iff address "93.184.216.34").0 same) in
      subst (λ x. (a : ℕ) × (b : ℕ) × (c : ℕ) × (d : ℕ) × IsQuad x a b c d) at_address
        (
          93,
          184,
          216,
          34,
          record {
            texts = ("93", "184", "216", "34", quad_split, refl, refl, refl, refl);
            bytes = (omega arith, omega arith, omega arith, omega arith);
          },
        )
]

address-IsPublic_example : IsPublic is_ip "93.184.216.34"
address-IsPublic_example =
    address-IsPublic parse_url is_ip hosted is_ip-IsIpLaw resolve resolve "u" "93.184.216.34" refl
      connected

-- The loopback address of version 4, mapped into version 6, passes for public.
mapped_loopback : private_ip parse_url (λ host. 6) hosted "::ffff:127.0.0.1" ≡ false
unfolding private_ip private_v6
mapped_loopback = refl

abbrev incoming : Incoming
incoming = record { status_code = some 200; headers = []; chunks = 40 ∷ 60 ∷ [] }

receive_iff_example : (receive hosted incoming ≡ ok 100) ↔ Accepted hosted incoming 100
receive_iff_example = receive_iff hosted incoming 100

error_code-message_example :
    classify_error (error_code (message timeout)) ≡ failing false unknown false
error_code-message_example = error_code-message timeout

error_code-invalid_destination_example : ¬ (
    (classify_error (error_code "INVALID_DESTINATION")).failure_category ≡ some invalid_destination)
error_code-invalid_destination_example = error_code-invalid_destination "INVALID_DESTINATION"

abbrev number : String → Option ℕ
number text = none

abbrev date : String → Option ℕ
date text = some 7500

abbrev custom_headers : List (String × String)
custom_headers = ("Authorization", "Bearer t") ∷ ("X-Partner-Key", "s3cret") ∷ []

lookup-redacted_headers_example :
    (IsHiding "X-Partner-Key"
      × (lookup "X-Partner-Key" (redacted_headers custom_headers) ≡ some redacted))
    ⊎ (¬ IsHiding "X-Partner-Key"
        × (lookup "X-Partner-Key" (redacted_headers custom_headers) ≡ some "s3cret"))
unfolding lookup
lookup-redacted_headers_example =
    lookup-redacted_headers "X-Partner-Key" "s3cret" custom_headers refl

-- The header of an API key under a name of its own stays in clear.
key_in_clear : lookup "X-Partner-Key" (redacted_headers custom_headers) ≡ some "s3cret"
unfolding lookup redacted_headers
key_in_clear = refl

abbrev answer : String → Json
answer token = object (field "auth" (object (field "token" (string token) empty)) empty)

redact_parts-Hidden_example : IsHidden (value_at (answer redacted) ("auth" ∷ []) "token")
unfolding redact_parts redact_final member replace_member property assign
redact_parts-Hidden_example =
    redact_parts-Hidden (answer "t0p") ("auth" ∷ []) "token" (answer redacted) refl

-- An attempt that is the last of five, and timed out.
abbrev last_started : DeliveryExecution
last_started = record (delivery_in in_progress) {
  lease_token = some (issued 77);
  attempt_count = 5;
  active_attempt_id = some 31;
  version = 3;
}

abbrev completion : Completion
completion = record {
  started = last_started;
  attempt = attempt AttemptOutcome.started;
  token = issued 77;
  answer = err "connect ECONNREFUSED";
  headers = [];
  completed = 2400;
  random = 0;
  outbox_id = 32;
  history_id = 33;
  traceparent = none;
}

abbrev readers : Readers
readers = record { number = number; date = date }

abbrev runtime : Runtime
runtime = record {
  parse_json = λ text. none;
  quote = λ text. text;
  to_lower = λ text. text;
  hash = λ text. 11;
}

completion_total_example :
    let t = completion_transition readers completion (classify_answer completion.answer) in
    transition_delivery last_started t ≡ ok (moved last_started t)
completion_total_example = completion_total readers completion (issued 77) refl refl

abbrev accepted : Result String PartnerResponse
accepted = ok (record { status = 204; headers = []; body = "" })

next_state_iff_example :
    let c = classify_answer accepted in
    let s = next_state last_started c in
    ((s ≡ succeeded) ↔ IsSuccess accepted)
    × ((s ≡ retry_scheduled) ↔ (c.retryable ≡ true) × (5 < 5))
    × ((s ≡ dead_lettered) ↔ (c.retryable ≡ true) × (5 ≤ 5))
    × ((s ≡ failed_terminal) ↔ (c.success ≡ false) × (c.retryable ≡ false))
next_state_iff_example = next_state_iff last_started accepted
