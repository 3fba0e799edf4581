-- ===== src/Delivery/Request.antt =====
-- The request of an attempt: its secret, its headers, and its exchange with the partner, as
-- `deliver` of packages/application/src/index.ts makes them.
use Prim.Native.String.{String, ◌++◌}
use partner_integration_reli.Prelude.{
  ℕ, ◌||◌, Option, none, some, List, [], ◌∷◌, if◌then◌else◌, Result, ok, err,
}
use partner_integration_reli.Text.{str_eq, insert}
use partner_integration_reli.Json.{Json, string, array, object, Items, nil, cons, property}
use partner_integration_reli.Domain.Types.{
  api_key, oauth_client_credentials, DestinationAuthType, DeliveryExecution,
}

pub record PartnerRequest : Type 0 where
  pub url : ℕ
  pub headers : List (String × String)
  pub body : String
  pub timeout_ms : ℕ
  pub correlation_id : ℕ

pub record PartnerResponse : Type 0 where
  pub status : ℕ
  pub headers : List (String × String)
  pub body : String

pub record TokenRequest : Type 0 where
  pub destination_id : ℕ
  pub token_url : String
  pub client_id : String
  pub client_secret : String
  pub scopes : List String
  pub authentication_style : String
  pub correlation_id : ℕ

-- The secret store, the token provider and the HTTP client: what each returns, or the message of
-- what it throws.
pub record Outside : Type 0 where
  pub resolve : ℕ → Result String String
  pub oauth : TokenRequest → Result String String
  pub send : PartnerRequest → Result String PartnerResponse

-- `configuration.name`, if it is a text, or if it is a list, of which the texts are kept.
abbrev text_at : Json → String → Option String
text_at (object fs) k = elim (property fs k) [ some (string s) ↦ some s | _ ↦ none ]
text_at _ k = none

abbrev texts : Items → List String
texts nil = []
texts (cons (string s) xs) = s ∷ texts xs
texts (cons _ xs) = texts xs

abbrev texts_at : Json → String → Option (List String)
texts_at (object fs) k = elim (property fs k) [ some (array xs) ↦ some (texts xs) | _ ↦ none ]
texts_at _ k = none

abbrev pub Headers : Type 0
Headers = List (String × String)

abbrev pub json_headers : List (String × String)
json_headers = ("content-type", "application/json") ∷ []

unfoldable pub with_idempotency : DeliveryExecution → Headers → Headers
unfolding insert
with_idempotency d headers = elim d.config_snapshot.idempotency_header [
  | none ↦ headers
  | some name ↦ insert name d.partner_idempotency_key headers
]

unfoldable pub api_key_headers : DeliveryExecution → String → Result String Headers
unfolding with_idempotency insert
api_key_headers d secret = elim (text_at d.config_snapshot.auth_configuration "headerName") [
  | none ↦ err "INVALID_DESTINATION"
  | some name ↦ ok (with_idempotency d (insert name secret json_headers))
]

-- The configuration of a token request, where all its parts are there.
unfoldable pub token_request : DeliveryExecution → String → Option TokenRequest
token_request d secret =
    let configuration = d.config_snapshot.auth_configuration in
    elim (text_at configuration "tokenUrl") [
      | none ↦ none
      | some token_url ↦ elim (text_at configuration "clientId") [
        | none ↦ none
        | some client_id ↦ elim (text_at configuration "authenticationStyle") [
          | none ↦ none
          | some style ↦
              if str_eq style "basic" || str_eq style "body"
              then elim (texts_at configuration "scopes") [
                | none ↦ none
                | some scopes ↦ some (record {
                  destination_id = d.destination_id;
                  token_url = token_url;
                  client_id = client_id;
                  client_secret = secret;
                  scopes = scopes;
                  authentication_style = style;
                  correlation_id = d.correlation_id;
                })
              ]
              else none
        ]
      ]
    ]

-- What was sent, if anything, the headers as they stood then, and the answer. The headers are
-- set after everything that can throw before the request.
pub record Exchange : Type 0 where
  pub sent : Option PartnerRequest
  pub headers : Headers
  pub answer : Result String PartnerResponse

module _ (outside : Outside) where
  unfoldable pub oauth_headers : DeliveryExecution → String → Result String Headers
  unfolding token_request insert
  oauth_headers d secret = elim (token_request d secret) [
    | none ↦ err "INVALID_DESTINATION"
    | some request ↦ elim (outside.oauth request) [
      | err message ↦ err message
      | ok token ↦ ok (
          insert "x-delivery-key" d.partner_idempotency_key
            (insert "authorization" ("Bearer " ++ token) json_headers))
    ]
  ]

  unfoldable pub auth_headers :
      DestinationAuthType → DeliveryExecution → String → Result String Headers
  unfolding api_key_headers oauth_headers
  auth_headers api_key d secret = api_key_headers d secret
  auth_headers oauth_client_credentials d secret = oauth_headers d secret

  unfoldable pub request_headers : DeliveryExecution → List ℕ → Result String Headers
  unfolding auth_headers
  request_headers d [] = err "SECRET_NOT_FOUND"
  request_headers d (name ∷ names) = elim (outside.resolve name) [
    | err message ↦ err message
    | ok secret ↦ auth_headers d.config_snapshot.auth_type d secret
  ]

  unfoldable pub exchange : DeliveryExecution → String → Exchange
  unfolding request_headers
  exchange d body = elim (request_headers d d.config_snapshot.secret_reference_names) [
    | err message ↦ record { sent = none; headers = json_headers; answer = err message }
    | ok headers ↦
        let request : PartnerRequest = record {
          url = d.config_snapshot.url;
          headers = headers;
          body = body;
          timeout_ms = d.config_snapshot.timeout_ms;
          correlation_id = d.correlation_id;
        } in
        record { sent = some request; headers = headers; answer = outside.send request }
  ]
