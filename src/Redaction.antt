-- ===== src/Redaction.antt =====
-- packages/redaction/src/index.ts: what logs and evidence keep of headers, errors and JSON values.
pub mod Laws
use Prim.Native.Char.{Char, code}
use Prim.Native.String.{String, ◌++◌}
use partner_integration_reli.Prelude.{
  ℕ, ◌+◌, not, Bool, true, false, ◌&&◌, ◌||◌, ltb, leb, ◌==◌, is_some, Option, none, some, List, [],
  ◌∷◌, map, if◌then◌else◌, Result, ok, err,
}
use partner_integration_reli.Text.{codes, lower, has_word_any_case, any_word, includes_text, str_eq}
use partner_integration_reli.Json.{
  Json, null, bool, number, string, array, object, Items, nil, cons, Fields, empty, field, assign,
}
use partner_integration_reli.Json.Path.{split_dots, Parts, unsnoc}
use partner_integration_reli.Delivery.Evidence.{
  redacted, units, take_units, is_object, is_length, member, replace_member, Thrown, range_error,
  map_result,
}

-- The words of `sensitiveName`; the others of its pattern hold one of them.
abbrev sensitive_words : List String
sensitive_words =
    "authorization" ∷ "cookie" ∷ "apikey" ∷ "api-key" ∷ "api_key" ∷ "token" ∷ "secret" ∷ "signature"
    ∷ "hmac" ∷ "password" ∷ "credential" ∷ []

unfoldable pub is_sensitive : String → Bool
is_sensitive name = any_word has_word_any_case name sensitive_words

abbrev pub safe_response_headers : List String
safe_response_headers = "content-type" ∷ "content-length" ∷ "retry-after" ∷ "x-request-id" ∷ []

-- The length of a text, and `bounded`.
unfoldable pub units_of : String → ℕ
units_of String.[] = 0
units_of (String.◌∷◌ c text) = units c + units_of text

unfoldable pub bounded : ℕ → String → String
unfolding units_of take_units
bounded max text = if leb (units_of text) max then text else take_units max text ++ "…"

abbrev pub usual_max : ℕ
usual_max = 2_048

-- `toLowerCase`, the name of an index of an array, and `redactText`, whatever it does.
pub record Texts : Type 0 where
  pub to_lower : String → String
  pub index_name : ℕ → String
  pub redact_text : String → String

-- The options of `redactHeaders`.
pub record HeaderOptions : Type 0 where
  pub allowlist : Option (List String)
  pub sensitive_names : List String

abbrev pub is_left_out : HeaderOptions → String → Bool
is_left_out options name = elim options.allowlist [
  | none ↦ false
  | some names ↦ not (includes_text names name)
]

abbrev pub keep_text : String → Json → Fields → Fields
keep_text name (string text) result = assign result name (string (bounded usual_max text))
keep_text name _ result = result

abbrev same_codes : List ℕ → List ℕ → Bool
same_codes [] [] = true
same_codes (x ∷ xs) (y ∷ ys) = x == y && same_codes xs ys
same_codes _ _ = false

abbrev pub is_word_any_case : String → String → Bool
is_word_any_case text word = same_codes (map lower (codes text)) (codes word)

unfoldable pub is_omitted : String → Bool
is_omitted key = any_word is_word_any_case key ("body" ∷ "rawbody" ∷ "payload" ∷ "request" ∷ [])

abbrev is_fields : Json → Bool
is_fields (object fs) = true
is_fields _ = false

module _ (rt : Texts) where
  unfoldable pub add_header : HeaderOptions → String → Json → Fields → Fields
  unfolding bounded assign
  add_header options name value result =
      if is_left_out options name
      then result
      else if includes_text (map rt.to_lower options.sensitive_names) name || is_sensitive name
      then assign result name (string redacted)
      else keep_text name value result

  unfoldable pub headers_from : HeaderOptions → Fields → Fields → Fields
  unfolding add_header
  headers_from options empty result = result
  headers_from options (field name value headers) result =
      headers_from options headers (add_header options (rt.to_lower name) value result)

  unfoldable pub redact_headers : Fields → HeaderOptions → Fields
  unfolding headers_from
  redact_headers headers options = headers_from options headers empty

  unfoldable pub redact_response_headers : Fields → Fields
  unfolding redact_headers
  redact_response_headers headers =
      redact_headers headers
        (record { allowlist = some safe_response_headers; sensitive_names = [] })

  -- `Object.entries`.
  abbrev pub entries_from : ℕ → Items → Fields
  entries_from n nil = empty
  entries_from n (cons j xs) = field (rt.index_name n) j (entries_from (n + 1) xs)

  abbrev pub entries : Json → Fields
  entries (object fs) = fs
  entries (array xs) = entries_from 0 xs
  entries _ = empty

  -- What a property becomes, where `inner` is its redacted value.
  unfoldable pub redact_property : String → Json → Json → Json
  unfolding redact_headers
  redact_property key entry inner =
      if is_sensitive key
      then string redacted
      else if str_eq key "headers" && is_object entry
      then object
          (redact_headers (entries entry) (record { allowlist = none; sensitive_names = [] }))
      else if is_omitted key
      then string "[OMITTED]"
      else inner

  unfoldable mutual
    unfolding redact_property bounded

    pub redact_unknown : Json → Json
    redact_unknown null = null
    redact_unknown (bool b) = bool b
    redact_unknown (number n) = number n
    redact_unknown (string text) = string (bounded usual_max (rt.redact_text text))
    redact_unknown (array xs) = array (redact_items xs)
    redact_unknown (object fs) = object (redact_fields fs empty)

    pub redact_items : Items → Items
    redact_items nil = nil
    redact_items (cons j xs) = cons (redact_unknown j) (redact_items xs)

    pub redact_fields : Fields → Fields → Fields
    redact_fields empty result = result
    redact_fields (field key entry fs) result =
        let inner = redact_unknown entry in
        redact_fields fs (assign result key (redact_property key entry inner))

  -- The walk of one path of `redactJson` to its last part.
  unfoldable pub hide_parts : Json → List String → String → Result Thrown Json
  unfolding member replace_member
  hide_parts j [] last =
      if is_length j last
      then err range_error
      else if is_some (member j last)
      then ok (replace_member j last (string redacted))
      else ok j
  hide_parts j (p ∷ ps) last = elim (member j p) [
    | none ↦ ok j
    | some next ↦
        let inner = hide_parts next ps last in
        if is_fields next then map_result (replace_member j p) inner else ok j
  ]

  -- `path.replace(/^\$\.?/, "")`.
  unfoldable pub strip_dollar : String → String
  strip_dollar String.[] = String.[]
  strip_dollar (String.◌∷◌ c String.[]) =
      if code c == b'$' then String.[] else String.◌∷◌ c String.[]
  strip_dollar (String.◌∷◌ c (String.◌∷◌ d text)) =
      if code c == b'$'
      then (if code d == b'.' then text else String.◌∷◌ d text)
      else String.◌∷◌ c (String.◌∷◌ d text)

  -- `filter(Boolean)`.
  abbrev filled : List String → List String
  filled [] = []
  filled (w ∷ ws) = let rest = filled ws in if str_eq w "" then rest else w ∷ rest

  unfoldable pub hide_path : Json → List String → Result Thrown Json
  unfolding hide_parts unsnoc
  hide_path j [] = ok j
  hide_path j (p ∷ ps) = let parts = unsnoc (p ∷ ps) in hide_parts j parts.before parts.last

  unfoldable pub hide_paths : Json → List String → Result Thrown Json
  unfolding hide_path strip_dollar split_dots
  hide_paths j [] = ok j
  hide_paths j (path ∷ paths) = elim (hide_path j (filled (split_dots (strip_dollar path)))) [
    | err e ↦ err e
    | ok j' ↦ hide_paths j' paths
  ]

  unfoldable pub redact_json : Json → List String → Result Thrown Json
  unfolding hide_paths redact_unknown
  redact_json value paths =
      if not (is_object value) then ok value else map_result redact_unknown (hide_paths value paths)

  -- `redactError`, of an error with a name, a message and perhaps a stack.
  unfoldable pub redact_error : String → String → Option String → Fields
  unfolding bounded
  redact_error name message stack = field "name" (string name) (
      field "message" (string (bounded usual_max (rt.redact_text message))) (elim stack [
        | none ↦ empty
        | some text ↦ field "stack" (string (bounded 4_096 (rt.redact_text text))) empty
      ]))
