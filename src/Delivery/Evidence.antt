-- ===== src/Delivery/Evidence.antt =====
-- What an attempt keeps of a request and its response: `redactedHeaders` and `responseEvidence` of
-- packages/application/src/index.ts.
pub mod Headers
pub mod Hidden
use Prim.Native.Char.{code, Char}
use Prim.Native.String.{String}
use partner_integration_reli.Prelude.{
  ℕ, ◌+◌, ◌*◌, ◌-◌, zero, suc, not, is_some, Bool, true, false, ◌&&◌, ltb, leb, ◌==◌, Option, none,
  some, List, [], ◌∷◌, if◌then◌else◌, Result, ok, err,
}
use partner_integration_reli.Text.{
  codes, lower, has_word_any_case, any_word, includes_text, insert, str_eq, index_of,
}
use partner_integration_reli.Json.{
  Json, null, bool, number, string, array, object, Items, nil, cons, Fields, empty, field, property,
  assign,
}
use partner_integration_reli.Json.Path.{split_dots, strip_root, unsnoc}
use partner_integration_reli.Json.Print.{stringify}

abbrev pub redacted : String
redacted = "[REDACTED]"

-- `/authorization|api-key/i.test(name)`.
unfoldable pub hides_value : String → Bool
hides_value name = any_word has_word_any_case name ("authorization" ∷ "api-key" ∷ [])

unfoldable pub redacted_headers : List (String × String) → List (String × String)
unfolding hides_value
redacted_headers [] = []
redacted_headers ((name, value) ∷ headers) =
    (name, if hides_value name then redacted else value) ∷ redacted_headers headers

abbrev kept_headers : List String
kept_headers = "content-type" ∷ "content-length" ∷ "retry-after" ∷ "x-request-id" ∷ []

-- `to_lower` is the method of a text.
unfoldable pub safe_headers :
    (String → String) → List (String × String) → List (String × String) → List (String × String)
unfolding insert
safe_headers to_lower [] safe = safe
safe_headers to_lower ((name, value) ∷ headers) safe =
    safe_headers to_lower headers (
      if includes_text kept_headers (to_lower name)
      then insert (to_lower name) value safe
      else safe)

unfoldable pub item_at : Items → ℕ → Option Json
item_at nil n = none
item_at (cons j xs) zero = some j
item_at (cons j xs) (suc n) = item_at xs n

unfoldable pub set_item : Items → ℕ → Json → Items
set_item nil n v = nil
set_item (cons j xs) zero v = cons v xs
set_item (cons j xs) (suc n) v = cons j (set_item xs n v)

abbrev if_some : {A B : Type 0} → Option A → (A → Option B) → Option B
if_some none f = none
if_some (some a) f = f a

-- `target[part]`, where it is an own property.
unfoldable pub member : Json → String → Option Json
unfolding property item_at index_of
member (object fs) part = property fs part
member (array xs) part = if_some (index_of part) (λ n. item_at xs n)
member _ part = none

-- An assignment to a property that is there.
unfoldable pub replace_member : Json → String → Json → Json
unfolding assign set_item index_of
replace_member (object fs) part v = object (assign fs part v)
replace_member (array xs) part v = elim (index_of part) [
  | none ↦ array xs
  | some n ↦ array (set_item xs n v)
]
replace_member j part v = j

abbrev pub is_object : Json → Bool
is_object (object fs) = true
is_object (array xs) = true
is_object _ = false

-- What the loop throws: a property of `null`, `in` on a value that is no object, or a length of an
-- array that is no number.
pub data Thrown : Type 0 where
  type_error range_error : Thrown

abbrev pub is_length : Json → String → Bool
is_length (array xs) last = str_eq last "length"
is_length _ last = false

-- `final in target`, and the assignment.
unfoldable pub redact_final : Json → String → Result Thrown Json
unfolding member replace_member
redact_final j last =
    if not (is_object j)
    then err type_error
    else if is_length j last
    then err range_error
    else if is_some (member j last)
    then ok (replace_member j last (string redacted))
    else ok j

abbrev pub is_null : Json → Bool
is_null null = true
is_null _ = false

abbrev pub map_result : {E A B : Type 0} → (A → B) → Result E A → Result E B
map_result f (ok a) = ok (f a)
map_result f (err e) = err e

-- The walk to the last part, in which only an object is a next target.
unfoldable pub redact_parts : Json → List String → String → Result Thrown Json
unfolding redact_final
redact_parts j [] last = redact_final j last
redact_parts j (p ∷ ps) last = if is_null j then err type_error else elim (member j p) [
  | none ↦ ok j
  | some c ↦
      let inner = redact_parts c ps last in
      if not (is_object c) then ok j else map_result (replace_member j p) inner
]

unfoldable pub redact_path : Json → String → Result Thrown Json
unfolding redact_parts split_dots strip_root unsnoc
redact_path j path =
    let parts = unsnoc (split_dots (strip_root path)) in redact_parts j parts.before parts.last

unfoldable pub redact_paths : Json → List String → Result Thrown Json
unfolding redact_path
redact_paths j [] = ok j
redact_paths j (p ∷ ps) = elim (redact_path j p) [ err e ↦ err e | ok j' ↦ redact_paths j' ps ]

-- The runtime's functions on texts: `JSON.parse`, the literal of a text, `toLowerCase`, and the
-- SHA-256 of a text.
pub record Runtime : Type 0 where
  pub parse_json : String → Option Json
  pub quote : String → String
  pub to_lower : String → String
  pub hash : String → ℕ

-- The units of UTF-16 that a character takes; `slice` at 16 KiB, where a pair that does not fit
-- is left out.
abbrev pub units : Char → ℕ
units c = if ltb (code c) 65_536 then 1 else 2

unfoldable pub take_units : ℕ → String → String
take_units n String.[] = String.[]
take_units n (String.◌∷◌ c s) =
    let rest = take_units (n - units c) s in
    if ltb n (units c) then String.[] else String.◌∷◌ c rest

abbrev excerpt_limit : ℕ
excerpt_limit = 16_384

module _ (rt : Runtime) where
  unfoldable pub body_excerpt : String → List String → String
  unfolding redact_paths take_units stringify
  body_excerpt body paths =
      let excerpt = take_units excerpt_limit body in
      elim (rt.parse_json excerpt) [
        | none ↦ excerpt
        | some parsed ↦ elim (redact_paths parsed paths) [
          | err e ↦ excerpt
          | ok safe ↦ stringify rt.quote safe
        ]
      ]

pub record Evidence : Type 0 where
  pub headers : List (String × String)
  pub body_excerpt : String
  pub body_hash : ℕ

unfoldable pub response_evidence :
    Runtime → List (String × String) → String → List String → Evidence
unfolding safe_headers
response_evidence rt headers body paths = record {
  headers = safe_headers rt.to_lower headers [];
  body_excerpt = body_excerpt rt body paths;
  body_hash = rt.hash body;
}
