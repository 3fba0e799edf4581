-- ===== src/Redaction/Laws.antt =====
-- What a redacted value of packages/redaction/src/index.ts holds.
use Prim.Native.String.{String, ◌++◌}
use text.Mathlib.TextLemmas.{nil-append, cons-append}
use text.Mathlib.Text.{◌==◌ as str_eq}
use partner_integration_reli.Prelude.{
  ℕ, ◌+◌, ◌-◌, ◌≡◌, ◌≤◌, ◌⊎◌, inl, inr, refl, false, ◌&&◌, ◌||◌, ltb, leb, map, none, [],
  Bool-cases, arith, ap,
}
use partner_integration_reli.Json.{
  Json, null, bool, number, string, array, object, Items, nil, cons, Fields, empty, field, assign,
}
use partner_integration_reli.Delivery.Evidence.{redacted, units, take_units, is_object}
use partner_integration_reli.Text.{includes_text}
use partner_integration_reli.Redaction.{
  Texts, HeaderOptions, is_sensitive, is_omitted, units_of, bounded, usual_max, add_header,
  headers_from, redact_headers, redact_property, redact_unknown, redact_items, redact_fields,
  is_left_out, keep_text, entries,
}

-- A property that is not sensitive, or shows only the mark of the redaction.
abbrev pub IsMasked : String → Json → Type 0
IsMasked name value = (is_sensitive name ≡ false) ⊎ (value ≡ string redacted)

-- At any depth, every property is masked, and no text is longer than the bound and its ellipsis.
unfoldable mutual
  pub IsSafe : Json → Type 0
  IsSafe null = Unit
  IsSafe (bool b) = Unit
  IsSafe (number n) = Unit
  IsSafe (string text) = units_of text ≤ usual_max + 1
  IsSafe (array xs) = ItemsSafe xs
  IsSafe (object fs) = FieldsSafe fs

  pub ItemsSafe : Items → Type 0
  ItemsSafe nil = Unit
  ItemsSafe (cons j xs) = IsSafe j × ItemsSafe xs

  pub FieldsSafe : Fields → Type 0
  FieldsSafe empty = Unit
  FieldsSafe (field name value fs) = IsMasked name value × (IsSafe value × FieldsSafe fs)

units_of-append : (s t : String) → units_of (s ++ t) ≡ units_of s + units_of t
unfolding units_of
units_of-append String.[] t =
    let same : units_of ("" ++ t) ≡ units_of t = ap units_of (nil-append t) in omega (arith, same)
units_of-append (String.◌∷◌ c s) t =
    let cut : units_of (String.◌∷◌ c s ++ t) ≡ units c + units_of (s ++ t) =
      ap units_of (cons-append c s t) in
    omega (arith, cut, units_of-append s t)

units_of-take : (n : ℕ) (s : String) → units_of (take_units n s) ≤ n
unfolding units_of take_units
units_of-take n String.[] = omega arith
units_of-take n (String.◌∷◌ c s) = elim (Bool-cases (ltb n (units c))) [
  | inl over ↦ rw over (omega arith)
  | inr fits ↦
      let enough : units c ≤ n = ground arith in
      rw fits (omega (arith, units_of-take (n - units c) s, enough))
]

bounded_length : (max : ℕ) (s : String) → units_of (bounded max s) ≤ max + 1
unfolding bounded
bounded_length max s = elim (Bool-cases (leb (units_of s) max)) [
  | inl short ↦ rw short (ground arith)
  | inr long ↦
      rw (long, units_of-append (take_units max s) "…") (omega (arith, units_of-take max s))
]

FieldsSafe-assign :
    (fs : Fields) (name : String) (value : Json)
    → IsMasked name value
    → IsSafe value
    → FieldsSafe fs
    → FieldsSafe (assign fs name value)
unfolding FieldsSafe assign
FieldsSafe-assign empty name value m s h = (m, (s, tt))
FieldsSafe-assign (field own old fs) name value m s h = elim (Bool-cases (str_eq own name)) [
  | inl same ↦ rw same (m, (s, h.1.1))
  | inr other ↦ rw other (h.0, (h.1.0, FieldsSafe-assign fs name value m s h.1.1))
]

marked_length : units_of redacted ≤ usual_max + 1
unfolding units_of
marked_length = omega arith

marked-IsSafe : IsSafe (string redacted)
unfolding IsSafe
marked-IsSafe = marked_length

omitted-IsSafe : IsSafe (string "[OMITTED]")
unfolding IsSafe units_of
omitted-IsSafe = omega arith

-- The mark may stand under any name.
FieldsSafe-mark :
    (fs : Fields) (name : String) → FieldsSafe fs → FieldsSafe (assign fs name (string redacted))
unfolding IsSafe
FieldsSafe-mark fs name h = FieldsSafe-assign fs name (string redacted) (inr refl) marked-IsSafe h

keep_text-Safe :
    (name : String) (value : Json) (result : Fields)
    → is_sensitive name ≡ false
    → FieldsSafe result
    → FieldsSafe (keep_text name value result)
unfolding IsSafe
keep_text-Safe name (string text) result e h =
    FieldsSafe-assign result name (string (bounded usual_max text)) (inl e)
      (bounded_length usual_max text) h
keep_text-Safe name null result e h = h
keep_text-Safe name (bool b) result e h = h
keep_text-Safe name (number n) result e h = h
keep_text-Safe name (array xs) result e h = h
keep_text-Safe name (object fs) result e h = h

module _ (rt : Texts) where
  add_header-Safe :
      (options : HeaderOptions) (name : String) (value : Json) (result : Fields)
      → FieldsSafe result
      → FieldsSafe (add_header rt options name value result)
  unfolding add_header
  add_header-Safe options name value result h = elim (Bool-cases (is_left_out options name)) [
    | inl out ↦ rw out h
    | inr kept ↦
        elim (Bool-cases
          (includes_text (map rt.to_lower options.sensitive_names) name || is_sensitive name)) [
            | inl hidden ↦ rw kept (rw hidden (FieldsSafe-mark result name h))
            | inr clear ↦
                let e : is_sensitive name ≡ false = ground (arith, clear) in
                rw kept (rw clear (keep_text-Safe name value result e h))
          ]
  ]

  headers_from-Safe :
      (options : HeaderOptions) (headers result : Fields)
      → FieldsSafe result
      → FieldsSafe (headers_from rt options headers result)
  unfolding headers_from
  headers_from-Safe options empty result h = h
  headers_from-Safe options (field name value headers) result h =
      headers_from-Safe options headers (add_header rt options (rt.to_lower name) value result)
        (add_header-Safe options (rt.to_lower name) value result h)

  redact_property-Masked :
      (key : String) (entry inner : Json)
      → IsSafe inner
      → IsMasked key (redact_property rt key entry inner)
        × IsSafe (redact_property rt key entry inner)
  unfolding redact_property redact_headers IsSafe
  redact_property-Masked key entry inner h = elim (Bool-cases (is_sensitive key)) [
    | inl hidden ↦ rw hidden (inr refl, marked-IsSafe)
    | inr clear ↦ elim (Bool-cases (str_eq key "headers" && is_object entry)) [
      | inl headers ↦ rw clear (
          rw headers (
            inl refl,
            headers_from-Safe (record { allowlist = none; sensitive_names = [] }) (entries rt entry)
                empty tt,
          ))
      | inr other ↦ elim (Bool-cases (is_omitted key)) [
        | inl omitted ↦ rw clear (rw other (rw omitted (inl refl, omitted-IsSafe)))
        | inr shown ↦ rw clear (rw other (rw shown (inl refl, h)))
      ]
    ]
  ]

  mutual
    unfolding redact_unknown IsSafe

    json-Safe : (value : Json) → IsSafe (redact_unknown rt value)
    json-Safe null = tt
    json-Safe (bool b) = tt
    json-Safe (number n) = tt
    json-Safe (string text) = bounded_length usual_max (rt.redact_text text)
    json-Safe (array xs) = items-Safe xs
    json-Safe (object fs) = fields-Safe fs empty tt

    items-Safe : (xs : Items) → ItemsSafe (redact_items rt xs)
    items-Safe nil = tt
    items-Safe (cons j xs) = (json-Safe j, items-Safe xs)

    fields-Safe : (fs result : Fields) → FieldsSafe result → FieldsSafe (redact_fields rt fs result)
    fields-Safe empty result h = h
    fields-Safe (field key entry fs) result h =
        let safe = redact_property-Masked key entry (redact_unknown rt entry) (json-Safe entry) in
        fields-Safe fs _ (FieldsSafe-assign result key _ safe.0 safe.1 h)

  -- Whatever `redactText` does, what `redactUnknown` makes of a value, and `redactHeaders` of
  -- headers under any options, shows at no depth a property with a sensitive name, and no text
  -- longer than 2048 units and an ellipsis.
  pub redact_unknown-Safe :
      (value : Json) (headers : Fields) (options : HeaderOptions)
      → IsSafe (redact_unknown rt value) × IsSafe (object (redact_headers rt headers options))
  unfolding IsSafe redact_headers
  redact_unknown-Safe value headers options =
      (json-Safe value, headers_from-Safe options headers empty tt)
