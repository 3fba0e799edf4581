-- ===== src/Delivery/Evidence/Hidden.antt =====
-- A redaction that succeeds leaves nothing of a response at its paths.
use Prim.Native.String.{String}
use text.Mathlib.Text.{◌==◌ as str_eq}
use text.Mathlib.TextPositions.{eq_refl}
use partner_integration_reli.Prelude.{
  ℕ, zero, suc, ◌≡◌, ◌⊎◌, refl, Option, none, some, List, [], ◌∷◌, if◌then◌else◌, ok, Bool-cases,
  Option-cases, Result-cases, inl, inr,
}
use partner_integration_reli.Json.{
  Json, null, bool, number, string, array, object, Items, nil, cons, Fields, empty, field, property,
  assign,
}
use partner_integration_reli.Text.{index_of}
use partner_integration_reli.Delivery.Evidence.{
  item_at, set_item, member, replace_member, is_object, is_null, is_length, redacted, redact_final,
  redact_parts,
}

-- The value that a path leads to, through objects only.
unfoldable pub value_at : Json → List String → String → Option Json
unfolding member
value_at j [] last = member j last
value_at j (p ∷ ps) last = elim (member j p) [
  | none ↦ none
  | some c ↦ let rest = value_at c ps last in if is_object c then rest else none
]

property-assign : (fs : Fields) (k : String) (v : Json) → property (assign fs k v) k ≡ some v
unfolding property assign
property-assign empty k v = rw (eq_refl k) refl
property-assign (field j w fs) k v = elim (Bool-cases (str_eq j k)) [
  | inl same ↦ rw same (rw (eq_refl k) refl)
  | inr other ↦ rw other (rw other (property-assign fs k v))
]

item_at-set_item :
    (xs : Items) (n : ℕ) (v c : Json) → item_at xs n ≡ some c → item_at (set_item xs n v) n ≡ some v
unfolding item_at set_item
item_at-set_item nil n v c h = cc
item_at-set_item (cons j xs) zero v c h = refl
item_at-set_item (cons j xs) (suc n) v c h = item_at-set_item xs n v c h

member-replace_member :
    (j : Json) (p : String) (v c : Json)
    → member j p ≡ some c
    → member (replace_member j p v) p ≡ some v
unfolding member replace_member
member-replace_member (object fs) p v c h = property-assign fs p v
member-replace_member (array xs) p v c h = elim (Option-cases (index_of p)) [
  | inl e ↦ let g = rw (e, member) at h in cc
  | inr (n, e) ↦
      let g = rw (e, member) at h in
      rw (e, replace_member) (rw (e, member) (item_at-set_item xs n v c g))
]
member-replace_member null p v c h = cc
member-replace_member (bool b) p v c h = cc
member-replace_member (number n) p v c h = cc
member-replace_member (string s) p v c h = cc

-- Nothing is there, or the redaction.
abbrev pub IsHidden : Option Json → Type 0
IsHidden o = (o ≡ none) ⊎ (o ≡ some (string redacted))

final-Hidden :
    (j : Json) (last : String) (j' : Json) → redact_final j last ≡ ok j' → IsHidden (member j' last)
unfolding redact_final
final-Hidden j last j' h = elim (Bool-cases (is_object j)) [
  | inr opaque ↦ let g = rw (opaque, redact_final) at h in cc
  | inl open_value ↦ elim (Bool-cases (is_length j last)) [
    | inl length ↦ let g = rw length at (rw (open_value, redact_final) at h) in cc
    | inr other ↦ elim (Option-cases (member j last)) [
      | inl e ↦
          let g = rw e at (rw other at (rw (open_value, redact_final) at h)) in
          let same : j ≡ j' = cc in inl (rw same at e)
      | inr (c, e) ↦
          let g = rw e at (rw other at (rw (open_value, redact_final) at h)) in
          let same : replace_member j last (string redacted) ≡ j' = cc in
          inr (rw same at (member-replace_member j last (string redacted) c e))
    ]
  ]
]

below :
    (c : Json) (ps : List String) (last : String)
    → IsHidden (value_at c ps last)
    → IsHidden (if is_object c then value_at c ps last else none)
below c ps last h = elim (Bool-cases (is_object c)) [
  | inl open_value ↦ rw open_value h
  | inr opaque ↦ rw opaque (inl refl)
]

-- A redaction that does not throw leaves at its path nothing, or the mark of the redaction.
pub redact_parts-Hidden :
    (j : Json) (ps : List String) (last : String) (j' : Json)
    → redact_parts j ps last ≡ ok j'
    → IsHidden (value_at j' ps last)
unfolding redact_parts value_at
redact_parts-Hidden j [] last j' h = final-Hidden j last j' h
redact_parts-Hidden j (p ∷ ps) last j' h = elim (Bool-cases (is_null j)) [
  | inl gone ↦ let g = rw (gone, redact_parts) at h in cc
  | inr there ↦ elim (Option-cases (member j p)) [
    | inl e ↦
        let g = rw e at (rw (there, redact_parts) at h) in
        let same : j ≡ j' = cc in rw (rw same at e, value_at) (inl refl)
    | inr (c, e) ↦ elim (Bool-cases (is_object c)) [
      | inr opaque ↦
          let g = rw opaque at (rw e at (rw (there, redact_parts) at h)) in
          let same : j ≡ j' = cc in rw (rw same at e, value_at) (rw opaque (inl refl))
      | inl open_value ↦ elim (Result-cases (redact_parts c ps last)) [
        | inl (x, inner) ↦
            let g = rw inner at (rw open_value at (rw e at (rw (there, redact_parts) at h))) in cc
        | inr (c', inner) ↦
            let g = rw inner at (rw open_value at (rw e at (rw (there, redact_parts) at h))) in
            let same : replace_member j p c' ≡ j' = cc in
            rw (rw same at (member-replace_member j p c' c e), value_at)
              (below c' ps last (redact_parts-Hidden c ps last c' inner))
      ]
    ]
  ]
]
