-- ===== src/Snapshot/Laws.antt =====
-- What the recovery snapshots of packages/recovery/src/index.ts never hold.
use Prim.Native.String.{String}
use partner_integration_reli.Prelude.{
  not, ◌&&◌, ℕ, ◌+◌, ◌≡◌, ◌⊎◌, inl, inr, refl, Bool, true, false, Option, none, some, if◌then◌else◌,
  Bool-cases, arith,
}
use partner_integration_reli.Json.{
  Json, null, bool, number, string, array, object, Items, nil, cons, Fields, empty, field,
}
use partner_integration_reli.Snapshot.Names.{
  IsHarmless, no_credential-IsHarmless, reference-IsHarmless,
}
use partner_integration_reli.Snapshot.Exempt.{
  IsRedactedHeaders, headers-IsRedactedHeaders, IsLogicalVersions, versions-IsLogicalVersions,
}
use partner_integration_reli.Snapshot.{is_credential}
use partner_integration_reli.Snapshot.{
  Refusal, is_credential_shaped, is_redacted_headers, is_versions, field_refusal, or_else, refusal,
  items_refusal, fields_refusal,
}

-- The property `key` of value `child` stands in a value at some depth, where the walk does not
-- enter the headers of a request that are redacted, nor a list of secret versions.
mutual
  pub data Holds (key : String) (child : Json) : Json → Type 0 where
    in_array : {xs : Items} → ItemHolds key child xs → Holds key child (array xs)
    in_object : {fs : Fields} → FieldHolds key child fs → Holds key child (object fs)

  pub data ItemHolds (key : String) (child : Json) : Items → Type 0 where
    in_first : {j : Json} {xs : Items} → Holds key child j → ItemHolds key child (cons j xs)
    in_later : {j : Json} {xs : Items} → ItemHolds key child xs → ItemHolds key child (cons j xs)

  pub data FieldHolds (key : String) (child : Json) : Fields → Type 0 where
    here : {fs : Fields} → FieldHolds key child (field key child fs)
    below :
        {own : String} {value : Json} {fs : Fields}
        → is_redacted_headers own value ≡ false
        → is_versions own ≡ false
        → Holds key child value
        → FieldHolds key child (field own value fs)
    later :
        {own : String} {value : Json} {fs : Fields}
        → FieldHolds key child fs
        → FieldHolds key child (field own value fs)

or_else-none : (a b : Option Refusal) → or_else a b ≡ none → (a ≡ none) × (b ≡ none)
or_else-none none b h = (refl, h)
or_else-none (some r) b h = cc

logical-none : (b : Bool) (r : Refusal) → (if b then none else some r) ≡ none → b ≡ true
logical-none b r h = ground arith

shape-none :
    (b : Bool) (r : Refusal) (inner : Option Refusal)
    → (if b then some r else inner) ≡ none
    → b ≡ false
shape-none b r inner h = ground arith

shape-inner :
    (b : Bool) (r : Refusal) (inner : Option Refusal)
    → (if b then some r else inner) ≡ none
    → inner ≡ none
shape-inner b r inner h = ground arith

second : (a b : Bool) → (a && b) ≡ true → b ≡ true
second a b h = ground arith

-- Headers of which only the harmless ones are in clear, logical secret versions, or a name of no
-- credential.
abbrev pub IsAdmissible : String → Json → Type 0
IsAdmissible key child = IsRedactedHeaders child ⊎ (IsLogicalVersions child ⊎ IsHarmless key)

shape-IsHarmless : (key : String) → is_credential_shaped key ≡ false → IsHarmless key
shape-IsHarmless key h = elim (Bool-cases (is_credential key)) [
  | inr plain ↦ no_credential-IsHarmless key plain
  | inl named ↦ reference-IsHarmless key (not_and _ _ h named)
]
  where
    not_and : (a b : Bool) → (a && not b) ≡ false → a ≡ true → b ≡ true
    not_and a b h e = ground arith

-- A property that passes is admissible.
field-Admissible :
    (path key : String) (child : Json) (inner : Option Refusal)
    → field_refusal path key child inner ≡ none
    → IsAdmissible key child
unfolding field_refusal
field-Admissible path key child inner h = elim (Bool-cases (is_redacted_headers key child)) [
  | inl headers ↦ inl (headers-IsRedactedHeaders child (second _ _ headers))
  | inr other ↦ elim (Bool-cases (is_versions key)) [
    | inl versions ↦
        let g = rw versions at (rw (other, field_refusal) at h) in
        inr (inl (versions-IsLogicalVersions child (logical-none _ _ g)))
    | inr none_of_them ↦
        let g = rw none_of_them at (rw (other, field_refusal) at h) in
        inr (inr (shape-IsHarmless key (shape-none _ _ _ g)))
  ]
]

-- Below a property that the walk enters and that passes, the value passes.
field-below :
    (path key : String) (child : Json) (inner : Option Refusal)
    → is_redacted_headers key child ≡ false
    → is_versions key ≡ false
    → field_refusal path key child inner ≡ none
    → inner ≡ none
unfolding field_refusal
field-below path key child inner other none_of_them h =
    let g = rw none_of_them at (rw (other, field_refusal) at h) in shape-inner _ _ _ g

module _ (show : ℕ → String) where
  mutual
    unfolding refusal

    value-Admissible :
        (path : String) (value : Json) (key : String) (child : Json)
        → refusal show path value ≡ none
        → Holds key child value
        → IsAdmissible key child
    value-Admissible path (array xs) key child h (in_array p) =
        items-Admissible path 0 xs key child h p
    value-Admissible path (object fs) key child h (in_object p) =
        fields-Admissible path fs key child h p
    value-Admissible path null key child h p = elim p [ ]
    value-Admissible path (bool b) key child h p = elim p [ ]
    value-Admissible path (number n) key child h p = elim p [ ]
    value-Admissible path (string s) key child h p = elim p [ ]

    items-Admissible :
        (path : String) (n : ℕ) (xs : Items) (key : String) (child : Json)
        → items_refusal show path n xs ≡ none
        → ItemHolds key child xs
        → IsAdmissible key child
    items-Admissible path n nil key child h p = elim p [ ]
    items-Admissible path n (cons j xs) key child h (in_first p) =
        value-Admissible _ j key child (or_else-none _ _ h).0 p
    items-Admissible path n (cons j xs) key child h (in_later p) =
        items-Admissible path (n + 1) xs key child (or_else-none _ _ h).1 p

    fields-Admissible :
        (path : String) (fs : Fields) (key : String) (child : Json)
        → fields_refusal show path fs ≡ none
        → FieldHolds key child fs
        → IsAdmissible key child
    fields-Admissible path empty key child h p = elim p [ ]
    fields-Admissible path (field own value fs) key child h here =
        field-Admissible path own value _ (or_else-none _ _ h).0
    fields-Admissible path (field own value fs) key child h (below other versions p) =
        value-Admissible _ value key child
          (field-below path own value _ other versions (or_else-none _ _ h).0) p
    fields-Admissible path (field own value fs) key child h (later p) =
        fields-Admissible path fs key child (or_else-none _ _ h).1 p
