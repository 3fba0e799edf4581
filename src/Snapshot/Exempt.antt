-- ===== src/Snapshot/Exempt.antt =====
-- The two kinds of values that `assertSnapshotSafe` of packages/recovery/src/index.ts does not walk.
use Prim.Native.String.{String}
use text.Mathlib.Text.{◌==◌ as str_eq}
use text.Mathlib.TextEquality.{eq_iff}
use partner_integration_reli.Prelude.{
  ◌≡◌, ◌⊎◌, inl, inr, refl, Bool, true, false, not, ◌&&◌, ◌||◌, Option, none, some, List, [], ◌∷◌,
  All, Bool-cases, arith,
}
use partner_integration_reli.Text.{includes_text}
use partner_integration_reli.Json.{
  Json, null, bool, number, string, array, object, Items, nil, cons, Fields, empty, field, property,
}
use partner_integration_reli.Snapshot.{
  is_credential, header_redacted, headers_redacted, has_only_redacted_sensitive_headers,
  keys_within, is_logical_reference, is_logical_version, all_logical,
  has_only_logical_secret_versions,
}
use partner_integration_reli.Snapshot.Names.{HoldsWord, credential_words, plain_name}

-- Headers that are texts, in clear only under a name that holds no word for a credential.
abbrev HeadersRedacted : Fields → Type 0
HeadersRedacted empty = Unit
HeadersRedacted (field name value fs) =
    ((text : String) × (value ≡ string text)
      × (All (λ word. ¬ HoldsWord name word) credential_words ⊎ (text ≡ "[REDACTED]")))
    × HeadersRedacted fs

abbrev pub IsRedactedHeaders : Json → Type 0
IsRedactedHeaders value = (fs : Fields) × (value ≡ object fs) × HeadersRedacted fs

-- A name of a list.
abbrev IsAmong : String → List String → Type 0
IsAmong key [] = ⊥
IsAmong key (name ∷ names) = (name ≡ key) ⊎ IsAmong key names

-- Only these names are properties.
abbrev OnlyKeys : List String → Fields → Type 0
OnlyKeys names empty = Unit
OnlyKeys names (field key value fs) = IsAmong key names × OnlyKeys names fs

-- An object with a reference, where neither has a property but those of a version and of a reference
-- by name and version.
abbrev IsLogicalVersion : Json → Type 0
IsLogicalVersion entry =
    (fs : Fields) × (rs : Fields) × (entry ≡ object fs)
    × (property fs "reference" ≡ some (object rs))
    × OnlyKeys ("reference" ∷ "state" ∷ "activatedAt" ∷ "graceExpiresAt" ∷ []) fs
    × OnlyKeys ("name" ∷ "version" ∷ []) rs

abbrev AllLogical : Items → Type 0
AllLogical nil = Unit
AllLogical (cons entry xs) = IsLogicalVersion entry × AllLogical xs

abbrev pub IsLogicalVersions : Json → Type 0
IsLogicalVersions value = (xs : Items) × (value ≡ array xs) × AllLogical xs

header-IsRedacted :
    (name : String) (value : Json)
    → header_redacted name value ≡ true
    → (text : String) × (value ≡ string text)
      × (All (λ word. ¬ HoldsWord name word) credential_words ⊎ (text ≡ "[REDACTED]"))
header-IsRedacted name (string text) h = (
  text,
  refl,
  elim (Bool-cases (is_credential name)) [
    | inr plain ↦ inl (plain_name name plain)
    | inl named ↦ inr ((eq_iff text "[REDACTED]").0 (second _ _ h named))
  ],
)
  where
    second : (a b : Bool) → (not a || b) ≡ true → a ≡ true → b ≡ true
    second a b h e = ground arith
header-IsRedacted name null h = cc
header-IsRedacted name (bool b) h = cc
header-IsRedacted name (number n) h = cc
header-IsRedacted name (array xs) h = cc
header-IsRedacted name (object fs) h = cc

both : (a b : Bool) → (a && b) ≡ true → (a ≡ true) × (b ≡ true)
both true b h = (refl, h)
both false b h = cc

all_headers-Redacted : (fs : Fields) → headers_redacted fs ≡ true → HeadersRedacted fs
all_headers-Redacted empty h = tt
all_headers-Redacted (field name value fs) h =
    let p = both (header_redacted name value) (headers_redacted fs) h in
    (header-IsRedacted name value p.0, all_headers-Redacted fs p.1)

pub headers-IsRedactedHeaders :
    (value : Json) → has_only_redacted_sensitive_headers value ≡ true → IsRedactedHeaders value
unfolding has_only_redacted_sensitive_headers
headers-IsRedactedHeaders (object fs) h = (fs, refl, all_headers-Redacted fs h)
headers-IsRedactedHeaders null h = cc
headers-IsRedactedHeaders (bool b) h = cc
headers-IsRedactedHeaders (number n) h = cc
headers-IsRedactedHeaders (string s) h = cc
headers-IsRedactedHeaders (array xs) h = cc

includes-IsAmong :
    (key : String) (names : List String) → includes_text names key ≡ true → IsAmong key names
includes-IsAmong key [] h = cc
includes-IsAmong key (name ∷ names) h = elim (Bool-cases (str_eq name key)) [
  | inl same ↦ inl ((eq_iff name key).0 same)
  | inr other ↦ inr (includes-IsAmong key names (ground (arith, h, other)))
]

keys-Only : (names : List String) (fs : Fields) → keys_within names fs ≡ true → OnlyKeys names fs
keys-Only names empty h = tt
keys-Only names (field key value fs) h =
    let p = both (includes_text names key) (keys_within names fs) h in
    (includes-IsAmong key names p.0, keys-Only names fs p.1)

reference-Only :
    (o : Option Json)
    → is_logical_reference o ≡ true
    → (rs : Fields) × (o ≡ some (object rs)) × OnlyKeys ("name" ∷ "version" ∷ []) rs
reference-Only (some (object rs)) h =
    (rs, refl, keys-Only ("name" ∷ "version" ∷ []) rs (both _ _ h).0)
reference-Only none h = cc
reference-Only (some null) h = cc
reference-Only (some (bool b)) h = cc
reference-Only (some (number n)) h = cc
reference-Only (some (string s)) h = cc
reference-Only (some (array xs)) h = cc

version-IsLogicalVersion : (entry : Json) → is_logical_version entry ≡ true → IsLogicalVersion entry
version-IsLogicalVersion (object fs) h =
    let p = both (is_logical_reference (property fs "reference")) _ h in
    let (rs, at_reference, only) = reference-Only (property fs "reference") p.0 in
    (
      fs,
      rs,
      refl,
      at_reference,
      keys-Only ("reference" ∷ "state" ∷ "activatedAt" ∷ "graceExpiresAt" ∷ []) fs (both _ _ p.1).0,
      only,
    )
version-IsLogicalVersion null h = cc
version-IsLogicalVersion (bool b) h = cc
version-IsLogicalVersion (number n) h = cc
version-IsLogicalVersion (string s) h = cc
version-IsLogicalVersion (array xs) h = cc

all_logical-Logical : (xs : Items) → all_logical xs ≡ true → AllLogical xs
all_logical-Logical nil h = tt
all_logical-Logical (cons entry xs) h =
    let p = both (is_logical_version entry) (all_logical xs) h in
    (version-IsLogicalVersion entry p.0, all_logical-Logical xs p.1)

pub versions-IsLogicalVersions :
    (value : Json) → has_only_logical_secret_versions value ≡ true → IsLogicalVersions value
unfolding has_only_logical_secret_versions
versions-IsLogicalVersions (array xs) h = (xs, refl, all_logical-Logical xs h)
versions-IsLogicalVersions null h = cc
versions-IsLogicalVersions (bool b) h = cc
versions-IsLogicalVersions (number n) h = cc
versions-IsLogicalVersions (string s) h = cc
versions-IsLogicalVersions (object fs) h = cc
