-- ===== src/Snapshot.antt =====
-- The recovery snapshots of packages/recovery/src/index.ts: what a snapshot refuses to hold, and the
-- checks of a restore before it writes.
pub mod Laws
pub mod Names
pub mod Exempt
pub mod Restore
use Prim.Native.String.{String, ◌++◌}
use partner_integration_reli.Prelude.{
  ℕ, ◌+◌, not, Bool, true, false, ◌&&◌, ◌||◌, Option, none, some, List, [], ◌∷◌, if◌then◌else◌,
}
use partner_integration_reli.Text.{
  has_word_any_case, any_word, includes_text, str_eq, has_prefix, codes,
}
use partner_integration_reli.Json.{
  Json, null, bool, number, string, array, object, Items, nil, cons, Fields, empty, field, property,
}
use partner_integration_reli.Redaction.{is_word_any_case}

-- `credentialKey` and `referenceKey`, with their optional characters written out.
unfoldable pub is_credential : String → Bool
is_credential key = any_word has_word_any_case key (
    "secret" ∷ "password" ∷ "accesstoken" ∷ "access_token" ∷ "access-token" ∷ "refreshtoken"
    ∷ "refresh_token" ∷ "refresh-token" ∷ "privatekey" ∷ "private_key" ∷ "private-key" ∷ "apikey"
    ∷ "api_key" ∷ "api-key" ∷ [])

unfoldable pub is_reference : String → Bool
is_reference key =
    any_word has_word_any_case key
      ("secretreference" ∷ "secretname" ∷ "secretid" ∷ "secretversion" ∷ "parametername" ∷ [])

abbrev pub header_redacted : String → Json → Bool
header_redacted name (string text) = not (is_credential name) || str_eq text "[REDACTED]"
header_redacted name _ = false

abbrev pub headers_redacted : Fields → Bool
headers_redacted empty = true
headers_redacted (field name value fs) = header_redacted name value && headers_redacted fs

unfoldable pub has_only_redacted_sensitive_headers : Json → Bool
has_only_redacted_sensitive_headers (object fs) = headers_redacted fs
has_only_redacted_sensitive_headers _ = false

abbrev pub keys_within : List String → Fields → Bool
keys_within names empty = true
keys_within names (field key value fs) = includes_text names key && keys_within names fs

abbrev pub is_text : Option Json → Bool
is_text (some (string text)) = true
is_text _ = false

abbrev is_text_or_undefined : Option Json → Bool
is_text_or_undefined none = true
is_text_or_undefined (some (string text)) = true
is_text_or_undefined (some _) = false

abbrev pub is_state : Option Json → Bool
is_state (some (string text)) = str_eq text "active" || str_eq text "grace"
is_state _ = false

abbrev pub is_logical_reference : Option Json → Bool
is_logical_reference (some (object fs)) =
    keys_within ("name" ∷ "version" ∷ []) fs
    && (is_text (property fs "name") && is_text (property fs "version"))
is_logical_reference _ = false

abbrev pub is_logical_version : Json → Bool
is_logical_version (object fs) =
    is_logical_reference (property fs "reference")
    && (keys_within ("reference" ∷ "state" ∷ "activatedAt" ∷ "graceExpiresAt" ∷ []) fs
        && (is_state (property fs "state")
            && (is_text (property fs "activatedAt")
                && is_text_or_undefined (property fs "graceExpiresAt"))))
is_logical_version _ = false

abbrev pub all_logical : Items → Bool
all_logical nil = true
all_logical (cons entry xs) = is_logical_version entry && all_logical xs

unfoldable pub has_only_logical_secret_versions : Json → Bool
unfolding property
has_only_logical_secret_versions (array xs) = all_logical xs
has_only_logical_secret_versions _ = false

-- What `assertSnapshotSafe` throws, with the path it names.
pub data Refusal : Type 0 where
  malformed_versions credential_field : String → Refusal

abbrev pub is_redacted_headers : String → Json → Bool
is_redacted_headers key child =
    is_word_any_case key "requestheadersredacted" && has_only_redacted_sensitive_headers child

abbrev pub is_versions : String → Bool
is_versions key = is_word_any_case key "secretversion" || is_word_any_case key "secretversions"

abbrev pub is_credential_shaped : String → Bool
is_credential_shaped key = is_credential key && not (is_reference key)

-- One property, where `inner` is the refusal of its value.
unfoldable pub field_refusal : String → String → Json → Option Refusal → Option Refusal
field_refusal path key child inner =
    if is_redacted_headers key child
    then none
    else if is_versions key
    then (if has_only_logical_secret_versions child
        then none
        else some (malformed_versions (path ++ ("." ++ key))))
    else if is_credential_shaped key
    then some (credential_field (path ++ ("." ++ key)))
    else inner

abbrev pub or_else : Option Refusal → Option Refusal → Option Refusal
or_else (some r) other = some r
or_else none other = other

-- `assertSnapshotSafe`: the first refusal; `show` prints an index.
module _ (show : ℕ → String) where
  unfoldable mutual
    unfolding field_refusal

    pub refusal : String → Json → Option Refusal
    refusal path (array xs) = items_refusal path 0 xs
    refusal path (object fs) = fields_refusal path fs
    refusal path null = none
    refusal path (bool b) = none
    refusal path (number n) = none
    refusal path (string s) = none

    pub items_refusal : String → ℕ → Items → Option Refusal
    items_refusal path n nil = none
    items_refusal path n (cons entry xs) =
        or_else (refusal (path ++ ("[" ++ (show n ++ "]"))) entry) (items_refusal path (n + 1) xs)

    pub fields_refusal : String → Fields → Option Refusal
    fields_refusal path empty = none
    fields_refusal path (field key child fs) =
        or_else (field_refusal path key child (refusal (path ++ ("." ++ key)) child))
          (fields_refusal path fs)
