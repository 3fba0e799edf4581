-- ===== src/Transformation/Definition.antt =====
-- A definition as the schema of packages/contracts/src/index.ts parses it, and the check on its
-- targets.
use Prim.Native.Char.{Char, code}
use Prim.Native.String.{String, ◌++◌}
use text.Mathlib.Text.{starts_with}
use partner_integration_reli.Prelude.{
  Bool, true, false, not, ◌&&◌, ◌||◌, Option, List, [], ◌∷◌, leb, ◌==◌,
}
use partner_integration_reli.Text.{str_eq}
use partner_integration_reli.Json.{Json, Fields}

-- The schema asks for one of the two.
pub record Operand : Type 0 where
  pub source : Option String
  pub literal : Option Json

pub data TextTransform : Type 0 where
  uppercase lowercase upper_snake iso_date : TextTransform

pub data Kind : Type 0 where
  direct : Operand → Option TextTransform → Kind
  concat : List Operand → Option String → Kind
  enum_map : String → Fields → Option Json → Kind

-- `required` is false where it is absent.
pub record Mapping : Type 0 where
  pub target : String
  pub required : Bool
  pub kind : Kind

abbrev is_path_character : Char → Bool
is_path_character c =
    leb b'A' (code c) && leb (code c) b'Z'
    || leb b'a' (code c) && leb (code c) b'z'
    || leb b'0' (code c) && leb (code c) b'9'
    || code c == b'_'
    || code c == b'.'

all_path_characters : String → Bool
all_path_characters String.[] = true
all_path_characters (String.◌∷◌ c s) = is_path_character c && all_path_characters s

-- `/^\$\.[A-Za-z0-9_.]+$/`.
unfoldable pub is_json_path : String → Bool
unfolding all_path_characters
is_json_path String.[] = false
is_json_path (String.◌∷◌ c String.[]) = false
is_json_path (String.◌∷◌ c (String.◌∷◌ d String.[])) = false
is_json_path (String.◌∷◌ c (String.◌∷◌ d (String.◌∷◌ e s))) =
    code c == b'$' && (code d == b'.' && all_path_characters (String.◌∷◌ e s))

-- Equal, or one below the other.
unfoldable pub overlaps : String → String → Bool
overlaps target other =
    str_eq other target || starts_with other (target ++ ".") || starts_with target (other ++ ".")

unfoldable pub overlaps_any : String → List String → Bool
unfolding overlaps
overlaps_any target [] = false
overlaps_any target (other ∷ targets) = overlaps target other || overlaps_any target targets

-- Every target is a path.
unfoldable pub all_paths : List Mapping → Bool
unfolding is_json_path
all_paths [] = true
all_paths (m ∷ mappings) = is_json_path m.target && all_paths mappings

-- The refinement over the mappings, with the targets before.
unfoldable pub unique_targets : List Mapping → List String → Bool
unfolding overlaps_any
unique_targets [] targets = true
unique_targets (m ∷ mappings) targets =
    not (overlaps_any m.target targets) && unique_targets mappings (m.target ∷ targets)
