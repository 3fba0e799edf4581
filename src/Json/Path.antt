-- ===== src/Json/Path.antt =====
-- The paths `$.a.b` of mappings and redactions: `split(".")`, and the parts before the last one.
pub mod Split
use Prim.Native.Char.{Char, code}
use Prim.Native.String.{String}
use partner_integration_reli.Prelude.{◌==◌, ◌&&◌, Bool, List, [], ◌∷◌, if◌then◌else◌}

unfoldable pub add_head : Char → List String → List String
add_head c [] = String.◌∷◌ c String.[] ∷ []
add_head c (w ∷ ws) = String.◌∷◌ c w ∷ ws

unfoldable pub split_dots : String → List String
unfolding add_head
split_dots String.[] = String.[] ∷ []
split_dots (String.◌∷◌ c s) =
    let rest = split_dots s in if code c == b'.' then String.[] ∷ rest else add_head c rest

-- `path.slice(2)`; the code points of a path are those of its characters.
unfoldable pub drop_two : String → String
drop_two String.[] = String.[]
drop_two (String.◌∷◌ c String.[]) = String.[]
drop_two (String.◌∷◌ c (String.◌∷◌ d s)) = s

is_dollar_dot : Char → Char → Bool
is_dollar_dot c d = code c == b'$' && code d == b'.'

-- `path.replace(/^\$\./, "")`.
unfoldable pub strip_root : String → String
unfolding is_dollar_dot
strip_root String.[] = String.[]
strip_root (String.◌∷◌ c String.[]) = String.◌∷◌ c String.[]
strip_root (String.◌∷◌ c (String.◌∷◌ d s)) =
    if is_dollar_dot c d then s else String.◌∷◌ c (String.◌∷◌ d s)

-- The parts of a path, the last one apart.
pub record Parts : Type 0 where
  pub before : List String
  pub last : String

-- `parts.slice(0, -1)` and `parts.at(-1) ?? ""`.
unfoldable pub unsnoc : List String → Parts
unsnoc [] = record { before = []; last = "" }
unsnoc (p ∷ []) = record { before = []; last = p }
unsnoc (p ∷ q ∷ ps) =
    let rest = unsnoc (q ∷ ps) in record { before = p ∷ rest.before; last = rest.last }
