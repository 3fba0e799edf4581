-- ===== src/Transformation/Path.antt =====
-- `readPath` and `writePath` of packages/transformation/src/index.ts, on the segments of a path.
pub mod Laws
pub mod Targets
use Prim.Native.String.{String}
use partner_integration_reli.Prelude.{Option, none, some, List, [], ◌∷◌}
use partner_integration_reli.Json.{
  Json, null, bool, number, string, array, object, Fields, empty, property, assign,
}
use partner_integration_reli.Json.Path.{split_dots, drop_two, Parts, unsnoc}

unfoldable pub path_segments : String → List String
unfolding split_dots drop_two
path_segments path = split_dots (drop_two path)

-- The loop of `readPath`: a value that is missing or is no object ends it.
unfoldable pub read_segments : Option Json → List String → Option Json
read_segments current [] = current
read_segments (some (object fs)) (segment ∷ segments) = read_segments (property fs segment) segments
read_segments _ (segment ∷ segments) = none

unfoldable pub read_path : Json → String → Option Json
unfolding read_segments path_segments
read_path value path = read_segments (some value) (path_segments path)

-- `current[part]` as an object to go on with: a new one where it is missing; any other value is a
-- conflict.
unfoldable pub container : Option Json → Option Fields
container none = some empty
container (some (object fields)) = some fields
container (some _) = none

abbrev pub map_option : {A B : Type 0} → (A → B) → Option A → Option B
map_option f none = none
map_option f (some a) = some (f a)

unfoldable pub write_parts : Fields → List String → String → Json → Option Fields
unfolding container
write_parts output [] last value = some (assign output last value)
write_parts output (part ∷ parts) last value = elim (container (property output part)) [
  | none ↦ none
  | some fields ↦
      map_option (λ inner. assign output part (object inner)) (write_parts fields parts last value)
]

unfoldable pub write_path : Fields → String → Json → Option Fields
unfolding write_parts path_segments unsnoc
write_path output path value =
    let parts = unsnoc (path_segments path) in write_parts output parts.before parts.last value
