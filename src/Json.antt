-- ===== src/Json.antt =====
-- JSON values (`JsonValue` and `JsonObject` of packages/domain/src/index.ts).
pub mod Laws
pub mod Path
pub mod Print
use Prim.Native.String.{String}
use text.Mathlib.Text.{◌==◌ as str_eq}
use partner_integration_reli.Prelude.{Bool, Option, none, some, if◌then◌else◌}

-- An object lists its properties in order; a number is kept by its text.
mutual
  pub data Json : Type 0 where
    null : Json
    bool : Bool → Json
    number : String → Json
    string : String → Json
    array : Items → Json
    object : Fields → Json

  pub data Items : Type 0 where
    nil : Items
    cons : Json → Items → Items

  pub data Fields : Type 0 where
    empty : Fields
    field : String → Json → Fields → Fields

-- `{}`.
abbrev pub empty_object : Json
empty_object = object empty

-- The own property of an object under a name, and an assignment to it, which keeps the place of a
-- property that is there.
unfoldable pub property : Fields → String → Option Json
property empty k = none
property (field j v fs) k = if str_eq j k then some v else property fs k

unfoldable pub assign : Fields → String → Json → Fields
assign empty k v = field k v empty
assign (field j w fs) k v = if str_eq j k then field k v fs else field j w (assign fs k v)
