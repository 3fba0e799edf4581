-- ===== src/Json/Laws.antt =====
-- The property of an object after an assignment.
use Prim.Native.String.{String}
use text.Mathlib.Text.{◌==◌ as str_eq}
use text.Mathlib.TextEquality.{eq_iff}
use text.Mathlib.TextPositions.{eq_refl}
use partner_integration_reli.Prelude.{◌≡◌, ◌∙◌, refl, some, if◌then◌else◌, arith}
use partner_integration_reli.Json.{Json, Fields, empty, field, property, assign}

pub property-assign :
    (fs : Fields) (k j : String) (v : Json)
    → property (assign fs k v) j ≡ (if str_eq k j then some v else property fs j)
unfolding property assign
property-assign empty k j v = refl
property-assign (field i w fs) k j v =
    ground (arith, eq_iff k j, eq_iff i k, eq_iff i j, property-assign fs k j v)

pub property-assign_same :
    (fs : Fields) (k : String) (v : Json) → property (assign fs k v) k ≡ some v
property-assign_same fs k v = property-assign fs k k v ∙ rw (eq_refl k) refl
