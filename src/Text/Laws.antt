-- ===== src/Text/Laws.antt =====
-- The laws of the lookup.
use Prim.Native.String.{String}
use text.Mathlib.Text.{◌==◌ as str_eq}
use text.Mathlib.TextEquality.{eq_iff}
use partner_integration_reli.Prelude.{◌≡◌, refl, some, List, [], ◌∷◌, if◌then◌else◌, arith}
use partner_integration_reli.Text.{lookup, insert}

-- An assignment is seen under its own name and no other.
pub lookup-insert {ℓ} :
    {Value : Type ℓ} (written asked : String) (value : Value) (object : List (String × Value))
    → lookup asked (insert written value object)
      ≡ (if str_eq written asked then some value else lookup asked object)
unfolding lookup insert
lookup-insert written asked value [] = refl
lookup-insert written asked value ((own, old) ∷ object) = ground (
  arith,
  lookup-insert written asked value object,
  eq_iff own written,
  eq_iff own asked,
  eq_iff written asked,
)
