-- ===== src/Store/Condition.antt =====
-- The condition expressions of the writes, and a table as a map.
use partner_integration_reli.Prelude.{
  ◌≡◌, Bool, true, false, Option, none, some, if◌then◌else◌, refl,
}

-- No condition, `attribute_not_exists(PK)`, a test of the stored item, or one of the last two.
pub data Condition (A : Type 0) : Type 0 where
  always : Condition A
  absent : Condition A
  matches : (A → Bool) → Condition A
  absent_or : (A → Bool) → Condition A

abbrev pub holds : {A : Type 0} → Condition A → Option A → Bool
holds always o = true
holds absent none = true
holds absent (some a) = false
holds (matches p) none = false
holds (matches p) (some a) = p a
holds (absent_or p) none = true
holds (absent_or p) (some a) = p a

-- A table with the item at one key replaced.
abbrev pub put : {K A : Type 0} → (K → K → Bool) → K → A → (K → Option A) → K → Option A
put eq k a m j = if eq k j then some a else m j

abbrev pub delete : {K A : Type 0} → (K → K → Bool) → K → (K → Option A) → K → Option A
delete eq k m j = if eq k j then none else m j

pub holds-matches :
    {A : Type 0} (p : A → Bool) (o : Option A)
    → holds (matches p) o ≡ true
    → (a : A) × (o ≡ some a) × (p a ≡ true)
holds-matches p none h = cc
holds-matches p (some a) h = (a, refl, h)
