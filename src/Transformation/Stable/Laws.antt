-- ===== src/Transformation/Stable/Laws.antt =====
-- The text of an object does not depend on the order of its properties.
use Prim.Native.String.{String, ◌++◌}
use partner_integration_reli.Prelude.{◌≡◌, refl, ap, ◌∙◌, List}
use partner_integration_reli.Json.{Json, object, Fields, field}
use partner_integration_reli.Transformation.Stable.{
  Entry, insert_sorted, sort_entries, join_entries, stable, stable_entries,
}
use partner_integration_reli.Transformation.Stable.Order.{insert_sorted_comm}

-- The same properties in another order: neighbours of different names change places.
pub data Reordered : Fields → Fields → Type 0 where
  same : {fs : Fields} → Reordered fs fs
  keep :
      {k : String} {v : Json} {fs gs : Fields}
      → Reordered fs gs
      → Reordered (field k v fs) (field k v gs)
  swap :
      {k j : String} {v w : Json} {fs : Fields}
      → ¬ (k ≡ j)
      → Reordered (field k v (field j w fs)) (field j w (field k v fs))
  then_reorder : {fs gs hs : Fields} → Reordered fs gs → Reordered gs hs → Reordered fs hs

module _ (quote : String → String) where
  sorted : Fields → List Entry
  unfolding stable_entries
  sorted fs = sort_entries (stable_entries quote fs)

  sorted-Reordered : {fs gs : Fields} → Reordered fs gs → sorted fs ≡ sorted gs
  unfolding sorted stable_entries sort_entries
  sorted-Reordered same = refl
  sorted-Reordered (keep r) = ap (insert_sorted _) (sorted-Reordered r)
  sorted-Reordered (swap n) = insert_sorted_comm _ _ _ n
  sorted-Reordered (then_reorder r s) = sorted-Reordered r ∙ sorted-Reordered s

  -- Objects with the same properties in different orders have the same text.
  pub stable-Reordered :
      (fs gs : Fields) → Reordered fs gs → stable quote (object fs) ≡ stable quote (object gs)
  unfolding stable sorted
  stable-Reordered fs gs r = ap (λ es. "{" ++ (join_entries quote es ++ "}")) (sorted-Reordered r)
