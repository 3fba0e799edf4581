-- ===== src/Transformation/Stable.antt =====
-- `stable` of packages/transformation/src/index.ts: the text of a value with the properties of every
-- object in the order of their names. Names are compared by their code points.
pub mod Order
pub mod Laws
use Prim.Native.String.{String, ◌++◌}
use partner_integration_reli.Prelude.{ℕ, Bool, true, false, ltb, ◌==◌, List, [], ◌∷◌, if◌then◌else◌}
use partner_integration_reli.Text.{codes}
use partner_integration_reli.Json.{
  Json, null, bool, number, string, array, object, Items, nil, cons, Fields, empty, field,
}
use partner_integration_reli.Json.Print.{bool_text}

-- Not after, in the order of a sort without a comparator.
abbrev pub not_after : List ℕ → List ℕ → Bool
not_after [] ys = true
not_after (x ∷ xs) [] = false
not_after (x ∷ xs) (y ∷ ys) =
    let rest = not_after xs ys in if ltb x y then true else if x == y then rest else false

abbrev pub Entry : Type 0
Entry = String × String

unfoldable pub insert_sorted : Entry → List Entry → List Entry
insert_sorted e [] = e ∷ []
insert_sorted e (x ∷ xs) =
    let rest = insert_sorted e xs in
    if not_after (codes e.0) (codes x.0) then e ∷ x ∷ xs else x ∷ rest

unfoldable pub sort_entries : List Entry → List Entry
unfolding insert_sorted
sort_entries [] = []
sort_entries (e ∷ es) = insert_sorted e (sort_entries es)

module _ (quote : String → String) where
  -- `entries.map(…).join(",")`.
  unfoldable pub join_entries : List Entry → String
  join_entries [] = ""
  join_entries (e ∷ []) = quote e.0 ++ (":" ++ e.1)
  join_entries (e ∷ f ∷ es) = quote e.0 ++ (":" ++ (e.1 ++ ("," ++ join_entries (f ∷ es))))

  unfoldable mutual
    unfolding join_entries sort_entries

    pub stable : Json → String
    stable null = "null"
    stable (bool b) = bool_text b
    stable (number n) = n
    stable (string s) = quote s
    stable (array xs) = "[" ++ (stable_items xs ++ "]")
    stable (object fs) = "{" ++ (join_entries (sort_entries (stable_entries fs)) ++ "}")

    pub stable_items : Items → String
    stable_items nil = ""
    stable_items (cons j nil) = stable j
    stable_items (cons j (cons k xs)) = stable j ++ ("," ++ stable_items (cons k xs))

    pub stable_entries : Fields → List Entry
    stable_entries empty = []
    stable_entries (field k v fs) = (k, stable v) ∷ stable_entries fs
