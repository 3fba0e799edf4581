-- ===== src/Json/Print.antt =====
-- `JSON.stringify`. The literal of a text, with its quotes and escapes, is `quote`.
use Prim.Native.String.{String, ◌++◌}
use partner_integration_reli.Prelude.{Bool, true, false}
use partner_integration_reli.Json.{
  Json, null, bool, number, string, array, object, Items, nil, cons, Fields, empty, field,
}

abbrev pub bool_text : Bool → String
bool_text true = "true"
bool_text false = "false"

module _ (quote : String → String) where
  unfoldable mutual
    pub stringify : Json → String
    stringify null = "null"
    stringify (bool b) = bool_text b
    stringify (number n) = n
    stringify (string s) = quote s
    stringify (array xs) = "[" ++ (stringify_items xs ++ "]")
    stringify (object fs) = "{" ++ (stringify_fields fs ++ "}")

    pub stringify_items : Items → String
    stringify_items nil = ""
    stringify_items (cons j nil) = stringify j
    stringify_items (cons j (cons k xs)) = stringify j ++ ("," ++ stringify_items (cons k xs))

    pub stringify_fields : Fields → String
    stringify_fields empty = ""
    stringify_fields (field k v empty) = quote k ++ (":" ++ stringify v)
    stringify_fields (field k v (field j w fs)) =
        quote k ++ (":" ++ (stringify v ++ ("," ++ stringify_fields (field j w fs))))
