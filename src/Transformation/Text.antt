-- ===== src/Transformation/Text.antt =====
-- `upperSnake` of packages/transformation/src/index.ts, on the characters of a text.
use Prim.Native.Char.{Char, code}
use Prim.Native.String.{String, char_at}
use partner_integration_reli.Prelude.{◌-◌, Bool, true, false, ◌&&◌, ◌||◌, leb, ◌==◌, if◌then◌else◌}

abbrev is_lower_letter : Char → Bool
is_lower_letter c = leb b'a' (code c) && leb (code c) b'z'

abbrev is_upper : Char → Bool
is_upper c = leb b'A' (code c) && leb (code c) b'Z'

abbrev is_digit : Char → Bool
is_digit c = leb b'0' (code c) && leb (code c) b'9'

abbrev is_alphanumeric : Char → Bool
is_alphanumeric c = is_lower_letter c || is_upper c || is_digit c

abbrev underscore : Char
underscore = char_at "_" 0

-- `[a-z0-9]` before `[A-Z]`: the classes are apart, so no two matches overlap.
break_before : Char → String → Bool
break_before c String.[] = false
break_before c (String.◌∷◌ d s) = (is_lower_letter c || is_digit c) && is_upper d

unfoldable pub break_words : String → String
unfolding break_before
break_words String.[] = String.[]
break_words (String.◌∷◌ c s) =
    let rest = break_words s in
    String.◌∷◌ c (if break_before c s then String.◌∷◌ underscore rest else rest)

-- Each run of other characters becomes an underscore; `in_run` says that one goes on.
unfoldable pub join_words : Bool → String → String
join_words in_run String.[] = String.[]
join_words in_run (String.◌∷◌ c s) =
    let kept = join_words false s in
    let run = join_words true s in
    if is_alphanumeric c
    then String.◌∷◌ c kept
    else if in_run
    then run
    else String.◌∷◌ underscore run

abbrev is_underscore : Char → Bool
is_underscore c = code c == b'_'

-- `/^_+|_+$/g`.
unfoldable pub trim_left : String → String
trim_left String.[] = String.[]
trim_left (String.◌∷◌ c s) =
    let rest = trim_left s in if is_underscore c then rest else String.◌∷◌ c s

only_underscores : String → Bool
only_underscores String.[] = true
only_underscores (String.◌∷◌ c s) = is_underscore c && only_underscores s

unfoldable pub trim_right : String → String
unfolding only_underscores
trim_right String.[] = String.[]
trim_right (String.◌∷◌ c s) =
    let rest = trim_right s in
    if only_underscores (String.◌∷◌ c s) then String.[] else String.◌∷◌ c rest

-- `toUpperCase` of a text of letters, digits and underscores.
abbrev upper : Char → Char
upper c = if is_lower_letter c then char_at "ABCDEFGHIJKLMNOPQRSTUVWXYZ" (code c - b'a') else c

unfoldable pub upper_text : String → String
upper_text String.[] = String.[]
upper_text (String.◌∷◌ c s) = String.◌∷◌ (upper c) (upper_text s)

unfoldable pub upper_snake : String → String
unfolding break_words join_words trim_left trim_right upper_text
upper_snake value = upper_text (trim_right (trim_left (join_words false (break_words value))))
