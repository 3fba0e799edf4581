-- ===== src/Text.antt =====
-- What the program uses of texts, besides their comparison: case, substrings, and the lookup in a
-- list of pairs that stands for an object with texts as keys.
pub mod Laws
pub mod Infix
use Prim.Native.Char.{Char, code}
use Prim.Native.String.{String}
use text.Mathlib.Text.{◌==◌ as str_eq, find?}
use partner_integration_reli.Prelude.{
  ℕ, ◌+◌, ◌*◌, ◌-◌, not, Bool, true, false, ◌&&◌, ◌||◌, leb, ◌==◌, Option, none, some, is_some,
  List, [], ◌∷◌, map, if◌then◌else◌,
}
-- `===` on texts.
pub use text.Mathlib.Text.{◌==◌ as str_eq}

-- The characters of a text as their code points; `String` has its own `[]` and `∷`.
abbrev pub codes : String → List ℕ
codes String.[] = []
codes (String.◌∷◌ first text) = let rest = codes text in code first ∷ rest

-- The case of an ASCII letter, as a pattern with the flag `i` and `toLowerCase` of a header's name
-- see it.
abbrev pub lower : ℕ → ℕ
lower c = if leb 65 c && leb c 90 then c + 32 else c

abbrev pub has_prefix : List ℕ → List ℕ → Bool
has_prefix s [] = true
has_prefix [] (x ∷ xs) = false
has_prefix (c ∷ s) (x ∷ xs) = c == x && has_prefix s xs

abbrev pub has_infix : List ℕ → List ℕ → Bool
has_infix [] word = has_prefix [] word
has_infix (c ∷ s) word = has_prefix (c ∷ s) word || has_infix s word

-- `/word/.test(text)` for a word without special characters.
abbrev pub has_word : String → String → Bool
has_word text word = has_infix (codes text) (codes word)

-- `/word/i.test(text)`, the word in small letters.
abbrev pub has_word_any_case : String → String → Bool
has_word_any_case text word = has_infix (map lower (codes text)) (codes word)

-- `a|b|…` of such words.
abbrev pub any_word : (String → String → Bool) → String → List String → Bool
any_word test text [] = false
any_word test text (w ∷ ws) = test text w || any_word test text ws

-- A text in a list of texts.
abbrev pub includes_text : List String → String → Bool
includes_text [] s = false
includes_text (x ∷ xs) s = str_eq x s || includes_text xs s

-- An object as a list of its properties: the value under a name, and an assignment, which keeps
-- the place of a name that is there.
unfoldable pub lookup {ℓ} : {Value : Type ℓ} → String → List (String × Value) → Option Value
lookup name [] = none
lookup name ((own, value) ∷ object) =
    let later = lookup name object in if str_eq own name then some value else later

unfoldable pub insert {ℓ} :
    {Value : Type ℓ} → String → Value → List (String × Value) → List (String × Value)
insert name value [] = (name, value) ∷ []
insert name value ((own, old) ∷ object) =
    let later = insert name value object in
    if str_eq own name then (name, value) ∷ object else (own, old) ∷ later

-- `Number` of a text of digits.
abbrev digits : ℕ → List ℕ → ℕ
digits n [] = n
digits n (c ∷ cs) = digits (n * 10 + (c - 48)) cs

abbrev pub decimal : String → ℕ
decimal s = digits 0 (codes s)

abbrev is_digit : ℕ → Bool
is_digit c = leb 48 c && leb c 57

abbrev all_digits : List ℕ → Bool
all_digits [] = true
all_digits (c ∷ cs) = is_digit c && all_digits cs

abbrev is_index : List ℕ → Bool
is_index [] = false
is_index (c ∷ []) = is_digit c
is_index (c ∷ d ∷ cs) = not (c == 48) && all_digits (c ∷ d ∷ cs)

-- The index that a property name of an array is: a number as it is printed.
unfoldable pub index_of : String → Option ℕ
index_of s = if is_index (codes s) then some (decimal s) else none
