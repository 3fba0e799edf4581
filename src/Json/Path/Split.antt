-- ===== src/Json/Path/Split.antt =====
-- A text split at its dots has a part at least.
use Prim.Native.Char.{Char, code}
use Prim.Native.String.{String}
use partner_integration_reli.Prelude.{
  ◌≡◌, refl, ◌==◌, List, [], ◌∷◌, ◌++◌, Bool-cases, inl, inr, ap,
}
use partner_integration_reli.Json.Path.{split_dots, add_head, unsnoc}

add_head_parts :
    (c : Char) (ws : List String) → (p : String) × (ps : List String) × (add_head c ws ≡ p ∷ ps)
unfolding add_head
add_head_parts c [] = (_, _, refl)
add_head_parts c (w ∷ ws) = (_, _, refl)

pub split_dots-parts : (s : String) → (p : String) × (ps : List String) × (split_dots s ≡ p ∷ ps)
unfolding split_dots
split_dots-parts String.[] = (_, _, refl)
split_dots-parts (String.◌∷◌ c s) = elim (Bool-cases (code c == 46)) [
  | inl dot ↦ (String.[], split_dots s, rw dot refl)
  | inr other ↦ let (p, ps, e) = add_head_parts c (split_dots s) in (p, ps, rw other e)
]

unsnoc_cons :
    (p : String) (ps : List String)
    → (unsnoc (p ∷ ps)).before ++ (unsnoc (p ∷ ps)).last ∷ [] ≡ p ∷ ps
unfolding unsnoc
unsnoc_cons p [] = refl
unsnoc_cons p (q ∷ ps) = ap (λ xs. p ∷ xs) (unsnoc_cons q ps)

-- The parts before the last one, and the last one, are all of them.
pub unsnoc-split_dots :
    (s : String)
    → (unsnoc (split_dots s)).before ++ (unsnoc (split_dots s)).last ∷ [] ≡ split_dots s
unsnoc-split_dots s = let (p, ps, e) = split_dots-parts s in rw e (unsnoc_cons p ps)
