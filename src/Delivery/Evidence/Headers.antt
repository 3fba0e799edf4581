-- ===== src/Delivery/Evidence/Headers.antt =====
-- Which request headers an attempt keeps in clear.
use Prim.Native.String.{String}
use text.Mathlib.Text.{◌==◌ as str_eq}
use text.Mathlib.TextEquality.{eq_iff}
use partner_integration_reli.Prelude.{
  ◌≡◌, ◌↔◌, ◌⊎◌, refl, Bool, true, false, ◌||◌, map, Option, none, some, List, [], ◌∷◌,
  if◌then◌else◌, Bool-cases, inl, inr, ap,
}
use partner_integration_reli.Text.{lookup, codes, lower}
use partner_integration_reli.Text.Infix.{Contains, has_infix_iff}
use partner_integration_reli.Delivery.Evidence.{hides_value, redacted, redacted_headers}

abbrev map_option : {A B : Type 0} → (A → B) → Option A → Option B
map_option f none = none
map_option f (some a) = some (f a)

lookup_map :
    (name : String) (headers : List (String × String))
    → lookup name (redacted_headers headers)
      ≡ map_option (λ v. if hides_value name then redacted else v) (lookup name headers)
unfolding lookup redacted_headers
lookup_map name [] = refl
lookup_map name ((k, v) ∷ headers) = elim (Bool-cases (str_eq k name)) [
  | inl same ↦
      rw same (ap (λ x. some (if hides_value x then redacted else v)) ((eq_iff k name).0 same))
  | inr other ↦ rw other (lookup_map name headers)
]

-- A name that holds `authorization` or `api-key`, in letters of any case.
abbrev pub IsHiding : String → Type 0
IsHiding name =
    Contains (map lower (codes name)) (codes "authorization")
    ⊎ Contains (map lower (codes name)) (codes "api-key")

hides_value_iff : (name : String) → (hides_value name ≡ true) ↔ IsHiding name
unfolding hides_value
hides_value_iff name =
    let first = has_infix_iff (map lower (codes name)) (codes "authorization") in
    let second = has_infix_iff (map lower (codes name)) (codes "api-key") in
    (
      λ h. elim (either _ _ h) [ inl a ↦ inl (first.0 a) | inr b ↦ inr (second.0 b) ],
      λ p. elim p [ inl a ↦ one_of _ _ (inl (first.1 a)) | inr b ↦ one_of _ _ (inr (second.1 b)) ],
    )
  where
    either : (a b : Bool) → (a || (b || false)) ≡ true → (a ≡ true) ⊎ (b ≡ true)
    either true b h = inl refl
    either false true h = inr refl
    either false false h = cc

    one_of : (a b : Bool) → (a ≡ true) ⊎ (b ≡ true) → (a || (b || false)) ≡ true
    one_of true b p = refl
    one_of false b (inl h) = cc
    one_of false b (inr h) = rw h refl

-- An attempt keeps every header of its request under its name: only the mark of the redaction if
-- the name holds `authorization` or `api-key`, in letters of any case, and its value in clear if
-- it holds neither.
pub lookup-redacted_headers :
    (name value : String) (headers : List (String × String))
    → lookup name headers ≡ some value
    → (IsHiding name × (lookup name (redacted_headers headers) ≡ some redacted))
      ⊎ (¬ IsHiding name × (lookup name (redacted_headers headers) ≡ some value))
lookup-redacted_headers name value headers h =
    let kept = rw h at (lookup_map name headers) in
    elim (Bool-cases (hides_value name)) [
      | inl hidden ↦ inl ((hides_value_iff name).0 hidden, rw hidden at kept)
      | inr clear ↦ inr (λ p. let hidden = (hides_value_iff name).1 p in cc, rw clear at kept)
    ]
