-- ===== src/Snapshot/Names.antt =====
-- Which names `credentialKey` and `referenceKey` of packages/recovery/src/index.ts match.
use Prim.Native.String.{String, ◌++◌}
use partner_integration_reli.Prelude.{
  ◌≡◌, ◌⊎◌, inl, inr, true, false, List, [], ◌∷◌, ◌++◌ as append, map, All, Bool-cases, arith,
}
use partner_integration_reli.Text.{codes, lower, has_word_any_case, any_word}
use partner_integration_reli.Text.Infix.{Contains, has_infix_iff}
use partner_integration_reli.Snapshot.{is_credential, is_reference}

-- A name holds a word, in letters of any case.
abbrev pub HoldsWord : String → String → Type 0
HoldsWord name word = Contains (map lower (codes name)) (codes word)

-- Two parts in one word, or with a separator.
abbrev joined : String → String → List String
joined a b = (a ++ b) ∷ (a ++ ("_" ++ b)) ∷ (a ++ ("-" ++ b)) ∷ []

abbrev pub credential_words : List String
credential_words =
    "secret"
    ∷ "password"
    ∷ append (joined "access" "token")
        (append (joined "refresh" "token") (append (joined "private" "key") (joined "api" "key")))

abbrev reference_words : List String
reference_words =
    "secretreference" ∷ "secretname" ∷ "secretid" ∷ "secretversion" ∷ "parametername" ∷ []

abbrev HoldsSome : String → List String → Type 0
HoldsSome name [] = ⊥
HoldsSome name (word ∷ words) = HoldsWord name word ⊎ HoldsSome name words

-- A name of no credential, or of a reference to one.
abbrev pub IsHarmless : String → Type 0
IsHarmless name =
    All (λ word. ¬ HoldsWord name word) credential_words ⊎ HoldsSome name reference_words

none_held :
    (name : String) (words : List String)
    → any_word has_word_any_case name words ≡ false
    → All (λ word. ¬ HoldsWord name word) words
none_held name [] h = tt
none_held name (word ∷ words) h = (
  λ held.
      let found = (has_infix_iff (map lower (codes name)) (codes word)).1 held in
      ground (arith, h, found),
  none_held name words (ground (arith, h)),
)

some_held :
    (name : String) (words : List String)
    → any_word has_word_any_case name words ≡ true
    → HoldsSome name words
some_held name [] h = cc
some_held name (word ∷ words) h = elim (Bool-cases (has_word_any_case name word)) [
  | inl held ↦ inl ((has_infix_iff (map lower (codes name)) (codes word)).0 held)
  | inr other ↦ inr (some_held name words (ground (arith, h, other)))
]

pub no_credential-IsHarmless : (name : String) → is_credential name ≡ false → IsHarmless name
unfolding is_credential
no_credential-IsHarmless name h = inl (none_held name credential_words h)

pub reference-IsHarmless : (name : String) → is_reference name ≡ true → IsHarmless name
unfolding is_reference
reference-IsHarmless name h = inr (some_held name reference_words h)

pub plain_name :
    (name : String)
    → is_credential name ≡ false
    → All (λ word. ¬ HoldsWord name word) credential_words
unfolding is_credential
plain_name name h = none_held name credential_words h
