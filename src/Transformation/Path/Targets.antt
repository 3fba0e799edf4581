-- ===== src/Transformation/Path/Targets.antt =====
-- Targets of which neither is the other or stands below it, as the schema checks their texts, lie
-- apart as paths.
use Prim.Native.Char.{Char, code}
use Prim.Native.String.{String, ◌++◌, char_at}
use text.Mathlib.Text.{◌==◌ as str_eq}
use text.Mathlib.TextBridge.{IsPrefix}
use text.Mathlib.TextEquality.{eq_iff, Char-path}
use text.Mathlib.TextLemmas.{
  cons-append, nil-append, tail-eq_of_cons-eq, head-eq_of_cons-eq, nil≢cons,
}
use partner_integration_reli.Prelude.{
  ◌≡◌, ◌∙◌, refl, sym, ap, subst, true, false, ◌⊎◌, inl, inr, ◌==◌, List, ◌∷◌, Bool-cases, ==_iff,
}
use partner_integration_reli.Json.Path.{split_dots, add_head}
use partner_integration_reli.Json.Path.Split.{split_dots-parts}
use partner_integration_reli.Transformation.Path.Laws.{Apart, differ, below}

-- One text is the other, or goes on after it with a dot.
abbrev pub Nested : String → String → Type 0
Nested s t = (s ≡ t) ⊎ (IsPrefix (s ++ ".") t ⊎ IsPrefix (t ++ ".") s)

texts_differ : (s t : String) → ¬ (s ≡ t) → str_eq s t ≡ false
texts_differ s t n = elim (Bool-cases (str_eq s t)) [
  | inl same ↦ absurd (n ((eq_iff s t).0 same))
  | inr other ↦ other
]

texts_same : (s t : String) → str_eq s t ≡ false → ¬ (s ≡ t)
texts_same s t h e = let g = (eq_iff s t).1 e in cc

prefix_cons : (c : Char) (s t : String) → IsPrefix s t → IsPrefix (String.◌∷◌ c s) (String.◌∷◌ c t)
prefix_cons c s t (u, e) = (u, cons-append c s u ∙ ap (λ x. String.◌∷◌ c x) e)

prefix_dot :
    (c : Char) (s t : String)
    → IsPrefix (s ++ ".") t
    → IsPrefix (String.◌∷◌ c s ++ ".") (String.◌∷◌ c t)
prefix_dot c s t p =
    subst (λ x. IsPrefix x (String.◌∷◌ c t)) (sym (cons-append c s ".")) (prefix_cons c _ t p)

pub Nested-cons : (c : Char) (s t : String) → Nested s t → Nested (String.◌∷◌ c s) (String.◌∷◌ c t)
Nested-cons c s t (inl e) = inl (ap (λ x. String.◌∷◌ c x) e)
Nested-cons c s t (inr (inl p)) = inr (inl (prefix_dot c s t p))
Nested-cons c s t (inr (inr p)) = inr (inr (prefix_dot c t s p))

dot_prefix : (d : Char) (t : String) → code d ≡ 46 → IsPrefix (String.[] ++ ".") (String.◌∷◌ d t)
dot_prefix d t e =
    let dot = char_at "." 0 in
    (
      t,
      cons-append dot String.[] t
          ∙ ap (λ x. String.◌∷◌ dot x) (nil-append t)
          ∙ ap (λ x. String.◌∷◌ x t) (Char-path dot d (sym e)),
    )

-- What the first character does to the first part.
head_part :
    (c : Char) (s : String)
    → (code c == 46) ≡ false
    → (w : String) × (ps : List String) × (split_dots (String.◌∷◌ c s) ≡ String.◌∷◌ c w ∷ ps)
unfolding split_dots add_head
head_part c s other = let (p, ps, e) = split_dots-parts s in (p, ps, rw other (ap (add_head c) e))

at_dot :
    (c : Char) (s : String)
    → (code c == 46) ≡ true
    → split_dots (String.◌∷◌ c s) ≡ String.[] ∷ split_dots s
unfolding split_dots
at_dot c s dot = rw dot refl

Apart-of : {ps qs ps' qs' : List String} → ps ≡ ps' → qs ≡ qs' → Apart ps' qs' → Apart ps qs
Apart-of {ps} {qs} {ps'} {qs'} e f a =
    subst (λ x. Apart x qs) (sym e) (subst (λ x. Apart ps' x) (sym f) a)

add_head-Apart :
    (c : Char) {ps qs : List String} → Apart ps qs → Apart (add_head c ps) (add_head c qs)
unfolding add_head
add_head-Apart c (differ {p} {q} e) =
    differ (
      texts_differ (String.◌∷◌ c p) (String.◌∷◌ c q) (λ g. texts_same p q e (tail-eq_of_cons-eq g)))
add_head-Apart c (below a) = below a

same_head :
    (c : Char) (s t : String)
    → Apart (split_dots s) (split_dots t) ⊎ Nested s t
    → Apart (split_dots (String.◌∷◌ c s)) (split_dots (String.◌∷◌ c t))
      ⊎ Nested (String.◌∷◌ c s) (String.◌∷◌ c t)
unfolding split_dots
same_head c s t (inr n) = inr (Nested-cons c s t n)
same_head c s t (inl a) = elim (Bool-cases (code c == 46)) [
  | inl dot ↦ inl (Apart-of (at_dot c s dot) (at_dot c t dot) (below a))
  | inr other ↦ inl (Apart-of (rw other refl) (rw other refl) (add_head-Apart c a))
]

nil_not_cons : (c : Char) (w : String) → str_eq String.[] (String.◌∷◌ c w) ≡ false
nil_not_cons c w = texts_differ String.[] (String.◌∷◌ c w) (λ e. nil≢cons e)

cons_not_nil : (c : Char) (w : String) → str_eq (String.◌∷◌ c w) String.[] ≡ false
cons_not_nil c w = texts_differ (String.◌∷◌ c w) String.[] (λ e. nil≢cons (sym e))

other_heads :
    (c d : Char) (s t : String)
    → ¬ (c ≡ d)
    → Apart (split_dots (String.◌∷◌ c s)) (split_dots (String.◌∷◌ d t))
other_heads c d s t n = elim (Bool-cases (code c == 46)) [
  | inl dot_c ↦ elim (Bool-cases (code d == 46)) [
    | inl dot_d ↦
        absurd
          (n (Char-path c d ((==_iff (code c) 46).0 dot_c ∙ sym ((==_iff (code d) 46).0 dot_d))))
    | inr other_d ↦
        let (w, ps, e) = head_part d t other_d in
        Apart-of (at_dot c s dot_c) e (differ (nil_not_cons d w))
  ]
  | inr other_c ↦
      let (w, ps, e) = head_part c s other_c in
      elim (Bool-cases (code d == 46)) [
        | inl dot_d ↦ Apart-of e (at_dot d t dot_d) (differ (cons_not_nil c w))
        | inr other_d ↦
            let (w', qs, f) = head_part d t other_d in
            Apart-of e f (
              differ
                (texts_differ (String.◌∷◌ c w) (String.◌∷◌ d w') (λ g. n (head-eq_of_cons-eq g))))
      ]
]

pub split_cases : (s t : String) → Apart (split_dots s) (split_dots t) ⊎ Nested s t
unfolding split_dots
split_cases String.[] String.[] = inr (inl refl)
split_cases String.[] (String.◌∷◌ d t) = elim (Bool-cases (code d == 46)) [
  | inl dot ↦ inr (inr (inl (dot_prefix d t ((==_iff (code d) 46).0 dot))))
  | inr other ↦
      let (w, ps, e) = head_part d t other in inl (Apart-of refl e (differ (nil_not_cons d w)))
]
split_cases (String.◌∷◌ c s) String.[] = elim (Bool-cases (code c == 46)) [
  | inl dot ↦ inr (inr (inr (dot_prefix c s ((==_iff (code c) 46).0 dot))))
  | inr other ↦
      let (w, ps, e) = head_part c s other in inl (Apart-of e refl (differ (cons_not_nil c w)))
]
split_cases (String.◌∷◌ c s) (String.◌∷◌ d t) = elim (Bool-cases (code c == code d)) [
  | inl same ↦
      let c_d = Char-path c d ((==_iff (code c) (code d)).0 same) in
      subst
        (λ x.
          Apart (split_dots (String.◌∷◌ c s)) (split_dots (String.◌∷◌ x t))
          ⊎ Nested (String.◌∷◌ c s) (String.◌∷◌ x t))
        c_d (same_head c s t (split_cases s t))
  | inr other ↦
      inl (other_heads c d s t (λ e. let g = (==_iff (code c) (code d)).1 (ap code e) in cc))
]
