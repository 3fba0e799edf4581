-- ===== src/Transformation/Stable/Order.antt =====
-- The order of names is total, and inserting two names commutes.
use Prim.Native.Char.{code}
use Prim.Native.String.{String}
use text.Mathlib.TextEquality.{Char-path}
use partner_integration_reli.Prelude.{
  ℕ, ◌≡◌, refl, sym, ap, ◌∙◌, Bool, true, false, inl, inr, List, [], ◌∷◌, arith, Bool-cases,
}
use partner_integration_reli.Text.{codes}
use partner_integration_reli.Transformation.Stable.{not_after, Entry, insert_sorted}

not_after_total : (xs ys : List ℕ) → not_after xs ys ≡ false → not_after ys xs ≡ true
not_after_total [] ys h = cc
not_after_total (x ∷ xs) [] h = refl
not_after_total (x ∷ xs) (y ∷ ys) h = ground (arith, not_after_total xs ys)

not_after_trans :
    (xs ys zs : List ℕ) → not_after xs ys ≡ true → not_after ys zs ≡ true → not_after xs zs ≡ true
not_after_trans [] ys zs h k = refl
not_after_trans (x ∷ xs) [] zs h k = cc
not_after_trans (x ∷ xs) (y ∷ ys) [] h k = cc
not_after_trans (x ∷ xs) (y ∷ ys) (z ∷ zs) h k = ground (arith, not_after_trans xs ys zs)

not_after_antisym : (xs ys : List ℕ) → not_after xs ys ≡ true → not_after ys xs ≡ true → xs ≡ ys
not_after_antisym [] [] h k = refl
not_after_antisym [] (y ∷ ys) h k = cc
not_after_antisym (x ∷ xs) [] h k = cc
not_after_antisym (x ∷ xs) (y ∷ ys) h k = ground (arith, not_after_antisym xs ys)

codes_injective : (s t : String) → codes s ≡ codes t → s ≡ t
codes_injective String.[] String.[] h = refl
codes_injective String.[] (String.◌∷◌ d t) h = cc
codes_injective (String.◌∷◌ c s) String.[] h = cc
codes_injective (String.◌∷◌ c s) (String.◌∷◌ d t) h =
    let same_code : code c ≡ code d = cc in
    let rest : codes s ≡ codes t = cc in
    let p = Char-path c d same_code in let q = codes_injective s t rest in cc

abbrev before : Entry → Entry → Bool
before e f = not_after (codes e.0) (codes f.0)

-- The equations of an insertion.
insert_here :
    (e x : Entry) (xs : List Entry) → before e x ≡ true → insert_sorted e (x ∷ xs) ≡ e ∷ x ∷ xs
unfolding insert_sorted
insert_here e x xs h = rw h refl

insert_later :
    (e x : Entry) (xs : List Entry)
    → before e x ≡ false
    → insert_sorted e (x ∷ xs) ≡ x ∷ insert_sorted e xs
unfolding insert_sorted
insert_later e x xs h = rw h refl

nil_comm :
    (e f : Entry)
    → before e f ≡ true
    → before f e ≡ false
    → insert_sorted e (insert_sorted f []) ≡ insert_sorted f (insert_sorted e [])
unfolding insert_sorted
nil_comm e f c d = rw c (rw d refl)

ordered_comm :
    (e f : Entry) (xs : List Entry)
    → before e f ≡ true
    → before f e ≡ false
    → insert_sorted e (insert_sorted f xs) ≡ insert_sorted f (insert_sorted e xs)
ordered_comm e f [] c d = nil_comm e f c d
ordered_comm e f (x ∷ xs) c d = elim (Bool-cases (before f x)) [
  | inl b ↦
      let a = not_after_trans (codes e.0) (codes f.0) (codes x.0) c b in
      ap (insert_sorted e) (insert_here f x xs b)
      ∙ insert_here e f (x ∷ xs) c
      ∙ sym (
          ap (insert_sorted f) (insert_here e x xs a)
          ∙ insert_later f e (x ∷ xs) d
          ∙ ap (λ ys. e ∷ ys) (insert_here f x xs b))
  | inr b ↦ elim (Bool-cases (before e x)) [
    | inl a ↦
        ap (insert_sorted e) (insert_later f x xs b)
        ∙ insert_here e x (insert_sorted f xs) a
        ∙ sym (
            ap (insert_sorted f) (insert_here e x xs a)
            ∙ insert_later f e (x ∷ xs) d
            ∙ ap (λ ys. e ∷ ys) (insert_later f x xs b))
    | inr a ↦
        ap (insert_sorted e) (insert_later f x xs b)
        ∙ insert_later e x (insert_sorted f xs) a
        ∙ ap (λ ys. x ∷ ys) (ordered_comm e f xs c d)
        ∙ sym
            (ap (insert_sorted f) (insert_later e x xs a) ∙ insert_later f x (insert_sorted e xs) b)
  ]
]

-- Two entries of different names may be inserted in either order.
pub insert_sorted_comm :
    (e f : Entry) (xs : List Entry)
    → ¬ (e.0 ≡ f.0)
    → insert_sorted e (insert_sorted f xs) ≡ insert_sorted f (insert_sorted e xs)
insert_sorted_comm e f xs n = elim (Bool-cases (before e f)) [
  | inl c ↦ elim (Bool-cases (before f e)) [
    | inl d ↦ absurd (n (codes_injective e.0 f.0 (not_after_antisym (codes e.0) (codes f.0) c d)))
    | inr d ↦ ordered_comm e f xs c d
  ]
  | inr c ↦ sym (ordered_comm f e xs (not_after_total (codes e.0) (codes f.0) c) c)
]
