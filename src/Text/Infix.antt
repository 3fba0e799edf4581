-- ===== src/Text/Infix.antt =====
-- The tests for a word at the start of a text, and anywhere in it, against what they mean.
use partner_integration_reli.Prelude.{
  ℕ, ◌≡◌, ◌↔◌, refl, sym, subst, inl, inr, true, ◌==◌, ==_iff, List, [], ◌∷◌, ◌++◌, Bool-cases,
  arith,
}
use partner_integration_reli.Text.{has_prefix, has_infix}

-- One list of codes begins with another, or holds it somewhere.
pub record BeginsWith (text word : List ℕ) : Type 0 where
  pub rest : List ℕ
  pub whole : text ≡ word ++ rest

pub record Contains (text word : List ℕ) : Type 0 where
  pub before : List ℕ
  pub after : List ℕ
  pub whole : text ≡ before ++ (word ++ after)

prefix-BeginsWith : (text word : List ℕ) → has_prefix text word ≡ true → BeginsWith text word
prefix-BeginsWith text [] h = record { rest = text; whole = refl }
prefix-BeginsWith [] (x ∷ word) h = cc
prefix-BeginsWith (c ∷ text) (x ∷ word) h =
    let same : c ≡ x = (==_iff c x).0 (ground (arith, h)) in
    let p = prefix-BeginsWith text word (ground (arith, h)) in
    let whole = p.whole in record { rest = p.rest; whole = cc (same, whole) }

has_prefix-append : (word rest : List ℕ) → has_prefix (word ++ rest) word ≡ true
has_prefix-append [] [] = refl
has_prefix-append [] (x ∷ rest) = refl
has_prefix-append (x ∷ word) rest =
    let same : (x == x) ≡ true = (==_iff x x).1 refl in rw same (has_prefix-append word rest)

pub has_prefix_refl : (word : List ℕ) → has_prefix word word ≡ true
has_prefix_refl [] = refl
has_prefix_refl (x ∷ word) =
    let same : (x == x) ≡ true = (==_iff x x).1 refl in rw same (has_prefix_refl word)

pub has_prefix_iff : (text word : List ℕ) → (has_prefix text word ≡ true) ↔ BeginsWith text word
has_prefix_iff text word = (
  prefix-BeginsWith text word,
  λ b. subst (λ s. has_prefix s word ≡ true) (sym b.whole) (has_prefix-append word b.rest),
)

infix_of_prefix : (text word : List ℕ) → has_prefix text word ≡ true → has_infix text word ≡ true
infix_of_prefix [] word h = h
infix_of_prefix (c ∷ text) word h = ground (arith, h)

has_infix-append : (before word after : List ℕ) → has_infix (before ++ (word ++ after)) word ≡ true
has_infix-append [] word after = infix_of_prefix (word ++ after) word (has_prefix-append word after)
has_infix-append (c ∷ before) word after = ground (arith, has_infix-append before word after)

begin-Contains : (text word : List ℕ) → BeginsWith text word → Contains text word
begin-Contains text word b = record { before = []; after = b.rest; whole = b.whole }

infix-Contains : (text word : List ℕ) → has_infix text word ≡ true → Contains text word
infix-Contains [] word h = begin-Contains [] word (prefix-BeginsWith [] word h)
infix-Contains (c ∷ text) word h = elim (Bool-cases (has_prefix (c ∷ text) word)) [
  | inl starts ↦ begin-Contains (c ∷ text) word (prefix-BeginsWith (c ∷ text) word starts)
  | inr later ↦
      let p = infix-Contains text word (ground (arith, h, later)) in
      let whole = p.whole in record { before = c ∷ p.before; after = p.after; whole = cc (whole) }
]

pub has_infix_iff : (text word : List ℕ) → (has_infix text word ≡ true) ↔ Contains text word
has_infix_iff text word = (
  infix-Contains text word,
  λ p. subst (λ s. has_infix s word ≡ true) (sym p.whole) (has_infix-append p.before word p.after),
)
