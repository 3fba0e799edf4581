-- ===== src/Persistence/Rounds.antt =====
-- The retry loops of the operations: `for (attempt < 8)`, each round a read and a transaction.
use partner_integration_reli.Prelude.{
  ℕ, zero, suc, ◌≡◌, ◌<◌, ◌⊎◌, inl, inr, refl, true, ◌==◌, Option, none, some, Result, ok, err,
  arith, Result-cases, Option-cases,
}
use partner_integration_reli.Store.Condition.{holds, absent_or}
use partner_integration_reli.Store.Tables.{Tables}
use partner_integration_reli.Store.Database.{Database}
use partner_integration_reli.Store.Commit.{Evolves}
use partner_integration_reli.Persistence.Common.{Fault}

-- What a round meets: the tables its reads are served from, the clock at the reads, and what other workers do to the store
-- before its transaction.
pub record Round (db : Database) : Type 0 where
  pub seen : Tables
  pub clock : ℕ
  pub interfere : db.Store → db.Store

-- A round answers, asks for another one (`none`), or throws.
abbrev pub Answer : Type 0 → Type 0
Answer A = Result Fault (Option A)

-- The loop over the rounds left, with the answer given when they run out.
unfoldable pub retry_rounds :
    (db : Database) {A : Type 0}
    → (Round db → db.Store → db.Store × Answer A)
    → Result Fault A
    → ℕ
    → (ℕ → Round db)
    → db.Store
    → db.Store × Result Fault A
retry_rounds db body exhausted zero rounds s = (s, exhausted)
retry_rounds db body exhausted (suc n) rounds s =
    let (s', r) = body (rounds n) ((rounds n).interfere s) in
    elim r [
      | ok (some a) ↦ (s', ok a)
      | ok none ↦ retry_rounds db body exhausted n rounds s'
      | err e ↦ (s', err e)
    ]

module _ (db : Database) {A : Type 0} (body : Round db → db.Store → db.Store × Answer A)
    (exhausted : Result Fault A) (rounds : ℕ → Round db) where
  -- What other workers and the rounds keep, the loop keeps.
  pub retry_rounds_keep {ℓ} :
      (P : db.Store → Type ℓ)
      → ((n : ℕ) (s : db.Store) → P s → P ((rounds n).interfere s))
      → ((round : Round db) (s : db.Store) → P s → P (body round s).0)
      → (n : ℕ) (s : db.Store) → P s
      → P (retry_rounds db body exhausted n rounds s).0
  unfolding retry_rounds
  retry_rounds_keep P others own zero s p = p
  retry_rounds_keep P others own (suc n) s p =
      let q = own (rounds n) ((rounds n).interfere s) (others n s p) in
      elim (Result-cases (body (rounds n) ((rounds n).interfere s)).1) [
        | inl (e, h) ↦ rw (h, retry_rounds) q
        | inr (o, h) ↦ elim (Option-cases o) [
          | inl none_left ↦
              rw (h, retry_rounds) (rw none_left (retry_rounds_keep P others own n _ q))
          | inr (a, some_a) ↦ rw (h, retry_rounds) (rw some_a q)
        ]
      ]

  -- An answer is that of a round, unless it is the one for when they run out.
  pub retry_rounds_answered {ℓ} :
      (P : db.Store → Type ℓ)
      → ((n : ℕ) (s : db.Store) → P s → P ((rounds n).interfere s))
      → ((round : Round db) (s : db.Store) → P s → P (body round s).0)
      → (a : A) → (n : ℕ) (s : db.Store) → P s
      → (retry_rounds db body exhausted n rounds s).1 ≡ ok a
      → (exhausted ≡ ok a)
        ⊎ ((m : ℕ) × (t : db.Store) × P t
            × ((body (rounds m) t).1 ≡ ok (some a))
            × ((retry_rounds db body exhausted n rounds s).0 ≡ (body (rounds m) t).0))
  unfolding retry_rounds
  retry_rounds_answered P others own a zero s p g = inl g
  retry_rounds_answered P others own a (suc n) s p g =
      let t = (rounds n).interfere s in
      let q = own (rounds n) t (others n s p) in
      elim (Result-cases (body (rounds n) t).1) [
        | inl (e, h) ↦ let g' = rw (h, retry_rounds) at g in cc
        | inr (o, h) ↦ elim (Option-cases o) [
          | inl none_left ↦
              let again =
                retry_rounds_answered P others own a n _ q
                  (rw none_left at (rw (h, retry_rounds) at g)) in
              rw (h, retry_rounds) (rw none_left again)
          | inr (b, some_b) ↦
              let same = rw some_b at (rw (h, retry_rounds) at g) in
              inr (n, t, others n s p, cc, rw (h, retry_rounds) (rw some_b refl))
        ]
      ]

-- Other workers only move the deliveries forward.
abbrev pub Forward : (db : Database) → (ℕ → Round db) → Type 0
Forward db rounds =
    (n : ℕ) (s : db.Store) → Evolves (db.tables s) (db.tables ((rounds n).interfere s))

-- The version of a runtime record, 0 where there is none.
abbrev pub version_or : {A : Type 0} → (A → ℕ) → Option A → ℕ
version_or v none = 0
version_or v (some a) = v a

-- What was read is not newer than what is stored, and its version tells whether it is the same.
abbrev pub Behind : {A : Type 0} → (A → ℕ) → Option A → Option A → Type 0
Behind v read now = (read ≡ now) ⊎ (version_or v read < version_or v now)

pub read_stored :
    {A : Type 0} (v : A → ℕ) (read now : Option A)
    → Behind v read now
    → holds (absent_or (λ a. v a == version_or v read)) now ≡ true
    → read ≡ now
read_stored v read now (inl e) h = e
read_stored v read none (inr older) h = absurd (omega (arith, older))
read_stored v read (some a) (inr older) h = absurd (ground arith)
