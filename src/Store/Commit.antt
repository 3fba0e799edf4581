-- ===== src/Store/Commit.antt =====
-- What a transaction does to the deliveries: a stored delivery stays, or is replaced by one of a
-- higher version.
use partner_integration_reli.Prelude.{
  ◌<◌, ◌≡◌, ◌⊎◌, refl, ap, ◌∙◌, inl, inr, Bool, true, false, ◌&&◌, some, List, [], ◌∷◌, arith,
  Bool-cases,
}
use partner_integration_reli.Domain.Types.{DeliveryExecution}
use partner_integration_reli.Store.Condition.{Condition, holds, put}
use partner_integration_reli.Store.Keys.{
  DeliveryKey, delivery_key_eq, delivery_key_eq_iff, delivery_key_eq_refl,
}
use partner_integration_reli.Store.Tables.{
  Tables, Write, put_delivery, allows, write, allow, commit,
}
use partner_integration_reli.Store.Database.{Database, Verdict, committed, cancelled, broken}

-- A write that leaves the deliveries alone.
abbrev pub is_quiet : Write → Bool
is_quiet (put_delivery c k v) = false
is_quiet _ = true

abbrev pub all_quiet : List Write → Bool
all_quiet [] = true
all_quiet (w ∷ ws) = is_quiet w && all_quiet ws

write-quiet : (t : Tables) (w : Write) → is_quiet w ≡ true → (write t w).deliveries ≡ t.deliveries
unfolding write
write-quiet t (put_delivery c k v) h = cc
write-quiet t _ h = refl

pub commit-quiet :
    (t : Tables) (ws : List Write) → all_quiet ws ≡ true → (commit t ws).deliveries ≡ t.deliveries
unfolding commit
commit-quiet t [] h = refl
commit-quiet t (w ∷ ws) h =
    commit-quiet (write t w) ws (ground arith) ∙ write-quiet t w (ground arith)

pub commit-put :
    (t : Tables) (c : Condition DeliveryExecution) (k : DeliveryKey) (d : DeliveryExecution)
    (ws : List Write)
    → all_quiet ws ≡ true
    → (commit t (put_delivery c k d ∷ ws)).deliveries ≡ put delivery_key_eq k d t.deliveries
unfolding commit write
commit-put t c k d ws h = commit-quiet _ ws h

-- Every delivery stored before is stored after, unchanged or at a higher version.
abbrev pub Evolves : Tables → Tables → Type 0
Evolves t u =
    (k : DeliveryKey) (d : DeliveryExecution)
    → t.deliveries k ≡ some d
    → (d' : DeliveryExecution) × (u.deliveries k ≡ some d') × ((d' ≡ d) ⊎ (d.version < d'.version))

pub Evolves-refl : (t : Tables) → Evolves t t
Evolves-refl t k d e = (d, e, inl refl)

pub Evolves-same : (t u : Tables) → u.deliveries ≡ t.deliveries → Evolves t u
Evolves-same t u h k d e = (d, rw h e, inl refl)

pub Evolves-trans : (t u v : Tables) → Evolves t u → Evolves u v → Evolves t v
Evolves-trans t u v f g k d e =
    let (d1, e1, c1) = f k d e in let (d2, e2, c2) = g k d1 e1 in (d2, e2, ground arith)

pub put-Evolves :
    (t u : Tables) (k : DeliveryKey) (d' : DeliveryExecution)
    → u.deliveries ≡ put delivery_key_eq k d' t.deliveries
    → ((d : DeliveryExecution) → t.deliveries k ≡ some d → d.version < d'.version)
    → Evolves t u
put-Evolves t u k d' h newer j d e = elim (Bool-cases (delivery_key_eq k j)) [
  | inl same ↦ (d', rw h (rw same refl), inr (newer d (rw ((delivery_key_eq_iff k j).0 same) e)))
  | inr other ↦ (d, rw h (rw other e), inl refl)
]

Verdict-cases : (v : Verdict) → (v ≡ committed) ⊎ ((v ≡ cancelled) ⊎ (v ≡ broken))
Verdict-cases v = ground arith

pub allow_head :
    (t : Tables) (w : Write) (ws : List Write) → allow t (w ∷ ws) ≡ true → allows t w ≡ true
unfolding allow
allow_head t w ws h = ground arith

allow_put :
    (t : Tables) (c : Condition DeliveryExecution) (k : DeliveryKey) (d' d : DeliveryExecution)
    (ws : List Write)
    → allow t (put_delivery c k d' ∷ ws) ≡ true
    → t.deliveries k ≡ some d
    → holds c (some d) ≡ true
unfolding allows
allow_put t c k d' d ws h e = rw e at (allow_head t (put_delivery c k d') ws h)

module _ (db : Database) (s : db.Store) where
  open db use {tables, transact}

  -- Whatever comes of it, a transaction leaves the tables as they were or commits.
  pub transact_cases :
      (ws : List Write)
      → (tables (transact s ws).0 ≡ tables s)
        ⊎ (allow (tables s) ws ≡ true) × (tables (transact s ws).0 ≡ commit (tables s) ws)
  transact_cases ws = elim (Verdict-cases (transact s ws).1) [
    | inl done ↦ inr (db.committed_law s ws done)
    | inr (inl none_applied) ↦ inl (db.cancelled_law s ws none_applied)
    | inr (inr lost) ↦ db.broken_law s ws lost
  ]

  pub quiet-Evolves :
      (ws : List Write) → all_quiet ws ≡ true → Evolves (tables s) (tables (transact s ws).0)
  quiet-Evolves ws h = elim (transact_cases ws) [
    | inl same ↦ Evolves-same (tables s) (tables (transact s ws).0) (ap (λ t. t.deliveries) same)
    | inr (ok_all, done) ↦
        Evolves-same (tables s) (tables (transact s ws).0)
          (ap (λ t. t.deliveries) done ∙ commit-quiet (tables s) ws h)
  ]

  -- A transaction that replaces one delivery, under a condition that only lower versions meet.
  pub advance-Evolves :
      (c : Condition DeliveryExecution) (k : DeliveryKey) (d' : DeliveryExecution) (ws : List Write)
      → all_quiet ws ≡ true
      → ((d : DeliveryExecution) → holds c (some d) ≡ true → d.version < d'.version)
      → Evolves (tables s) (tables (transact s (put_delivery c k d' ∷ ws)).0)
  advance-Evolves c k d' ws h newer = elim (transact_cases (put_delivery c k d' ∷ ws)) [
    | inl same ↦
        Evolves-same (tables s) (tables (transact s (put_delivery c k d' ∷ ws)).0)
          (ap (λ t. t.deliveries) same)
    | inr (allowed, done) ↦
        put-Evolves (tables s) (tables (transact s (put_delivery c k d' ∷ ws)).0) k d'
          (ap (λ t. t.deliveries) done ∙ commit-put (tables s) c k d' ws h)
          (λ d e. newer d (allow_put (tables s) c k d' d ws allowed e))
  ]

  -- After a committed replacement the new delivery is there, and the old one met the condition.
  pub advance_committed :
      (c : Condition DeliveryExecution) (k : DeliveryKey) (d' : DeliveryExecution) (ws : List Write)
      → all_quiet ws ≡ true
      → (transact s (put_delivery c k d' ∷ ws)).1 ≡ committed
      → (holds c ((tables s).deliveries k) ≡ true)
        × ((tables (transact s (put_delivery c k d' ∷ ws)).0).deliveries k ≡ some d')
  unfolding allows
  advance_committed c k d' ws h e =
      let l = db.committed_law s (put_delivery c k d' ∷ ws) e in
      (
        allow_head (tables s) (put_delivery c k d') ws l.0,
        ap (λ t. t.deliveries k) l.1
            ∙ ap (λ m. m k) (commit-put (tables s) c k d' ws h)
            ∙ rw (delivery_key_eq_refl k),
      )
