-- ===== src/Persistence/RatePermit/Served.antt =====
-- A permit is decided on the state it replaces.
use partner_integration_reli.Prelude.{
  ℕ, ◌≡◌, refl, sym, ap, ◌∙◌, true, false, ◌==◌, Option, none, some, get_or, [], ◌∷◌, ok,
  Bool-cases, inl, inr, arith,
}
use partner_integration_reli.Domain.Types.{RateLimitPolicy, RateLimitRuntimeState}
use partner_integration_reli.Domain.Rate.{rate_limit_decision}
use partner_integration_reli.Domain.Rate.Bound.{served, after}
use partner_integration_reli.Store.Condition.{absent_or}
use partner_integration_reli.Store.Keys.{tenant_key_eq_refl}
use partner_integration_reli.Store.Tables.{put_rate, allows, commit, write}
use partner_integration_reli.Store.Database.{Database}
use partner_integration_reli.Store.Commit.{allow_head}
use partner_integration_reli.Persistence.Common.{settle, settle-store, settle-committed}
use partner_integration_reli.Persistence.Rounds.{Round, Answer, Behind, read_stored, version_or}
use partner_integration_reli.Persistence.RatePermit.{
  RateRequest, RatePermit, tat_of, next_rate, rate_writes, rate_round,
}

permitted_next :
    (tat : Option ℕ) (p : RateLimitPolicy) (now : ℕ)
    → (rate_limit_decision tat p now).permitted ≡ true
    → some (get_or (rate_limit_decision tat p now).next_theoretical_arrival_time_ms now)
      ≡ served p tat (now ∷ [])
unfolding rate_limit_decision served after
permitted_next tat p now h = ground arith

module _ (db : Database) (i : RateRequest) (round : Round db) (s : db.Store) where
  pub rate_cases {ℓ} :
      (P : db.Store × Answer RatePermit → Type ℓ)
      → ((permit : RatePermit) → P (s, ok (some permit)))
      → P (
          settle
            (db.transact s (
              rate_writes i
                (round.seen.rates i.key)
                (rate_limit_decision (tat_of (round.seen.rates i.key)) i.policy i.now)))
            (some (record { permitted = true; next_eligible_at = i.now }))
            none)
      → P (rate_round db i round s)
  unfolding rate_round rate_limit_decision
  rate_cases P refused tried =
      let d = rate_limit_decision (tat_of (round.seen.rates i.key)) i.policy i.now in
      elim (Bool-cases d.permitted) [
        | inl free ↦ rw (free, rate_round) tried
        | inr busy ↦
            rw (busy, rate_round)
              (refused (record { permitted = false; next_eligible_at = d.next_eligible_at_ms }))
      ]

  rate_round-tried :
      (rate_limit_decision (tat_of (round.seen.rates i.key)) i.policy i.now).permitted ≡ true
      → rate_round db i round s
        ≡ settle
            (db.transact s (
              rate_writes i
                (round.seen.rates i.key)
                (rate_limit_decision (tat_of (round.seen.rates i.key)) i.policy i.now)))
            (some (record { permitted = true; next_eligible_at = i.now }))
            none
  unfolding rate_round
  rate_round-tried h = rw (h, rate_round) refl

  granted_only :
      (permit : RatePermit)
      → (rate_round db i round s).1 ≡ ok (some permit)
      → permit.permitted ≡ true
      → (rate_limit_decision (tat_of (round.seen.rates i.key)) i.policy i.now).permitted ≡ true
  unfolding rate_round
  granted_only permit g granted =
      elim (Bool-cases
        (rate_limit_decision (tat_of (round.seen.rates i.key)) i.policy i.now).permitted) [
          | inl held ↦ held
          | inr refused ↦ let h = rw (refused, rate_round) at g in cc
        ]

-- A round that grants a permit, on a read that is not newer than the store: the state in the store
-- permits the request, and what the round leaves in the store is the state after that request.
pub rate_round-served :
    (db : Database) (i : RateRequest) (round : Round db) (s : db.Store) (permit : RatePermit)
    → Behind
        (λ (r : RateLimitRuntimeState). r.version)
        (round.seen.rates i.key)
        ((db.tables s).rates i.key)
    → (rate_round db i round s).1 ≡ ok (some permit)
    → permit.permitted ≡ true
    → ((rate_limit_decision (tat_of ((db.tables s).rates i.key)) i.policy i.now).permitted ≡ true)
      × (tat_of ((db.tables (rate_round db i round s).0).rates i.key)
          ≡ served i.policy (tat_of ((db.tables s).rates i.key)) (i.now ∷ []))
unfolding rate_writes allows commit write next_rate
rate_round-served db i round s permit behind g granted =
    let current = round.seen.rates i.key in
    let d = rate_limit_decision (tat_of current) i.policy i.now in
    let permitted = granted_only db i round s permit g granted in
    let e = rate_round-tried db i round s permitted in
    let ws = rate_writes i current d in
    let yes_permit : RatePermit = record { permitted = true; next_eligible_at = i.now } in
    let done =
      settle-committed (db.transact s ws) (some yes_permit) none (some permit) (rw (sym e) g)
        (λ p. cc) in
    let l = db.committed_law s ws done.0 in
    let read =
      read_stored (λ (r : RateLimitRuntimeState). r.version) current ((db.tables s).rates i.key)
        behind
        (allow_head (db.tables s)
          (put_rate
            (absent_or
              (λ r. r.version == version_or (λ (x : RateLimitRuntimeState). x.version) current))
            i.key (next_rate i current d))
          [] l.0) in
    let kept : (db.tables (rate_round db i round s).0).rates i.key ≡ some (next_rate i current d) =
      rw (e) (
        rw (settle-store (db.transact s ws) (some yes_permit) none)
          (ap (λ t. t.rates i.key) l.1 ∙ rw (tenant_key_eq_refl i.key) refl)) in
    (
      rw (sym read) permitted,
      ap tat_of kept ∙ rw (sym read) (permitted_next (tat_of current) i.policy i.now permitted),
    )
