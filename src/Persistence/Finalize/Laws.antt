-- ===== src/Persistence/Finalize/Laws.antt =====
-- What finalising an attempt does to the tables, over all its rounds.
use partner_integration_reli.Prelude.{
  ℕ, ◌≡◌, ◌<◌, refl, Bool, true, false, Option, none, some, ok, err, arith, Option-cases,
  Result-cases, inl, inr, List, ◌++◌,
}
use partner_integration_reli.Domain.Types.{
  CircuitRuntimeState, LeaseToken, DeliveryExecution, DomainError,
}
use partner_integration_reli.Domain.Records.{CanonicalEvent, OutboxRecord}
use partner_integration_reli.Store.Condition.{matches}
use partner_integration_reli.Store.Keys.{TenantKey}
use partner_integration_reli.Store.Database.{Database}
use partner_integration_reli.Store.Commit.{Evolves, Evolves-refl, advance-Evolves, all_quiet}
use partner_integration_reli.Persistence.Common.{
  domain, get_delivery, get_event, reindex, reindex-quiet, settle, settle-store, all_quiet-append,
  history_put, outbox_put,
}
use partner_integration_reli.Persistence.Rounds.{Round, Answer}
use partner_integration_reli.Persistence.Rollups.{rollup_updates}
use partner_integration_reli.Persistence.Attempt.{event_key}
use partner_integration_reli.Persistence.Finalize.{
  side_writes, finalized_at, FinalizeAttempt, updated_event, is_finalizable, final_delivery,
  event_writes, outbox_writes, circuit_writes, rest_writes, finalize_writes, finalize_round,
}

pub finalizable_version :
    (v : ℕ) (t : LeaseToken) (a : ℕ) (d : DeliveryExecution)
    → is_finalizable v t a d ≡ true
    → d.version ≡ v
finalizable_version v t a d h = ground arith

pub event_writes-quiet :
    (d : DeliveryExecution) (k : TenantKey) (e f : CanonicalEvent)
    → all_quiet (event_writes d k e f) ≡ true
unfolding event_writes
event_writes-quiet d k e f = ground arith

outbox_writes-quiet : (o : Option OutboxRecord) → all_quiet (outbox_writes o) ≡ true
unfolding outbox_writes outbox_put
outbox_writes-quiet none = refl
outbox_writes-quiet (some o) = refl

circuit_writes-quiet :
    (k : TenantKey) (c : Option CircuitRuntimeState) → all_quiet (circuit_writes k c) ≡ true
unfolding circuit_writes
circuit_writes-quiet k none = refl
circuit_writes-quiet k (some c) = refl

side-quiet :
    (spell : ℕ → List ℕ) (i : FinalizeAttempt) (e f : CanonicalEvent)
    → all_quiet (side_writes spell i e f) ≡ true
unfolding side_writes rollup_updates
side-quiet spell i e f =
    let circuit =
      circuit_writes (record { tenant = i.key.tenant; id = i.delivery.destination_id }) i.circuit in
    let rollups =
      rollup_updates spell i.key.tenant i.delivery.destination_id i.delivery.delivery_id
        (finalized_at i) i.attempt i.delivery in
    all_quiet-append (event_writes i.delivery (event_key i.key) e f)
      (outbox_writes i.outbox ++ (rollups ++ circuit))
      (event_writes-quiet i.delivery (event_key i.key) e f)
      (all_quiet-append (outbox_writes i.outbox) (rollups ++ circuit) (outbox_writes-quiet i.outbox)
        (circuit_writes-quiet (record { tenant = i.key.tenant; id = i.delivery.destination_id })
          i.circuit))

pub rest-quiet :
    (spell : ℕ → List ℕ) (i : FinalizeAttempt) (d : DeliveryExecution) (e f : CanonicalEvent)
    → all_quiet (rest_writes spell i d e f) ≡ true
unfolding rest_writes history_put
rest-quiet spell i d e f =
    all_quiet-append (reindex d i.delivery) (side_writes spell i e f) (reindex-quiet d i.delivery)
      (side-quiet spell i e f)

module _ (db : Database) (spell : ℕ → List ℕ) (i : FinalizeAttempt) (round : Round db)
    (s : db.Store) where
  open db use {tables, transact}

  pub finalize_cases {ℓ} :
      (P : db.Store × Answer Bool → Type ℓ)
      → P (s, ok (some false))
      → ((e : DomainError) → P (s, err (domain e)))
      → ((current : DeliveryExecution) (event updated : CanonicalEvent)
          → get_delivery round.seen i.key round.clock ≡ some current
          → get_event round.seen (event_key i.key) round.clock ≡ some event
          → updated_event i.delivery event ≡ ok updated
          → P (
              settle (transact s (finalize_writes spell i current event updated)) (some true) none))
      → P (finalize_round db spell i round s)
  unfolding finalize_round
  finalize_cases P gone failed tried =
      elim (Option-cases (get_delivery round.seen i.key round.clock)) [
        | inl e ↦ rw (e, finalize_round) gone
        | inr (current, e) ↦
            elim (Option-cases (get_event round.seen (event_key i.key) round.clock)) [
              | inl h ↦ rw (e, finalize_round) (rw h gone)
              | inr (event, h) ↦ elim (Result-cases (updated_event i.delivery event)) [
                | inl (f, u) ↦ rw (e, finalize_round) (rw h (rw u (failed f)))
                | inr (updated, u) ↦
                    rw (e, finalize_round) (rw h (rw u (tried current event updated e h u)))
              ]
            ]
      ]

  pub finalize_round-Evolves :
      i.expected_version < i.delivery.version
      → Evolves (tables s) (tables (finalize_round db spell i round s).0)
  unfolding finalize_writes
  finalize_round-Evolves newer =
      finalize_cases (λ r. Evolves (tables s) (tables r.0)) (Evolves-refl (tables s))
        (λ e. Evolves-refl (tables s))
        (λ current event updated e h u.
          rw
            (settle-store (transact s (finalize_writes spell i current event updated)) (some true)
              none)
            (advance-Evolves db s
              (matches (is_finalizable i.expected_version i.lease_token i.attempt.attempt_id)) i.key
              (final_delivery i.delivery) (rest_writes spell i current event updated)
              (rest-quiet spell i current event updated)
              (λ d g. omega (
                arith,
                finalizable_version i.expected_version i.lease_token i.attempt.attempt_id d g,
                newer,
              ))))
