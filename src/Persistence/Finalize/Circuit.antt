-- ===== src/Persistence/Finalize/Circuit.antt =====
-- The circuit of a finalisation.
use partner_integration_reli.Prelude.{
  ℕ, ◌-◌, ◌≡◌, ◌≢◌, ap, ◌∙◌, true, false, none, some, ok, arith, inl, inr, List,
}
use partner_integration_reli.Domain.Types.{CircuitRuntimeState, DeliveryExecution}
use partner_integration_reli.Domain.Records.{CanonicalEvent}
use partner_integration_reli.Store.Keys.{TenantKey}
use partner_integration_reli.Store.Tables.{Tables, allow, allows}
use partner_integration_reli.Store.Database.{Database}
use partner_integration_reli.Store.Commit.{transact_cases}
use partner_integration_reli.Persistence.Common.{settle-store, settle-committed}
use partner_integration_reli.Persistence.Rounds.{Round, retry_rounds_answered}
use partner_integration_reli.Persistence.Finalize.{
  FinalizeAttempt, circuit_writes, finalize_writes, finalize_round, finalize_attempt,
}
use partner_integration_reli.Persistence.Finalize.Laws.{finalize_cases}
use partner_integration_reli.Persistence.Finalize.Committed.{finalize_allowed}

abbrev pub circuit_key : FinalizeAttempt → TenantKey
circuit_key i = record { tenant = i.key.tenant; id = i.delivery.destination_id }

circuit_refused :
    (t : Tables) (k : TenantKey) (c x : CircuitRuntimeState)
    → t.circuits k ≡ some x
    → x.version ≢ c.version - 1
    → ¬ (allow t (circuit_writes k (some c)) ≡ true)
unfolding circuit_writes allow allows
circuit_refused t k c x e n = rw e (λ h. ground arith)

module _ (db : Database) (spell : ℕ → List ℕ) (i : FinalizeAttempt) (c x : CircuitRuntimeState)
    (given : i.circuit ≡ some c) (other : x.version ≢ c.version - 1) where
  open db use {tables, transact}

  abbrev Ahead : db.Store → Type 0
  Ahead t = (tables t).circuits (circuit_key i) ≡ some x

  never_allowed :
      (t : db.Store) (d : DeliveryExecution) (e f : CanonicalEvent)
      → Ahead t
      → ¬ (allow (tables t) (finalize_writes spell i d e f) ≡ true)
  never_allowed t d e f p h =
      circuit_refused (tables t) (circuit_key i) c x p other
        (rw given at (finalize_allowed spell i d e f (tables t) h).2)

  round-Ahead :
      (round : Round db) (t : db.Store) → Ahead t → Ahead (finalize_round db spell i round t).0
  round-Ahead round t p =
      finalize_cases db spell i round t (λ r. Ahead r.0) p (λ e. p)
        (λ d e f h1 h2 h3.
          rw (settle-store (transact t (finalize_writes spell i d e f)) (some true) none)
            (elim (transact_cases db t (finalize_writes spell i d e f)) [
              | inl same ↦ ap (λ (u : Tables). u.circuits (circuit_key i)) same ∙ p
              | inr (allowed, done) ↦ absurd (never_allowed t d e f p allowed)
            ]))

  round_not_true :
      (round : Round db) (t : db.Store)
      → Ahead t
      → ¬ ((finalize_round db spell i round t).1 ≡ ok (some true))
  round_not_true round t p =
      finalize_cases db spell i round t (λ r. ¬ (r.1 ≡ ok (some true))) (λ h. cc) (λ e h. cc)
        (λ d e f h1 h2 h3 g.
          let ws = finalize_writes spell i d e f in
          let (done, same) =
            settle-committed (transact t ws) (some true) none (some true) g (λ q. cc) in
          never_allowed t d e f p (db.committed_law t ws done).0)

-- A finalisation that brings a circuit, where the stored circuit has any other version than the one
-- before it, and no other worker changes it, never succeeds in any of its rounds.
pub finalize-circuit_behind :
    (db : Database) (spell : ℕ → List ℕ) (i : FinalizeAttempt) (c x : CircuitRuntimeState)
    (rounds : ℕ → Round db) (s : db.Store)
    → i.circuit ≡ some c
    → x.version ≢ c.version - 1
    → (db.tables s).circuits (circuit_key i) ≡ some x
    → ((n : ℕ) (t : db.Store)
        → (db.tables ((rounds n).interfere t)).circuits (circuit_key i)
          ≡ (db.tables t).circuits (circuit_key i))
    → ¬ ((finalize_attempt db spell i rounds s).1 ≡ ok true)
unfolding finalize_attempt
finalize-circuit_behind db spell i c x rounds s given other at_s others g =
    elim (retry_rounds_answered db (finalize_round db spell i) (ok false) rounds
      (Ahead db spell i c x given other) (λ n t p. others n t ∙ p)
      (round-Ahead db spell i c x given other) true 8 s at_s g) [
        | inl never ↦ cc
        | inr (m, t, p, yes_m, same) ↦
            round_not_true db spell i c x given other (rounds m) t p yes_m
      ]
