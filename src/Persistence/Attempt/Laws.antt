-- ===== src/Persistence/Attempt/Laws.antt =====
-- What starting and deferring an attempt do to the tables.
use partner_integration_reli.Prelude.{
  ℕ, ◌+◌, ◌≡◌, ◌<◌, refl, sym, ap, ◌∙◌, true, false, Option, none, some, ok, err, arith,
  Option-cases, inl, inr, [], ◌∷◌, ◌++◌,
}
use partner_integration_reli.Domain.Types.{LeaseToken, DeliveryExecution}
use partner_integration_reli.Domain.Records.{DeliveryAttempt}
use partner_integration_reli.Store.Condition.{matches, absent, holds, holds-matches}
use partner_integration_reli.Store.Keys.{attempt_key_eq_refl}
use partner_integration_reli.Store.Tables.{Tables, put_attempt, allow, allows, commit, write}
use partner_integration_reli.Store.Database.{Database}
use partner_integration_reli.Store.Commit.{
  Evolves, Evolves-refl, advance-Evolves, advance_committed, all_quiet,
}
use partner_integration_reli.Persistence.Common.{
  storage, get_delivery, stored, reindex, reindex-quiet, settle, settle-store, settle-committed,
  all_quiet-append, outbox_put, history_put,
}
use partner_integration_reli.Persistence.Attempt.{
  attempt_key, stored_attempt, StartAttempt, started_delivery, is_startable, start_writes,
  start_under, start_attempt, DeferDelivery, is_held, defer_writes, defer_delivery,
}

held_version :
    (v : ℕ) (t : LeaseToken) (d : DeliveryExecution) → is_held v t d ≡ true → d.version ≡ v
held_version v t d h = ground arith

pub startable_version :
    (v : ℕ) (t : LeaseToken) (d : DeliveryExecution) → is_startable v t d ≡ true → d.version ≡ v
startable_version v t d h = ground arith

defer-quiet :
    (i : DeferDelivery) (d : DeliveryExecution)
    → all_quiet (history_put i.key i.history ∷ (reindex d i.delivery ++ outbox_put i.outbox ∷ []))
      ≡ true
unfolding history_put outbox_put
defer-quiet i d =
    all_quiet-append (reindex d i.delivery) (outbox_put i.outbox ∷ []) (reindex-quiet d i.delivery)
      refl

module _ (db : Database) (s : db.Store) where
  open db use {tables, transact}

  -- A deferral whose delivery is newer than the version it expects moves the deliveries forward.
  pub defer-Evolves :
      (i : DeferDelivery) (seen : Tables) (now : ℕ)
      → i.expected_version < i.delivery.version
      → Evolves (tables s) (tables (defer_delivery db i seen now s).0)
  unfolding defer_delivery defer_writes
  defer-Evolves i seen now newer = elim (Option-cases (get_delivery seen i.key now)) [
    | inl e ↦ rw (e, defer_delivery) (Evolves-refl (tables s))
    | inr (current, e) ↦
        rw (e, defer_delivery)
          (rw (settle-store (transact s (defer_writes i current)) true false) (
            advance-Evolves db s (matches (is_held i.expected_version i.lease_token)) i.key
              (stored i.delivery) _ (defer-quiet i current)
              (λ d g. omega (arith, held_version i.expected_version i.lease_token d g, newer))))
  ]

pub start-refused :
    (db : Database) (s : db.Store) (i : StartAttempt)
    → i.delivery.lease_token ≡ none
    → start_attempt db i s ≡ (s, err storage)
unfolding start_attempt start_under
start-refused db s i e = ap (start_under db i s) e

pub start-tried :
    (db : Database) (s : db.Store) (i : StartAttempt) (token : LeaseToken)
    → i.delivery.lease_token ≡ some token
    → start_attempt db i s
      ≡ settle
          (db.transact s (start_writes i token))
          (some (started_delivery i.delivery i.attempt))
          none
unfolding start_attempt start_under
start-tried db s i token e = ap (start_under db i s) e

-- A start leaves the deliveries as they are or moves its own forward, where its delivery has the
-- version that it expects.
pub start-Evolves :
    (db : Database) (s : db.Store) (i : StartAttempt)
    → i.delivery.version ≡ i.expected_version
    → Evolves (db.tables s) (db.tables (start_attempt db i s).0)
unfolding start_writes started_delivery
start-Evolves db s i same = elim (Option-cases i.delivery.lease_token) [
  | inl e ↦ rw (start-refused db s i e) (Evolves-refl (db.tables s))
  | inr (token, e) ↦ rw (start-tried db s i token e) (
      rw
        (settle-store (db.transact s (start_writes i token))
          (some (started_delivery i.delivery i.attempt)) none)
        (advance-Evolves db s (matches (is_startable i.expected_version token)) i.key
          (stored (started_delivery i.delivery i.attempt)) _ refl
          (λ d g. omega (arith, startable_version i.expected_version token d g, same))))
]

-- A started attempt: the delivery was held under the token without an attempt under way, and the
-- attempt was not there; both are now.
pub record Started (i : StartAttempt) (before after : Tables) (d : DeliveryExecution) : Type 0 where
  pub token : LeaseToken
  pub named : i.delivery.lease_token ≡ some token
  pub freed :
      (old : DeliveryExecution) × (before.deliveries i.key ≡ some old)
      × (is_startable i.expected_version token old ≡ true)
  pub underway : d.active_attempt_id ≡ some i.attempt.attempt_id
  pub counted : d.attempt_count ≡ i.attempt.attempt_number
  pub next : d.version ≡ i.delivery.version + 1
  pub kept : after.deliveries i.key ≡ some (stored d)
  pub unused : before.attempts (attempt_key i.key i.attempt) ≡ none
  pub recorded : after.attempts (attempt_key i.key i.attempt) ≡ some (stored_attempt i.attempt)

absent_none : {A : Type 0} (o : Option A) → holds absent o ≡ true → o ≡ none
absent_none none h = refl
absent_none (some a) h = cc

-- A start that returns the delivery has started the attempt.
pub start-Started :
    (db : Database) (s : db.Store) (i : StartAttempt) (d : DeliveryExecution)
    → (start_attempt db i s).1 ≡ ok (some d)
    → Started i (db.tables s) (db.tables (start_attempt db i s).0) d
unfolding start_writes started_delivery allow allows commit write
start-Started db s i d g = elim (Option-cases i.delivery.lease_token) [
  | inl e ↦ let h = sym g ∙ ap (λ r. r.1) (start-refused db s i e) in cc
  | inr (token, e) ↦
      let run = start-tried db s i token e in
      let ws = start_writes i token in
      let r = started_delivery i.delivery i.attempt in
      let (done, same) =
        settle-committed (db.transact s ws) (some r) none (some d) (rw run at g) (λ p. cc) in
      let d_r : d ≡ r = cc in
      let l = db.committed_law s ws done in
      let c =
        advance_committed db s (matches (is_startable i.expected_version token)) i.key (stored r)
          (put_attempt absent (attempt_key i.key i.attempt) (stored_attempt i.attempt) ∷ []) refl
          done in
      let after : (db.tables (start_attempt db i s).0) ≡ commit (db.tables s) ws =
        rw run (rw (settle-store (db.transact s ws) (some r) none) l.1) in
      record {
        token = token;
        named = e;
        freed = holds-matches _ _ c.0;
        underway = ap (λ (x : DeliveryExecution). x.active_attempt_id) d_r;
        next = ap (λ (x : DeliveryExecution). x.version) d_r;
        counted = ap (λ (x : DeliveryExecution). x.attempt_count) d_r;
        kept = rw run (
            rw (settle-store (db.transact s ws) (some r) none)
              (c.1 ∙ ap (λ x. some (stored x)) (sym d_r)));
        unused = absent_none _ (ground arith);
        recorded =
            ap (λ t. t.attempts (attempt_key i.key i.attempt)) after
            ∙ rw (attempt_key_eq_refl (attempt_key i.key i.attempt)) refl;
      }
]

-- The delivery that a start returns is the one that it was passed, with the attempt counted.
pub start-returned :
    (db : Database) (s : db.Store) (i : StartAttempt) (d : DeliveryExecution)
    → (start_attempt db i s).1 ≡ ok (some d)
    → d ≡ started_delivery i.delivery i.attempt
start-returned db s i d h = elim (Option-cases i.delivery.lease_token) [
  | inl e ↦ let g = rw (start-refused db s i e) at h in cc
  | inr (token, e) ↦
      let g = rw (start-tried db s i token e) at h in
      let (done, same) =
        settle-committed (db.transact s (start_writes i token))
          (some (started_delivery i.delivery i.attempt)) none (some d) g (λ p. cc) in
      cc
]

pub started_snapshot :
    (d : DeliveryExecution) (a : DeliveryAttempt)
    → (started_delivery d a).config_snapshot ≡ d.config_snapshot
unfolding started_delivery
started_snapshot d a = refl
