-- ===== src/Persistence/Finalize/Once.antt =====
-- A finalisation that succeeds: what it found, what it left, and that it is the only one.
use partner_integration_reli.Prelude.{
  ℕ, ◌≡◌, ◌<◌, ◌≤◌, ◌⊎◌, refl, sym, ap, ◌∙◌, true, false, none, some, ok, arith, inl, inr, List,
  Bool-cases,
}
use partner_integration_reli.Domain.Types.{DeliveryExecution}
use partner_integration_reli.Domain.Records.{CanonicalEvent, DeliveryAttempt}
use partner_integration_reli.Store.Condition.{matches, holds-matches}
use partner_integration_reli.Store.Keys.{tenant_key_eq_refl, attempt_key_eq_refl}
use partner_integration_reli.Store.Tables.{Tables}
use partner_integration_reli.Store.Database.{Database, committed}
use partner_integration_reli.Store.Commit.{Evolves, Evolves-refl, Evolves-trans, advance_committed}
use partner_integration_reli.Persistence.Common.{settle-store, settle-committed, stored_event}
use partner_integration_reli.Persistence.Rounds.{
  Forward, Round, retry_rounds_keep, retry_rounds_answered,
}
use partner_integration_reli.Persistence.Rollups.{outcome_is_started}
use partner_integration_reli.Persistence.Attempt.{event_key, attempt_key, stored_attempt}
use partner_integration_reli.Persistence.Finalize.{
  FinalizeAttempt, updates_original_event, updated_event, is_finalizable, final_delivery,
  rest_writes, finalize_writes, finalize_round, finalize_attempt,
}
use partner_integration_reli.Persistence.Finalize.Laws.{
  finalizable_version, rest-quiet, finalize_cases, finalize_round-Evolves,
}
use partner_integration_reli.Persistence.Finalize.Committed.{
  finalize_core, finalize_allowed, event_allowed, event_writes-put, event_writes-unput,
}

-- The events' part: a delivery that ends as an original is counted, from an event that has the
-- version of the stored one, and any other delivery leaves the events as they were.
abbrev Counted : FinalizeAttempt → Tables → Tables → Type 0
Counted i before after =
    (updates_original_event i.delivery ≡ false) × (after.events ≡ before.events)
    ⊎ (updates_original_event i.delivery ≡ true)
      × ((found read updated : CanonicalEvent) × (before.events (event_key i.key) ≡ some found)
          × (found.version ≡ read.version)
          × (updated_event i.delivery read ≡ ok updated)
          × (after.events (event_key i.key) ≡ some (stored_event updated)))

pub record Finalized (i : FinalizeAttempt) (before after : Tables) : Type 0 where
  pub held :
      (old : DeliveryExecution) × (before.deliveries i.key ≡ some old)
      × (is_finalizable i.expected_version i.lease_token i.attempt.attempt_id old ≡ true)
  pub kept : after.deliveries i.key ≡ some (final_delivery i.delivery)
  pub underway :
      (a : DeliveryAttempt) × (before.attempts (attempt_key i.key i.attempt) ≡ some a)
      × (outcome_is_started a.outcome ≡ true)
  pub recorded : after.attempts (attempt_key i.key i.attempt) ≡ some (stored_attempt i.attempt)
  pub counted : Counted i before after

module _ (db : Database) (spell : ℕ → List ℕ) (i : FinalizeAttempt) (s : db.Store) where
  open db use {tables, transact}

  committed-Finalized :
      (current : DeliveryExecution) (read updated : CanonicalEvent)
      → updated_event i.delivery read ≡ ok updated
      → (transact s (finalize_writes spell i current read updated)).1 ≡ committed
      → Finalized i
          (tables s)
          (tables (transact s (finalize_writes spell i current read updated)).0)
  unfolding finalize_writes
  committed-Finalized current read updated u done =
      let ws = finalize_writes spell i current read updated in
      let l = db.committed_law s ws done in
      let c =
        advance_committed db s
          (matches (is_finalizable i.expected_version i.lease_token i.attempt.attempt_id)) i.key
          (final_delivery i.delivery) (rest_writes spell i current read updated)
          (rest-quiet spell i current read updated) done in
      let core = finalize_core spell i current read updated (tables s) in
      let met = finalize_allowed spell i current read updated (tables s) l.0 in
      record {
        held = holds-matches _ _ c.0;
        kept = c.1;
        underway = holds-matches _ _ met.0;
        recorded =
            ap (λ (t : Tables). t.attempts (attempt_key i.key i.attempt)) l.1
            ∙ ap (λ m. m (attempt_key i.key i.attempt)) core.0
            ∙ rw (attempt_key_eq_refl (attempt_key i.key i.attempt)) refl;
        counted = elim (Bool-cases (updates_original_event i.delivery)) [
          | inr other ↦ inl (
            other,
            ap (λ (t : Tables). t.events) l.1
                ∙ core.1
                ∙ event_writes-unput (tables s) i.delivery (event_key i.key) read updated other,
          )
          | inl original ↦
              let found =
                event_allowed (tables s) i.delivery (event_key i.key) read updated original met.1 in
              inr (
                original,
                (
                  found.0,
                  read,
                  updated,
                  found.1,
                  found.2,
                  u,
                  ap (λ (t : Tables). t.events (event_key i.key)) l.1
                      ∙ ap (λ m. m (event_key i.key)) core.1
                      ∙ ap (λ m. m (event_key i.key))
                          (event_writes-put (tables s) i.delivery (event_key i.key) read updated
                            original)
                      ∙ rw (tenant_key_eq_refl (event_key i.key)) refl,
                ),
              )
        ];
      }

  round-Finalized :
      (round : Round db)
      → (finalize_round db spell i round s).1 ≡ ok (some true)
      → Finalized i (tables s) (tables (finalize_round db spell i round s).0)
  round-Finalized round =
      finalize_cases db spell i round s
        (λ r. r.1 ≡ ok (some true) → Finalized i (tables s) (tables r.0)) (λ g. cc) (λ e g. cc)
        (λ current read updated e h u g.
          let ws = finalize_writes spell i current read updated in
          let (done, same) =
            settle-committed (transact s ws) (some true) none (some true) g (λ p. cc) in
          rw (settle-store (transact s ws) (some true) none)
            (committed-Finalized current read updated u done))

module _ (db : Database) (spell : ℕ → List ℕ) (i : FinalizeAttempt) (rounds : ℕ → Round db)
    (s : db.Store) (others : Forward db rounds)
    (newer : i.expected_version < i.delivery.version) where
  open db use {tables}

  abbrev Since : db.Store → Type 0
  Since t = Evolves (tables s) (tables t)

  others-Since : (n : ℕ) (t : db.Store) → Since t → Since ((rounds n).interfere t)
  others-Since n t p =
      Evolves-trans (tables s) (tables t) (tables ((rounds n).interfere t)) p (others n t)

  own-Since :
      (round : Round db) (t : db.Store) → Since t → Since (finalize_round db spell i round t).0
  own-Since round t p =
      Evolves-trans (tables s) (tables t) (tables (finalize_round db spell i round t).0) p
        (finalize_round-Evolves db spell i round t newer)

  -- Over all its rounds, a finalisation whose delivery is newer than the version it expects moves
  -- the deliveries forward, as long as other workers do.
  pub finalize-Evolves : Evolves (tables s) (tables (finalize_attempt db spell i rounds s).0)
  unfolding finalize_attempt
  finalize-Evolves =
      retry_rounds_keep db (finalize_round db spell i) (ok false) rounds Since others-Since
        own-Since 8 s (Evolves-refl (tables s))

  -- A finalisation that succeeds, whose delivery is newer than the version it expects, has found
  -- in one of its rounds the delivery under the lease with the attempt under way, and leaves the
  -- delivery and the attempt finished; an original delivery that ends is counted in its event, from
  -- an event that has the version of the stored one, and any other delivery leaves the events as
  -- they were, as long as other workers only move the deliveries forward.
  pub finalize-Finalized :
      (finalize_attempt db spell i rounds s).1 ≡ ok true
      → (t : db.Store) × Evolves (tables s) (tables t)
        × Finalized i (tables t) (tables (finalize_attempt db spell i rounds s).0)
  unfolding finalize_attempt
  finalize-Finalized g =
      elim (retry_rounds_answered db (finalize_round db spell i) (ok false) rounds Since
        others-Since own-Since true 8 s (Evolves-refl (tables s)) g) [
          | inl never ↦ cc
          | inr (m, t, p, yes_m, same) ↦
              (t, p, rw same (round-Finalized db spell i t (rounds m) yes_m))
        ]

not_below : (d e : DeliveryExecution) → (e ≡ d) ⊎ (d.version < e.version) → d.version ≤ e.version
not_below d e h = ground arith

-- A lease is finalised once: after a finalisation that succeeded, another one that expects the same
-- version of the same delivery does not succeed, where both bring a newer delivery than they
-- expect, as long as the deliveries only moved forward.
pub finalize_once :
    (db : Database) (spell : ℕ → List ℕ) (i i' : FinalizeAttempt) (rounds rounds' : ℕ → Round db)
    (s s' : db.Store)
    → Forward db rounds
    → Forward db rounds'
    → i.expected_version < i.delivery.version
    → i'.expected_version < i'.delivery.version
    → i'.key ≡ i.key
    → i'.expected_version ≡ i.expected_version
    → (finalize_attempt db spell i rounds s).1 ≡ ok true
    → Evolves (db.tables (finalize_attempt db spell i rounds s).0) (db.tables s')
    → ¬ ((finalize_attempt db spell i' rounds' s').1 ≡ ok true)
finalize_once db spell i i' rounds rounds' s s' others others' newer newer' same_key same_version g
      onward g' =
    let (t, p, one) = finalize-Finalized db spell i rounds s others newer g in
    let (t', p', two) = finalize-Finalized db spell i' rounds' s' others' newer' g' in
    let (d, at_d, grown) = onward i.key (final_delivery i.delivery) one.kept in
    let (d', at_d', grown') = p' i.key d at_d in
    let (old, at_old, found) = two.held in
    let e : some old ≡ some d' = sym at_old ∙ ap (db.tables t').deliveries same_key ∙ at_d' in
    let same : old ≡ d' = cc in
    omega (
      arith,
      not_below (final_delivery i.delivery) d grown,
      not_below d d' grown',
      newer,
      same_version,
      ap (λ (x : DeliveryExecution). x.version) same,
      finalizable_version i'.expected_version i'.lease_token i'.attempt.attempt_id old found,
    )
