-- ===== src/Persistence/Lease/Laws.antt =====
-- What `acquireLease` does to the tables, what a granted lease means, and that it is exclusive.
use partner_integration_reli.Prelude.{
  ℕ, ◌+◌, ◌<◌, ◌≤◌, ◌≡◌, ◌⊎◌, refl, sym, ap, ◌∙◌, true, Option, none, some, Result, ok, err, arith,
  Bool-cases, Option-cases, Result-cases, inl, inr,
}
use partner_integration_reli.Domain.Types.{
  rate_limited, in_progress, DeliveryExecution, DomainError, forbidden_transition,
}
use partner_integration_reli.Domain.Transition.{
  DeliveryTransition, transition_delivery, permitted_transitions, moved,
}
use partner_integration_reli.Domain.Transition.Outcome.{transition-IsSettled, transition-moved}
use partner_integration_reli.Store.Condition.{matches, holds-matches}
use partner_integration_reli.Store.Tables.{Tables}
use partner_integration_reli.Store.Database.{Database}
use partner_integration_reli.Store.Commit.{
  Evolves, Evolves-refl, advance-Evolves, advance_committed,
}
use partner_integration_reli.Persistence.Common.{
  Fault, domain, get_delivery, stored, reindex, reindex-quiet, settle, settle-store,
  settle-committed,
}
use partner_integration_reli.Persistence.Lease.{
  AcquireLease, is_leasable, lease_transition, lease_writes, acquire_lease,
}

leasable_version : (v now : ℕ) (d : DeliveryExecution) → is_leasable v now d ≡ true → d.version ≡ v
unfolding is_leasable
leasable_version v now d h = ground arith

module _ (db : Database) (s : db.Store) (seen : Tables) (read_at acquired_at : ℕ)
    (i : AcquireLease) where
  open db use {tables, transact}

  pub acquire_cases {ℓ} :
      (P : db.Store × Result Fault (Option DeliveryExecution) → Type ℓ)
      → P (s, ok none)
      → ((e : DomainError) → P (s, err (domain e)))
      → ((current leased : DeliveryExecution)
          → get_delivery seen i.key read_at ≡ some current
          → is_leasable i.expected_version acquired_at current ≡ true
          → transition_delivery current (lease_transition i acquired_at) ≡ ok leased
          → P (settle (transact s (lease_writes i acquired_at current leased)) (some leased) none))
      → P (acquire_lease db s seen read_at acquired_at i)
  unfolding acquire_lease
  acquire_cases P missed failed granted = elim (Option-cases (get_delivery seen i.key read_at)) [
    | inl e ↦ rw (e, acquire_lease) missed
    | inr (current, e) ↦ elim (Bool-cases (is_leasable i.expected_version acquired_at current)) [
      | inl free ↦
          elim (Result-cases (transition_delivery current (lease_transition i acquired_at))) [
            | inl (f, h) ↦ rw (e, acquire_lease) (rw free (rw h (failed f)))
            | inr (leased, h) ↦
                rw (e, acquire_lease) (rw free (rw h (granted current leased e free h)))
          ]
      | inr busy ↦ rw (e, acquire_lease) (rw busy missed)
    ]
  ]

moved_version :
    (d : DeliveryExecution) (t : DeliveryTransition) {d' : DeliveryExecution}
    → transition_delivery d t ≡ ok d'
    → d'.version ≡ d.version + 1
moved_version d t h = (transition-IsSettled d t h).2

-- What a granted lease comes with.
pub record Granted (i : AcquireLease) (acquired_at : ℕ) (before after : Tables)
    (leased : DeliveryExecution) : Type 0 where
  pub held : leased.state ≡ in_progress
  pub token : leased.lease_token ≡ some i.token
  pub version : leased.version ≡ i.expected_version + 1
  pub kept : after.deliveries i.key ≡ some (stored leased)
  pub freed :
      (old : DeliveryExecution) × (before.deliveries i.key ≡ some old)
      × (is_leasable i.expected_version acquired_at old ≡ true)

moved_token :
    (i : AcquireLease) (acquired_at : ℕ) (d leased : DeliveryExecution)
    → transition_delivery d (lease_transition i acquired_at) ≡ ok leased
    → leased.lease_token ≡ some i.token
unfolding moved lease_transition
moved_token i acquired_at d leased h =
    rw (transition-moved d (lease_transition i acquired_at) h) refl

module _ (db : Database) (s : db.Store) (seen : Tables) (read_at acquired_at : ℕ)
    (i : AcquireLease) where
  open db use {tables, transact}

  -- The deliveries only move forward, whatever was read and whatever the transaction meets.
  pub acquire-Evolves :
      Evolves (tables s) (tables (acquire_lease db s seen read_at acquired_at i).0)
  unfolding lease_writes
  acquire-Evolves =
      acquire_cases db s seen read_at acquired_at i (λ r. Evolves (tables s) (tables r.0))
        (Evolves-refl (tables s)) (λ e. Evolves-refl (tables s))
        (λ current leased e free h.
          rw
            (settle-store (transact s (lease_writes i acquired_at current leased)) (some leased)
              none)
            (advance-Evolves db s (matches (is_leasable i.expected_version acquired_at)) i.key
              (stored leased) (reindex current leased) (reindex-quiet current leased)
              (λ d g. omega (
                arith,
                leasable_version i.expected_version acquired_at d g,
                leasable_version i.expected_version acquired_at current free,
                moved_version current (lease_transition i acquired_at) h,
              ))))

  -- A granted lease: the delivery is in progress under the caller's token, at the next version, and
  -- is what the table now holds in place of one that could be leased.
  pub acquire-Granted :
      (leased : DeliveryExecution)
      → (acquire_lease db s seen read_at acquired_at i).1 ≡ ok (some leased)
      → Granted i acquired_at
          (tables s)
          (tables (acquire_lease db s seen read_at acquired_at i).0)
          leased
  unfolding lease_writes lease_transition
  acquire-Granted leased =
      acquire_cases db s seen read_at acquired_at i
        (λ r. r.1 ≡ ok (some leased) → Granted i acquired_at (tables s) (tables r.0) leased)
        (λ g. cc) (λ e g. cc)
        (λ current l e free h g.
          let ws = lease_writes i acquired_at current l in
          let (done, same) =
            settle-committed (transact s ws) (some l) none (some leased) g (λ p. cc) in
          let leased_l : leased ≡ l = cc in
          let h' : transition_delivery current (lease_transition i acquired_at) ≡ ok leased =
            rw leased_l h in
          let settled = transition-IsSettled current (lease_transition i acquired_at) h' in
          let c =
            advance_committed db s (matches (is_leasable i.expected_version acquired_at)) i.key
              (stored l) (reindex current l) (reindex-quiet current l) done in
          record {
            held = settled.1;
            token = moved_token i acquired_at current leased h';
            version =
                omega
                  (arith, settled.2, leasable_version i.expected_version acquired_at current free);
            kept =
                rw (settle-store (transact s ws) (some l) none)
                  (c.1 ∙ ap (λ x. some (stored x)) (sym leased_l));
            freed = holds-matches _ _ c.0;
          })

not_below : (e d : DeliveryExecution) → (e ≡ d) ⊎ (d.version < e.version) → d.version ≤ e.version
not_below e d h = ground arith

-- Two grants of one delivery at one version exclude each other, whatever happened in between and
-- whatever the second caller read: as long as the deliveries only moved forward.
pub acquire_exclusive :
    (db : Database) (s s' : db.Store) (seen seen' : Tables) (r a r' a' : ℕ) (i i' : AcquireLease)
    (first second : DeliveryExecution)
    → i'.key ≡ i.key
    → i'.expected_version ≡ i.expected_version
    → (acquire_lease db s seen r a i).1 ≡ ok (some first)
    → Evolves (db.tables (acquire_lease db s seen r a i).0) (db.tables s')
    → ¬ ((acquire_lease db s' seen' r' a' i').1 ≡ ok (some second))
acquire_exclusive db s s' seen seen' r a r' a' i i' first second same_key same_version g1 onward
      g2 =
    let one = acquire-Granted db s seen r a i first g1 in
    let two = acquire-Granted db s' seen' r' a' i' second g2 in
    let (later, at_later, grown) = onward i.key (stored first) one.kept in
    let (old, at_old, free) = two.freed in
    let e : some old ≡ some later = sym at_old ∙ ap (db.tables s').deliveries same_key ∙ at_later in
    let same : old ≡ later = cc in
    omega (
      arith,
      not_below later (stored first) grown,
      one.version,
      same_version,
      ap (λ (d : DeliveryExecution). d.version) same,
      leasable_version i'.expected_version a' old free,
    )

rate_limited-forbidden :
    (i : AcquireLease) (a : ℕ) (d : DeliveryExecution)
    → d.state ≡ rate_limited
    → d.version ≡ i.expected_version
    → transition_delivery d (lease_transition i a)
      ≡ err (forbidden_transition rate_limited in_progress)
unfolding transition_delivery permitted_transitions lease_transition
rate_limited-forbidden i a d w v = ground arith

-- A delivery that waits for its rate limit is let through by the guard and refused by the life
-- cycle: the operation throws, and the delivery stays where it is.
pub acquire-rate_limited :
    (db : Database) (s : db.Store) (seen : Tables) (r a : ℕ) (i : AcquireLease)
    (d : DeliveryExecution)
    → get_delivery seen i.key r ≡ some d
    → d.state ≡ rate_limited
    → is_leasable i.expected_version a d ≡ true
    → acquire_lease db s seen r a i
      ≡ (s, err (domain (forbidden_transition rate_limited in_progress)))
unfolding acquire_lease
acquire-rate_limited db s seen r a i d e w free =
    rw (e, acquire_lease)
      (rw free
        (rw (rate_limited-forbidden i a d w (leasable_version i.expected_version a d free)) refl))
