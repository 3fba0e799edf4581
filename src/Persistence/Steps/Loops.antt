-- ===== src/Persistence/Steps/Loops.antt =====
-- The operations that take several rounds, as runs of the relation: each among other workers that
-- take its steps too.
use partner_integration_reli.Prelude.{
  ℕ, ◌<◌, false, Result, ok, err, Option-cases, Bool-cases, List, Result-cases, inl, inr, ◌==◌,
}
use partner_integration_reli.Domain.Types.{DeliveryExecution}
use partner_integration_reli.Domain.Transition.{transition_delivery}
use partner_integration_reli.Store.Keys.{TenantKey}
use partner_integration_reli.Store.Database.{Database}
use partner_integration_reli.Persistence.Common.{
  Fault, get_attempt, routing_conflict, routing_completion_conflict,
}
use partner_integration_reli.Persistence.Rounds.{Round, Answer, retry_rounds, retry_rounds_keep}
use partner_integration_reli.Persistence.Finalize.{
  FinalizeAttempt, finalize_round, finalize_attempt,
}
use partner_integration_reli.Persistence.Circuit.{
  CircuitRequest, circuit_round, acquire_circuit_permit,
}
use partner_integration_reli.Persistence.RatePermit.{RateRequest, rate_round, acquire_rate_permit}
use partner_integration_reli.Persistence.Routing.{
  CreateDelivery, create_round, create_delivery, complete_round, complete_routing,
}
use partner_integration_reli.Persistence.Recovery.{
  RecoverExpired, recover_expired, recover_attempt, release_lease, released, timed_out,
  released_delivery, recovered_attempt, locate_delivery, is_abandoned,
}
use partner_integration_reli.Persistence.Recovery.Laws.{newer}
use partner_integration_reli.Persistence.Steps.{
  Step, finalizes, defers, creates, completes, probes, permits, Steps, stay, then_step,
}

module _ (db : Database) (spell : ℕ → List ℕ) where
  pub Steps-trans :
      (s t u : db.Store) → Steps db spell s t → Steps db spell t u → Steps db spell s u
  Steps-trans s t _ p stay = p
  Steps-trans s t _ p (then_step {t = x} q step) = then_step (Steps-trans s t x p q) step

  -- Other workers take steps of the relation.
  abbrev pub Working : (ℕ → Round db) → Type 0
  Working rounds = (n : ℕ) (s : db.Store) → Steps db spell s ((rounds n).interfere s)

  module _ {A : Type 0} (body : Round db → db.Store → db.Store × Answer A)
      (exhausted : Result Fault A) (rounds : ℕ → Round db) where
    loop-Steps :
        Working rounds
        → ((round : Round db) (s : db.Store) → Step db spell s (body round s).0)
        → (n : ℕ) (s : db.Store) → Steps db spell s (retry_rounds db body exhausted n rounds s).0
    loop-Steps others own n s =
        retry_rounds_keep db body exhausted rounds (λ t. Steps db spell s t)
          (λ m t p. Steps-trans s t ((rounds m).interfere t) p (others m t))
          (λ round t p. then_step p (own round t)) n s stay

  pub finalize-Steps :
      (i : FinalizeAttempt) (rounds : ℕ → Round db)
      → Working rounds
      → i.expected_version < i.delivery.version
      → (s : db.Store) → Steps db spell s (finalize_attempt db spell i rounds s).0
  unfolding finalize_attempt
  finalize-Steps i rounds others newer =
      loop-Steps (finalize_round db spell i) (ok false) rounds others
        (λ round s. finalizes i round newer) 8

  pub circuit-Steps :
      (i : CircuitRequest) (rounds : ℕ → Round db)
      → Working rounds
      → (s : db.Store) → Steps db spell s (acquire_circuit_permit db i rounds s).0
  unfolding acquire_circuit_permit
  circuit-Steps i rounds others =
      loop-Steps (circuit_round db i) _ rounds others (λ round s. probes i round) 8

  pub rate-Steps :
      (i : RateRequest) (rounds : ℕ → Round db)
      → Working rounds
      → (s : db.Store) → Steps db spell s (acquire_rate_permit db i rounds s).0
  unfolding acquire_rate_permit
  rate-Steps i rounds others =
      loop-Steps (rate_round db i) _ rounds others (λ round s. permits i round) 8

  pub create-Steps :
      (i : CreateDelivery) (rounds : ℕ → Round db)
      → Working rounds
      → (s : db.Store) → Steps db spell s (create_delivery db spell i rounds s).0
  unfolding create_delivery
  create-Steps i rounds others =
      loop-Steps (create_round db spell i) (err routing_conflict) rounds others
        (λ round s. creates i round) 8

  pub complete-Steps :
      (k : TenantKey) (rounds : ℕ → Round db)
      → Working rounds
      → (s : db.Store) → Steps db spell s (complete_routing db k rounds s).0
  unfolding complete_routing
  complete-Steps k rounds others =
      loop-Steps (complete_round db k) (err routing_completion_conflict) rounds others
        (λ round s. completes k round) 8

module _ (db : Database) (spell : ℕ → List ℕ) (i : RecoverExpired) (first : Round db)
    (rounds : ℕ → Round db) (others : Working db spell rounds) where
  release-Steps :
      (d : DeliveryExecution) (s : db.Store)
      → Steps db spell s (release_lease db spell i first rounds d s).0
  unfolding release_lease released_delivery
  release-Steps d s = elim (Result-cases (transition_delivery d (released i d))) [
    | inl (e, h) ↦ rw (h, release_lease) stay
    | inr (next, h) ↦
        rw (h, release_lease)
          (then_step (others 0 s) (
            defers (released_delivery i d next) (rounds 0).seen (rounds 0).clock
              (newer d (released i d) h)))
  ]

  recover_attempt-Steps :
      (d : DeliveryExecution) (active : ℕ) (s : db.Store)
      → Steps db spell s (recover_attempt db spell i first rounds d active s).0
  unfolding recover_attempt recovered_attempt
  recover_attempt-Steps d active s =
      elim (Option-cases (
        get_attempt first.seen
          (record {
            delivery = record { tenant = i.tenant; event = i.event; delivery = d.delivery_id };
            number = d.attempt_count;
          })
          first.clock)) [
            | inl e ↦ rw (e, recover_attempt) stay
            | inr (a, e) ↦ elim (Bool-cases (a.attempt_id == active)) [
              | inr other ↦ rw (e, recover_attempt) (rw other stay)
              | inl same ↦ elim (Result-cases (transition_delivery d (timed_out i d))) [
                | inl (f, h) ↦ rw (e, recover_attempt) (rw same (rw h stay))
                | inr (final, h) ↦
                    rw (e, recover_attempt)
                      (rw same (
                        rw h (
                          finalize-Steps db spell (recovered_attempt i d final a) rounds others
                            (newer d (timed_out i d) h) s)))
              ]
            ]
          ]

  pub recover-Steps :
      (s : db.Store) → Steps db spell s (recover_expired db spell i first rounds s).0
  unfolding recover_expired
  recover-Steps s =
      elim (Option-cases (locate_delivery first.seen i.tenant i.delivery first.clock)) [
        | inl e ↦ rw (e, recover_expired) stay
        | inr (d, e) ↦ elim (Bool-cases (is_abandoned i.now d)) [
          | inr alive ↦ rw (e, recover_expired) (rw alive stay)
          | inl lost ↦ elim (Option-cases d.active_attempt_id) [
            | inl idle ↦ rw (e, recover_expired) (rw lost (rw idle (release-Steps d s)))
            | inr (active, busy) ↦
                rw (e, recover_expired) (rw lost (rw busy (recover_attempt-Steps d active s)))
          ]
        ]
      ]
