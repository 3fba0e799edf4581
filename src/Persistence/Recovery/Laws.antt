-- ===== src/Persistence/Recovery/Laws.antt =====
-- What recovering an abandoned delivery does.
use partner_integration_reli.Prelude.{
  ℕ, ◌≡◌, ◌<◌, ◌==◌, ok, arith, inl, inr, List, Bool-cases, Option-cases, Result-cases,
}
use partner_integration_reli.Domain.Types.{DeliveryExecution}
use partner_integration_reli.Domain.Transition.{transition_delivery, DeliveryTransition}
use partner_integration_reli.Domain.Transition.Outcome.{transition-IsSettled}
use partner_integration_reli.Store.Database.{Database}
use partner_integration_reli.Store.Commit.{Evolves, Evolves-refl, Evolves-trans}
use partner_integration_reli.Persistence.Common.{get_attempt}
use partner_integration_reli.Persistence.Rounds.{Round, Forward}
use partner_integration_reli.Persistence.Attempt.{defer_delivery}
use partner_integration_reli.Persistence.Attempt.Laws.{defer-Evolves}
use partner_integration_reli.Persistence.Finalize.Once.{finalize-Evolves}
use partner_integration_reli.Persistence.Recovery.{
  RecoverExpired, locate_delivery, is_abandoned, timed_out, recovered_attempt, released,
  released_delivery, recover_attempt, release_lease, recover_expired,
}

pub newer :
    (d : DeliveryExecution) (t : DeliveryTransition) {d' : DeliveryExecution}
    → transition_delivery d t ≡ ok d'
    → d.version < d'.version
newer d t h = omega (arith, (transition-IsSettled d t h).2)

module _ (db : Database) (spell : ℕ → List ℕ) (i : RecoverExpired) (first : Round db)
    (rounds : ℕ → Round db) where
  open db use {tables}

  release-Evolves :
      (d : DeliveryExecution) (s : db.Store)
      → Forward db rounds
      → Evolves (tables s) (tables (release_lease db spell i first rounds d s).0)
  unfolding release_lease released_delivery
  release-Evolves d s others = elim (Result-cases (transition_delivery d (released i d))) [
    | inl (e, h) ↦ rw (h, release_lease) (Evolves-refl (tables s))
    | inr (next, h) ↦
        rw (h, release_lease)
          (let r = rounds 0 in
            Evolves-trans (tables s) (tables (r.interfere s))
              (tables
                (defer_delivery db (released_delivery i d next) r.seen r.clock (r.interfere s)).0)
              (others 0 s)
              (defer-Evolves db (r.interfere s) (released_delivery i d next) r.seen r.clock
                (newer d (released i d) h)))
  ]

  attempt-Evolves :
      (d : DeliveryExecution) (active : ℕ) (s : db.Store)
      → Forward db rounds
      → Evolves (tables s) (tables (recover_attempt db spell i first rounds d active s).0)
  unfolding recover_attempt recovered_attempt
  attempt-Evolves d active s others =
      elim (Option-cases (
        get_attempt first.seen
          (record {
            delivery = record { tenant = i.tenant; event = i.event; delivery = d.delivery_id };
            number = d.attempt_count;
          })
          first.clock)) [
            | inl e ↦ rw (e, recover_attempt) (Evolves-refl (tables s))
            | inr (a, e) ↦ elim (Bool-cases (a.attempt_id == active)) [
              | inr other ↦ rw (e, recover_attempt) (rw other (Evolves-refl (tables s)))
              | inl same ↦ elim (Result-cases (transition_delivery d (timed_out i d))) [
                | inl (f, h) ↦ rw (e, recover_attempt) (rw same (rw h (Evolves-refl (tables s))))
                | inr (final, h) ↦
                    rw (e, recover_attempt)
                      (rw same (
                        rw h (
                          finalize-Evolves db spell (recovered_attempt i d final a) rounds s others
                            (newer d (timed_out i d) h))))
              ]
            ]
          ]

  -- Recovering a delivery, whatever it finds, moves the deliveries forward, as long as other workers
  -- do.
  pub recover-Evolves :
      (s : db.Store)
      → Forward db rounds
      → Evolves (tables s) (tables (recover_expired db spell i first rounds s).0)
  unfolding recover_expired
  recover-Evolves s others =
      elim (Option-cases (locate_delivery first.seen i.tenant i.delivery first.clock)) [
        | inl e ↦ rw (e, recover_expired) (Evolves-refl (tables s))
        | inr (d, e) ↦ elim (Bool-cases (is_abandoned i.now d)) [
          | inr alive ↦ rw (e, recover_expired) (rw alive (Evolves-refl (tables s)))
          | inl lost ↦ elim (Option-cases d.active_attempt_id) [
            | inl idle ↦ rw (e, recover_expired) (rw lost (rw idle (release-Evolves d s others)))
            | inr (active, busy) ↦
                rw (e, recover_expired) (rw lost (rw busy (attempt-Evolves d active s others)))
          ]
        ]
      ]
