-- ===== src/Delivery/Service/Laws.antt =====
-- A call of `deliver` is a run of the workers' transactions, whatever it meets.
use partner_integration_reli.Prelude.{
  none, some, Option-cases, Bool-cases, Result-cases, inl, inr, refl, option_eq, Option,
}
use partner_integration_reli.Domain.Types.{issued, token_eq, DeliveryExecution}
use partner_integration_reli.Domain.Records.{DeliveryAttempt}
use partner_integration_reli.Domain.Configuration.{Destination}
use partner_integration_reli.Domain.Transition.{transition_delivery, is_terminal_delivery_state}
use partner_integration_reli.Store.Database.{Database}
use partner_integration_reli.Persistence.Lease.{acquire_lease}
use partner_integration_reli.Persistence.Circuit.{
  CircuitPermit, CircuitRequest, acquire_circuit_permit,
}
use partner_integration_reli.Persistence.RatePermit.{RateRequest, acquire_rate_permit}
use partner_integration_reli.Persistence.Attempt.{start_attempt}
use partner_integration_reli.Persistence.Recovery.{locate_delivery, is_abandoned}
use partner_integration_reli.Persistence.Recovery.Laws.{newer}
use partner_integration_reli.Persistence.Steps.{Steps, stay, then_step, leases, starts, defers}
use partner_integration_reli.Persistence.Steps.Loops.{
  Working, Steps-trans, finalize-Steps, circuit-Steps, rate-Steps, recover-Steps,
}
use partner_integration_reli.Delivery.Request.{Exchange}
use partner_integration_reli.Delivery.Deferral.{Deferral, deferral_transition, deferral_request}
use partner_integration_reli.Delivery.Outcome.{
  classify_answer, completion_transition, completion_request,
}
use partner_integration_reli.Delivery.Call.{Visit, is_later}
use partner_integration_reli.Delivery.Stages.{
  put_off, complete, completion_of, attempt, start_request, delivery_key, destination_key,
}
use partner_integration_reli.Delivery.Service.{
  ask_rate, ask_circuit, proceed, with_lease, take_lease, lease_request, recover, deliver_read,
  deliver,
}

-- The other workers of a call take steps of the relation.
pub record AmongWorkers (db : Database) (v : Visit db) : Type 0 where
  pub recovery : Working db v.spell v.recovery
  pub circuit : Working db v.spell v.circuit
  pub rate : Working db v.spell v.rate
  pub finalize : Working db v.spell v.finalize
  pub lease : (s : db.Store) → Steps db v.spell s (v.lease.interfere s)
  pub start : (s : db.Store) → Steps db v.spell s (v.start s)
  pub deferral : (s : db.Store) → Steps db v.spell s (v.deferral.interfere s)

module _ (db : Database) (v : Visit db) (others : AmongWorkers db v) where
  abbrev Runs : db.Store → db.Store → Type 0
  Runs s t = Steps db v.spell s t

  put_off-Steps : (i : Deferral) (s : db.Store) → Runs s (put_off db v i s).store
  unfolding put_off deferral_request
  put_off-Steps i s = elim (Result-cases (transition_delivery i.leased (deferral_transition i))) [
    | inl (e, h) ↦ rw (h, put_off) stay
    | inr (next, h) ↦
        rw (h, put_off)
          (then_step (others.deferral s) (
            defers (deferral_request (delivery_key db v i.leased) i next) v.deferral.seen
              v.deferral.clock (newer i.leased (deferral_transition i) h)))
  ]

  complete-Steps :
      (destination : Destination) (permit : CircuitPermit) (started : DeliveryExecution)
      (a : DeliveryAttempt) (x : Exchange) (s : db.Store)
      → Runs s (complete db v destination permit started a x s).store
  unfolding complete completion_request completion_transition
  complete-Steps destination permit started a x s =
      let t =
        completion_transition v.readers (completion_of db v started a x)
          (classify_answer x.answer) in
      elim (Result-cases (transition_delivery started t)) [
        | inl (e, h) ↦ rw (h, complete) stay
        | inr (final, h) ↦
            rw (h, complete)
              (finalize-Steps db v.spell _ v.finalize others.finalize (newer started t h) s)
      ]

  attempt-Steps :
      (destination : Destination) (permit : CircuitPermit) (leased : DeliveryExecution)
      (s : db.Store)
      → Runs s (attempt db v destination permit leased s).store
  unfolding attempt
  attempt-Steps destination permit leased s =
      let i = start_request db v leased in
      let p = then_step (others.start s) (starts i refl) in
      elim (Result-cases (start_attempt db i (v.start s)).1) [
        | inl (e, h) ↦ rw (h, attempt) p
        | inr (o, h) ↦ elim (Option-cases o) [
          | inl lost ↦ rw (h, attempt) (rw lost p)
          | inr (started, won) ↦
              rw (h, attempt)
                (rw won (
                  Steps-trans db v.spell s (start_attempt db i (v.start s)).0 _ p
                    (complete-Steps destination permit started i.attempt _ _)))
        ]
      ]

  ask_rate-Steps :
      (destination : Destination) (permit : CircuitPermit) (leased : DeliveryExecution)
      (s : db.Store)
      → Runs s (ask_rate db v destination permit leased s).store
  unfolding ask_rate
  ask_rate-Steps destination permit leased s =
      let i : RateRequest = record {
        key = destination_key db v leased;
        policy = destination.rate_limit_policy;
        now = v.now;
      } in
      let after = (acquire_rate_permit db i v.rate s).0 in
      let p = rate-Steps db v.spell i v.rate others.rate s in
      elim (Result-cases (acquire_rate_permit db i v.rate s).1) [
        | inl (e, h) ↦ rw (h, ask_rate) p
        | inr (rate, h) ↦ elim (Bool-cases rate.permitted) [
          | inl yes_rate ↦
              rw (h, ask_rate)
                (rw yes_rate (
                  Steps-trans db v.spell s after _ p
                    (attempt-Steps destination permit leased after)))
          | inr no_rate ↦
              rw (h, ask_rate)
                (rw no_rate (Steps-trans db v.spell s after _ p (put_off-Steps _ after)))
        ]
      ]

  ask_circuit-Steps :
      (destination : Destination) (leased : DeliveryExecution) (s : db.Store)
      → Runs s (ask_circuit db v destination leased s).store
  unfolding ask_circuit
  ask_circuit-Steps destination leased s =
      let i : CircuitRequest = record {
        key = destination_key db v leased;
        policy = destination.circuit_breaker_policy;
        owner = v.message.owner;
        now = v.now;
      } in
      let after = (acquire_circuit_permit db i v.circuit s).0 in
      let p = circuit-Steps db v.spell i v.circuit others.circuit s in
      elim (Result-cases (acquire_circuit_permit db i v.circuit s).1) [
        | inl (e, h) ↦ rw (h, ask_circuit) p
        | inr (permit, h) ↦ elim (Bool-cases permit.allowed) [
          | inl yes_permit ↦
              rw (h, ask_circuit)
                (rw yes_permit (
                  Steps-trans db v.spell s after _ p
                    (ask_rate-Steps destination permit leased after)))
          | inr no_permit ↦
              rw (h, ask_circuit)
                (rw no_permit (Steps-trans db v.spell s after _ p (put_off-Steps _ after)))
        ]
      ]

  proceed-Steps : (leased : DeliveryExecution) (s : db.Store) → Runs s (proceed db v leased s).store
  unfolding proceed
  proceed-Steps leased s = elim (Option-cases v.destination) [
    | inl gone ↦ rw (gone, proceed) (put_off-Steps _ s)
    | inr (destination, h) ↦ elim (Bool-cases destination.enabled) [
      | inl on ↦ rw (h, proceed) (rw on (ask_circuit-Steps destination leased s))
      | inr off ↦ rw (h, proceed) (rw off (put_off-Steps _ s))
    ]
  ]

  with_lease-Steps :
      (o : Option DeliveryExecution) (s : db.Store) → Runs s (with_lease db v o s).store
  unfolding with_lease
  with_lease-Steps none s = stay
  with_lease-Steps (some leased) s =
      elim (Bool-cases (option_eq token_eq leased.lease_token (some (issued v.token)))) [
        | inl own ↦ rw own (proceed-Steps leased s)
        | inr other ↦ rw other stay
      ]

  take_lease-Steps :
      (initial : DeliveryExecution) (s : db.Store) → Runs s (take_lease db v initial s).store
  unfolding take_lease
  take_lease-Steps initial s =
      let i = lease_request db v initial in
      let r = acquire_lease db (v.lease.interfere s) v.lease.seen v.lease.clock v.leased_at i in
      let p = then_step (others.lease s) (leases v.lease.seen v.lease.clock v.leased_at i) in
      elim (Result-cases r.1) [
        | inl (e, h) ↦ rw (h, take_lease) p
        | inr (o, h) ↦
            rw (h, take_lease) (Steps-trans db v.spell s r.0 _ p (with_lease-Steps o r.0))
      ]

  read-Steps :
      (initial : DeliveryExecution) (s : db.Store) → Runs s (deliver_read db v initial s).store
  unfolding deliver_read recover
  read-Steps initial s = elim (Bool-cases (is_terminal_delivery_state initial.state)) [
    | inl ended ↦ rw (ended, deliver_read) stay
    | inr alive ↦ elim (Bool-cases (is_abandoned v.now initial)) [
      | inl lost ↦
          rw (alive, deliver_read)
            (rw lost (recover-Steps db v.spell _ v.recovery_read v.recovery others.recovery s))
      | inr held ↦ elim (Bool-cases (is_later initial.next_eligible_at v.now)) [
        | inl early ↦ rw (alive, deliver_read) (rw held (rw early stay))
        | inr due ↦ rw (alive, deliver_read) (rw held (rw due (take_lease-Steps initial s)))
      ]
    ]
  ]

  -- A call of `deliver`, whatever it meets and however it ends, is a run of the workers'
  -- transactions, where the other workers of the call take such runs.
  pub deliver-Steps : (s : db.Store) → Steps db v.spell s (deliver db v s).store
  unfolding deliver
  deliver-Steps s =
      elim (Option-cases
        (locate_delivery v.first.seen v.message.tenant_id v.message.delivery_id v.first.clock)) [
          | inl e ↦ rw (e, deliver) stay
          | inr (initial, e) ↦ rw (e, deliver) (read-Steps initial s)
        ]
