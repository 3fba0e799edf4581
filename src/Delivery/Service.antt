-- ===== src/Delivery/Service.antt =====
-- `DeliveryService.deliver` of packages/application/src/index.ts: one message of the delivery queue,
-- from the read of the delivery to the finalisation of its attempt.
pub mod Laws
pub mod Sent
use Prim.Native.String.{String}
use partner_integration_reli.Prelude.{
  ℕ, ◌+◌, ◌-◌, max, List, [], Bool, true, false, not, ◌&&◌, ltb, Option, none, some, get_or,
  option_eq, if◌then◌else◌, Result, ok, err,
}
use partner_integration_reli.Json.Print.{stringify}
use partner_integration_reli.Domain.Types.{
  DeliveryState, scheduled, rate_limited, FailureCategory, destination_disabled, circuit_open,
  LeaseToken, issued, token_eq, DeliveryExecution, DomainError,
}
use partner_integration_reli.Domain.Records.{AttemptOutcome, DeliveryAttempt}
use partner_integration_reli.Domain.Configuration.{Destination}
use partner_integration_reli.Domain.Transition.{is_terminal_delivery_state, transition_delivery}
use partner_integration_reli.Domain.Rate.{ceil_div}
use partner_integration_reli.Store.Keys.{DeliveryKey, TenantKey}
use partner_integration_reli.Store.Database.{Database}
use partner_integration_reli.Persistence.Common.{Fault, domain, delivery_finalization_conflict}
use partner_integration_reli.Persistence.Rounds.{Round}
use partner_integration_reli.Persistence.Lease.{AcquireLease, acquire_lease}
use partner_integration_reli.Persistence.Circuit.{
  CircuitRequest, CircuitPermit, acquire_circuit_permit, circuit_after_attempt,
}
use partner_integration_reli.Persistence.RatePermit.{RateRequest, RatePermit, acquire_rate_permit}
use partner_integration_reli.Persistence.Attempt.{
  StartAttempt, start_attempt, defer_delivery, DeferDelivery,
}
use partner_integration_reli.Persistence.Finalize.{finalize_attempt}
use partner_integration_reli.Persistence.Recovery.{
  RecoverExpired, recover_expired, locate_delivery, is_abandoned,
}
use partner_integration_reli.Delivery.Evidence.{Runtime}
use partner_integration_reli.Delivery.Request.{PartnerRequest, Outside, Exchange, exchange}
use partner_integration_reli.Delivery.Deferral.{Deferral, deferral_transition, deferral_request}
use partner_integration_reli.Delivery.Outcome.{
  Readers, Completion, classify_answer, completion_transition, completion_request,
}
use partner_integration_reli.Delivery.Call.{
  Message, Reply, acknowledged, Visit, Visited, unsent, acknowledge_any, acknowledge_final,
  wait_seconds, is_later,
}
use partner_integration_reli.Delivery.Stages.{
  message_key, delivery_key, destination_key, deferral_of, put_off, new_attempt, completion_of,
  complete, start_request, attempt,
}

module _ (db : Database) (v : Visit db) where
  unfoldable pub ask_rate : Destination → CircuitPermit → DeliveryExecution → db.Store → Visited db
  unfolding attempt put_off
  ask_rate destination permit leased s =
      let (s', r) =
        acquire_rate_permit db
          (record {
            key = destination_key db v leased;
            policy = destination.rate_limit_policy;
            now = v.now;
          })
          v.rate s in
      elim r [
        | err e ↦ unsent s' (err e)
        | ok rate ↦
            if not rate.permitted
            then put_off db v
                (deferral_of db v leased DeliveryState.rate_limited FailureCategory.rate_limited
                  rate.next_eligible_at "Destination rate limit deferred delivery.")
                s'
            else attempt db v destination permit leased s'
      ]

  unfoldable pub ask_circuit : Destination → DeliveryExecution → db.Store → Visited db
  unfolding ask_rate put_off
  ask_circuit destination leased s =
      let (s', r) =
        acquire_circuit_permit db
          (record {
            key = destination_key db v leased;
            policy = destination.circuit_breaker_policy;
            owner = v.message.owner;
            now = v.now;
          })
          v.circuit s in
      elim r [
        | err e ↦ unsent s' (err e)
        | ok permit ↦
            if not permit.allowed
            then put_off db v
                (deferral_of db v leased scheduled circuit_open
                  (get_or permit.next_eligible_at (v.now + 5000))
                  "Circuit is open; delivery deferred.")
                s'
            else ask_rate destination permit leased s'
      ]

  -- With the lease in hand.
  unfoldable pub proceed : DeliveryExecution → db.Store → Visited db
  unfolding ask_circuit put_off
  proceed leased s =
      let disabled =
        put_off db v
          (deferral_of db v leased scheduled destination_disabled (v.now + 300_000)
            "Destination is disabled; delivery deferred.")
          s in
      elim v.destination [
        | none ↦ disabled
        | some destination ↦
            if not destination.enabled then disabled else ask_circuit destination leased s
      ]

  abbrev pub lease_request : DeliveryExecution → AcquireLease
  lease_request d = record {
    key = message_key db v;
    expected_version = d.version;
    owner = v.message.owner;
    token = issued v.token;
    expires_at = v.now + d.config_snapshot.timeout_ms + 5000;
  }

  -- What follows the answer of `acquireLease`.
  unfoldable pub with_lease : Option DeliveryExecution → db.Store → Visited db
  unfolding proceed
  with_lease none s = unsent s (ok acknowledged)
  with_lease (some leased) s =
      if not (option_eq token_eq leased.lease_token (some (issued v.token)))
      then unsent s (ok acknowledged)
      else proceed leased s

  unfoldable pub take_lease : DeliveryExecution → db.Store → Visited db
  unfolding with_lease
  take_lease initial s =
      let (s', r) =
        acquire_lease db (v.lease.interfere s) v.lease.seen v.lease.clock v.leased_at
          (lease_request initial) in
      elim r [ err e ↦ unsent s' (err e) | ok leased ↦ with_lease leased s' ]

  abbrev pub recovery_request : RecoverExpired
  recovery_request = record {
    tenant = v.message.tenant_id;
    event = v.message.event_id;
    delivery = v.message.delivery_id;
    now = v.now;
    random = v.random;
  }

  unfoldable pub recover : db.Store → Visited db
  recover s =
      let (s', r) = recover_expired db v.spell recovery_request v.recovery_read v.recovery s in
      unsent s' (acknowledge_any r)

  unfoldable pub deliver_read : DeliveryExecution → db.Store → Visited db
  unfolding take_lease recover wait_seconds is_terminal_delivery_state
  deliver_read initial s =
      if is_terminal_delivery_state initial.state
      then unsent s (ok acknowledged)
      else if is_abandoned v.now initial
      then recover s
      else if is_later initial.next_eligible_at v.now
      then unsent s (
          ok (record {
            acknowledge = false;
            delay_seconds = some (wait_seconds (get_or initial.next_eligible_at v.now) v.now);
          }))
      else take_lease initial s

  unfoldable pub deliver : db.Store → Visited db
  unfolding deliver_read
  deliver s =
      elim (locate_delivery v.first.seen v.message.tenant_id v.message.delivery_id v.first.clock) [
        | none ↦ unsent s (ok acknowledged)
        | some initial ↦ deliver_read initial s
      ]
