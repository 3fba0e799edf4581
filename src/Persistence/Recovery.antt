-- ===== src/Persistence/Recovery.antt =====
-- `recoverExpired` of packages/persistence/src/index.ts.
pub mod Laws
pub mod Total
use Prim.Native.String.{String}
use partner_integration_reli.Prelude.{
  ℕ, ◌+◌, ◌-◌, ◌*◌, ◌/◌, Bool, true, false, not, ◌&&◌, ◌==◌, leb, Option, none, some, get_or,
  option_eq, List, [], ◌∷◌, if◌then◌else◌, Result, ok, err,
}
use partner_integration_reli.Domain.Types.{
  DeliveryState, scheduled, in_progress, retry_scheduled, dead_lettered, FailureCategory, timeout,
  LeaseToken, expired_lease, blank, DeliveryExecution,
}
use partner_integration_reli.Domain.Records.{
  HistoryId, OutboxId, DeliveryAttempt, failed, HistoryType, lease_recovered, HistoryMetadata,
  DeliveryHistoryEntry, OutboxRecord, schedule_delivery, delivery, scheduler, Cause, retry, resume,
}
use partner_integration_reli.Domain.Transition.{state_eq, DeliveryTransition, transition_delivery}
use partner_integration_reli.Domain.Rate.{ceil_div}
use partner_integration_reli.Domain.Retry.{retry_delay_ticks, ticks_per_second}
use partner_integration_reli.Store.Keys.{DeliveryKey}
use partner_integration_reli.Store.Tables.{Tables}
use partner_integration_reli.Store.Database.{Database}
use partner_integration_reli.Persistence.Common.{Fault, domain, get_delivery, get_attempt}
use partner_integration_reli.Persistence.Rounds.{Round}
use partner_integration_reli.Persistence.Attempt.{DeferDelivery, defer_delivery}
use partner_integration_reli.Persistence.Finalize.{FinalizeAttempt, finalize_attempt}

pub record RecoverExpired : Type 0 where
  pub tenant : ℕ
  pub event : ℕ
  pub delivery : ℕ
  pub now : ℕ
  pub random : ℕ

-- `getDelivery`: through the lookup, to the event that it names.
unfoldable pub locate_delivery : Tables → ℕ → ℕ → ℕ → Option DeliveryExecution
locate_delivery t tenant id clock = elim (t.lookups (record { tenant = tenant; id = id })) [
  | none ↦ none
  | some event ↦ get_delivery t (record { tenant = tenant; event = event; delivery = id }) clock
]

-- In progress under a lease that has run out.
unfoldable pub is_abandoned : ℕ → DeliveryExecution → Bool
is_abandoned now d =
    state_eq d.state in_progress && elim d.lease_expires_at [ none ↦ false | some at ↦ leb at now ]

abbrev held_token : DeliveryExecution → LeaseToken
held_token d = get_or d.lease_token expired_lease

unfoldable pub is_exhausted : DeliveryExecution → Bool
is_exhausted d = leb d.max_attempts d.attempt_count

-- `now + Math.ceil(delay * 1000)`.
unfoldable pub recovered_at : RecoverExpired → DeliveryExecution → ℕ
recovered_at i d =
    i.now
    + ceil_div
        (retry_delay_ticks d.config_snapshot.retry_policy d.attempt_count i.random none * 1000)
        ticks_per_second

-- The transition of a delivery whose attempt was under way.
unfoldable pub timed_out : RecoverExpired → DeliveryExecution → DeliveryTransition
unfolding is_exhausted recovered_at
timed_out i d = record {
  to_state = if is_exhausted d then dead_lettered else retry_scheduled;
  at = i.now;
  expected_version = d.version;
  lease_token = some (held_token d);
  next_eligible_at = if is_exhausted d then none else some (recovered_at i d);
  blocked_reason = some timeout;
  lease = none;
}

unfoldable pub timed_out_attempt : RecoverExpired → DeliveryAttempt → DeliveryAttempt
timed_out_attempt i a = record a {
  completed_at = some i.now;
  duration_ms = some (i.now - a.started_at);
  outcome = failed;
  failure_category = some timeout;
  retryable = some true;
}

recovery_history :
    RecoverExpired
    → DeliveryExecution
    → HistoryType
    → HistoryMetadata
    → String
    → DeliveryHistoryEntry
recovery_history i d type metadata summary = record {
  history_id = HistoryId.recovery d.delivery_id d.version;
  delivery_id = d.delivery_id;
  tenant_id = d.tenant_id;
  correlation_id = d.correlation_id;
  type = type;
  occurred_at = i.now;
  summary = summary;
  metadata = metadata;
  expires_at = d.expires_at;
}

recovery_outbox : RecoverExpired → DeliveryExecution → ℕ → Cause → OutboxRecord
recovery_outbox i d not_before cause = record {
  outbox_id = OutboxId.recovery d.delivery_id d.version;
  kind = schedule_delivery;
  tenant_id = d.tenant_id;
  aggregate_type = delivery;
  aggregate_id = d.delivery_id;
  target = scheduler;
  payload = record {
    event_id = some d.event_id;
    delivery_id = some d.delivery_id;
    destination_id = none;
    correlation_id = d.correlation_id;
    not_before = some not_before;
    cause = some cause;
  };
  created_at = i.now;
  attempts = 0;
  published_at = none;
  traceparent = none;
}

abbrev pub recovery_key : RecoverExpired → DeliveryExecution → DeliveryKey
recovery_key i d = record { tenant = i.tenant; event = d.event_id; delivery = d.delivery_id }

unfoldable pub recovered_attempt :
    RecoverExpired → DeliveryExecution → DeliveryExecution → DeliveryAttempt → FinalizeAttempt
unfolding timed_out_attempt recovery_history recovery_outbox is_exhausted recovered_at
recovered_attempt i d final a = record {
  key = recovery_key i d;
  delivery = final;
  expected_version = d.version;
  lease_token = held_token d;
  attempt = timed_out_attempt i a;
  history =
      if is_exhausted d
      then recovery_history i d HistoryType.dead_lettered
          (record { state = none; failure_category = some timeout; next_eligible_at = none })
          "Expired started delivery attempt exhausted retries."
      else recovery_history i d HistoryType.retry_scheduled
          (record {
            state = none;
            failure_category = some timeout;
            next_eligible_at = some (recovered_at i d);
          })
          "Expired started delivery attempt recovered as timeout.";
  outbox =
      if is_exhausted d then none else some (recovery_outbox i d (recovered_at i d) Cause.retry);
  circuit = none;
}

-- The transition of a delivery that was leased and not started.
unfoldable pub released : RecoverExpired → DeliveryExecution → DeliveryTransition
released i d = record {
  to_state = scheduled;
  at = i.now;
  expected_version = d.version;
  lease_token = some (held_token d);
  next_eligible_at = some i.now;
  blocked_reason = none;
  lease = none;
}

unfoldable pub released_delivery :
    RecoverExpired → DeliveryExecution → DeliveryExecution → DeferDelivery
unfolding recovery_history recovery_outbox
released_delivery i d next = record {
  key = recovery_key i d;
  delivery = next;
  expected_version = d.version;
  lease_token = get_or d.lease_token blank;
  history =
      recovery_history i d lease_recovered
        (record { state = none; failure_category = none; next_eligible_at = none })
        "Expired delivery lease recovered.";
  outbox = recovery_outbox i d i.now Cause.resume;
}

-- `first` serves the reads of the operation itself, the rounds those of what it calls.
module _ (db : Database) (spell : ℕ → List ℕ) (i : RecoverExpired) (first : Round db)
    (rounds : ℕ → Round db) where
  unfoldable pub recover_attempt : DeliveryExecution → ℕ → db.Store → db.Store × Result Fault Bool
  unfolding timed_out recovered_attempt
  recover_attempt d active s =
      elim (get_attempt first.seen
        (record {
          delivery = record { tenant = i.tenant; event = i.event; delivery = d.delivery_id };
          number = d.attempt_count;
        })
        first.clock) [
          | none ↦ (s, ok false)
          | some a ↦
              if not (a.attempt_id == active)
              then (s, ok false)
              else elim (transition_delivery d (timed_out i d)) [
                | err e ↦ (s, err (domain e))
                | ok final ↦ finalize_attempt db spell (recovered_attempt i d final a) rounds s
              ]
        ]

  unfoldable pub release_lease : DeliveryExecution → db.Store → db.Store × Result Fault Bool
  unfolding released released_delivery
  release_lease d s = elim (transition_delivery d (released i d)) [
    | err e ↦ (s, err (domain e))
    | ok next ↦
        defer_delivery db (released_delivery i d next) (rounds 0).seen (rounds 0).clock
          ((rounds 0).interfere s)
  ]

  unfoldable pub recover_expired : db.Store → db.Store × Result Fault Bool
  unfolding recover_attempt release_lease
  recover_expired s = elim (locate_delivery first.seen i.tenant i.delivery first.clock) [
    | none ↦ (s, ok false)
    | some d ↦ if not (is_abandoned i.now d) then (s, ok false) else elim d.active_attempt_id [
      | none ↦ release_lease d s
      | some active ↦ recover_attempt d active s
    ]
  ]
