-- ===== src/Persistence/Attempt.antt =====
-- `startAttempt` and `defer` of packages/persistence/src/index.ts.
pub mod Laws
pub mod Exclusive
use partner_integration_reli.Prelude.{
  ℕ, ◌+◌, ◌-◌, Bool, true, false, ◌&&◌, ◌==◌, Option, none, some, get_or, option_eq, is_some, not,
  List, [], ◌∷◌, ◌++◌, if◌then◌else◌, Result, ok, err,
}
use partner_integration_reli.Domain.Types.{
  EventOutcomeCounters, DeliveryState, succeeded, failed_terminal, dead_lettered, ExecutionType,
  original, replay, LeaseToken, CircuitRuntimeState, DeliveryExecution, DomainError, seconds,
}
use partner_integration_reli.Domain.Records.{
  CanonicalEvent, DeliveryAttempt, DeliveryHistoryEntry, OutboxRecord,
}
use partner_integration_reli.Domain.Transition.{state_eq, is_terminal_delivery_state}
use partner_integration_reli.Domain.Status.{derive_event_status}
use partner_integration_reli.Store.Condition.{absent, matches, absent_or}
use partner_integration_reli.Store.Keys.{DeliveryKey, TenantKey, AttemptKey}
use partner_integration_reli.Store.Tables.{
  Tables, Write, put_delivery, put_attempt, put_event, put_circuit, epoch_seconds,
}
use partner_integration_reli.Store.Database.{Database}
use partner_integration_reli.Persistence.Common.{
  Fault, domain, storage, get_delivery, get_event, stored, stored_event, reindex, outbox_put,
  history_put, lease_is, settle,
}
use partner_integration_reli.Persistence.Rounds.{Round, Answer, retry_rounds}
use partner_integration_reli.Persistence.Rollups.{
  rollup_updates, outcome_is_started, one_if, is_replay,
}

-- The key of an event's item.
abbrev pub event_key : DeliveryKey → TenantKey
event_key k = record { tenant = k.tenant; id = k.event }

abbrev pub stored_attempt : DeliveryAttempt → DeliveryAttempt
stored_attempt a = record a { expires_at = seconds (epoch_seconds a.expires_at) }

abbrev pub attempt_key : DeliveryKey → DeliveryAttempt → AttemptKey
attempt_key k a = record {
  delivery = record k { delivery = a.delivery_id };
  number = a.attempt_number;
}

pub record StartAttempt : Type 0 where
  pub key : DeliveryKey
  pub delivery : DeliveryExecution
  pub expected_version : ℕ
  pub attempt : DeliveryAttempt

unfoldable pub started_delivery : DeliveryExecution → DeliveryAttempt → DeliveryExecution
started_delivery d a = record d {
  attempt_count = a.attempt_number;
  active_attempt_id = some a.attempt_id;
  version = d.version + 1;
  updated_at = a.started_at;
}

-- `attribute_not_exists(activeAttemptId)` with the version and the lease.
abbrev pub is_startable : ℕ → LeaseToken → DeliveryExecution → Bool
is_startable version token d =
    d.version == version && (lease_is token d && not (is_some d.active_attempt_id))

unfoldable pub start_writes : StartAttempt → LeaseToken → List Write
unfolding started_delivery
start_writes i token =
    put_delivery (matches (is_startable i.expected_version token)) i.key
      (stored (started_delivery i.delivery i.attempt))
    ∷ put_attempt absent (attempt_key i.key i.attempt) (stored_attempt i.attempt)
    ∷ []

-- A request without a lease token names a value that it does not give, and is rejected.
unfoldable pub start_under :
    (db : Database)
    → StartAttempt
    → db.Store
    → Option LeaseToken
    → db.Store × Result Fault (Option DeliveryExecution)
unfolding start_writes
start_under db i s none = (s, err storage)
start_under db i s (some token) =
    settle (db.transact s (start_writes i token)) (some (started_delivery i.delivery i.attempt))
      none

unfoldable pub start_attempt :
    (db : Database) → StartAttempt → db.Store → db.Store × Result Fault (Option DeliveryExecution)
unfolding start_under
start_attempt db i s = start_under db i s i.delivery.lease_token

pub record DeferDelivery : Type 0 where
  pub key : DeliveryKey
  pub delivery : DeliveryExecution
  pub expected_version : ℕ
  pub lease_token : LeaseToken
  pub history : DeliveryHistoryEntry
  pub outbox : OutboxRecord

abbrev pub is_held : ℕ → LeaseToken → DeliveryExecution → Bool
is_held version token d = d.version == version && lease_is token d

unfoldable pub defer_writes : DeferDelivery → DeliveryExecution → List Write
defer_writes i current =
    put_delivery (matches (is_held i.expected_version i.lease_token)) i.key (stored i.delivery)
    ∷ history_put i.key i.history
    ∷ (reindex current i.delivery ++ outbox_put i.outbox ∷ [])

unfoldable pub defer_delivery :
    (db : Database) → DeferDelivery → Tables → ℕ → db.Store → db.Store × Result Fault Bool
unfolding defer_writes
defer_delivery db i seen now s = elim (get_delivery seen i.key now) [
  | none ↦ (s, ok false)
  | some current ↦ settle (db.transact s (defer_writes i current)) true false
]
