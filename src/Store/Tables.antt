-- ===== src/Store/Tables.antt =====
-- The items of the core table, one map for each family of keys, and the writes of a transaction.
use partner_integration_reli.Prelude.{
  ℕ, ◌+◌, Bool, true, false, ◌&&◌, Option, List, [], ◌∷◌, if◌then◌else◌, leb, ◌/◌,
}
use partner_integration_reli.Domain.Types.{
  DeliveryState, EventStatus, FailureCategory, CircuitRuntimeState, RateLimitRuntimeState,
  DeliveryExecution, Expiry, instant, seconds,
}
use partner_integration_reli.Domain.Records.{
  CanonicalEvent, DeliveryAttempt, DeliveryHistoryEntry, OutboxRecord,
}
use partner_integration_reli.Store.Condition.{Condition, holds, put, delete}
use partner_integration_reli.Store.Keys.{
  DeliveryKey, delivery_key_eq, AttemptKey, attempt_key_eq, HistoryKey, history_key_eq, TenantKey,
  tenant_key_eq, DeliveryIndexKey, delivery_index_key_eq, OutboxKey, outbox_key_eq, RollupKey,
  rollup_key_eq, EventIndexKey, event_index_key_eq,
}

-- `epochSeconds`.
unfoldable pub epoch_seconds : Expiry → ℕ
epoch_seconds (instant ms) = ms / 1000
epoch_seconds (seconds s) = s

-- `isExpired`: only a number expires.
unfoldable pub is_expired : Expiry → ℕ → Bool
is_expired (instant ms) now = false
is_expired (seconds s) now = leb s (now / 1000)

pub record DeliveryIndexEntry : Type 0 where
  pub delivery_id : ℕ
  pub event_id : ℕ
  pub correlation_id : ℕ
  pub destination_id : ℕ
  pub partner_id : ℕ
  pub state : DeliveryState
  pub blocked_reason : Option FailureCategory
  pub updated_at : ℕ
  pub expires_at : ℕ

pub record EventIndexEntry : Type 0 where
  pub event_id : ℕ
  pub status : EventStatus
  pub accepted_at : ℕ
  pub expires_at : ℕ

-- An outbox item stands in the index of the unpublished until it is published.
pub record OutboxItem : Type 0 where
  pub outbox : OutboxRecord
  pub expires_at : ℕ
  pub unpublished : Bool

pub data LatencyBucket : Type 0 where
  le_100 le_250 le_500 le_1000 le_2500 gt_2500 : LatencyBucket

pub record Rollup : Type 0 where
  pub delivery_attempts : ℕ
  pub delivery_successes : ℕ
  pub delivery_failures : ℕ
  pub retries_scheduled : ℕ
  pub dead_letters : ℕ
  pub replay_successes : ℕ
  pub replay_failures : ℕ
  pub latency_total_ms : ℕ
  pub latency_count : ℕ
  pub buckets : LatencyBucket → ℕ

-- `ADD` of a number to each attribute; an attribute that is not there counts as 0.
add_rollup : Rollup → Rollup → Rollup
add_rollup a b = record {
  delivery_attempts = a.delivery_attempts + b.delivery_attempts;
  delivery_successes = a.delivery_successes + b.delivery_successes;
  delivery_failures = a.delivery_failures + b.delivery_failures;
  retries_scheduled = a.retries_scheduled + b.retries_scheduled;
  dead_letters = a.dead_letters + b.dead_letters;
  replay_successes = a.replay_successes + b.replay_successes;
  replay_failures = a.replay_failures + b.replay_failures;
  latency_total_ms = a.latency_total_ms + b.latency_total_ms;
  latency_count = a.latency_count + b.latency_count;
  buckets = λ l. a.buckets l + b.buckets l;
}

pub record Tables : Type 0 where
  pub deliveries : DeliveryKey → Option DeliveryExecution
  pub lookups : TenantKey → Option ℕ
  pub attempts : AttemptKey → Option DeliveryAttempt
  pub histories : HistoryKey → Option DeliveryHistoryEntry
  pub delivery_indexes : DeliveryIndexKey → Option DeliveryIndexEntry
  pub events : TenantKey → Option CanonicalEvent
  pub event_indexes : EventIndexKey → Option EventIndexEntry
  pub outboxes : OutboxKey → Option OutboxItem
  pub circuits : TenantKey → Option CircuitRuntimeState
  pub rates : TenantKey → Option RateLimitRuntimeState
  pub rollups : RollupKey → Rollup

pub data Write : Type 0 where
  put_delivery : Condition DeliveryExecution → DeliveryKey → DeliveryExecution → Write
  put_lookup : Condition ℕ → TenantKey → ℕ → Write
  put_attempt : Condition DeliveryAttempt → AttemptKey → DeliveryAttempt → Write
  put_history : Condition DeliveryHistoryEntry → HistoryKey → DeliveryHistoryEntry → Write
  put_delivery_index : Condition DeliveryIndexEntry → DeliveryIndexKey → DeliveryIndexEntry → Write
  delete_delivery_index : DeliveryIndexKey → Write
  put_event : Condition CanonicalEvent → TenantKey → CanonicalEvent → Write
  put_event_index : EventIndexKey → EventIndexEntry → Write
  delete_event_index : EventIndexKey → Write
  put_outbox : Condition OutboxItem → OutboxKey → OutboxItem → Write
  put_circuit : Condition CircuitRuntimeState → TenantKey → CircuitRuntimeState → Write
  put_rate : Condition RateLimitRuntimeState → TenantKey → RateLimitRuntimeState → Write
  add_to_rollup : RollupKey → Rollup → Write

-- The condition of a write, on the tables before the transaction.
unfoldable pub allows : Tables → Write → Bool
allows t (put_delivery c k v) = holds c (t.deliveries k)
allows t (put_lookup c k v) = holds c (t.lookups k)
allows t (put_attempt c k v) = holds c (t.attempts k)
allows t (put_history c k v) = holds c (t.histories k)
allows t (put_delivery_index c k v) = holds c (t.delivery_indexes k)
allows t (delete_delivery_index k) = true
allows t (put_event c k v) = holds c (t.events k)
allows t (put_event_index k v) = true
allows t (delete_event_index k) = true
allows t (put_outbox c k v) = holds c (t.outboxes k)
allows t (put_circuit c k v) = holds c (t.circuits k)
allows t (put_rate c k v) = holds c (t.rates k)
allows t (add_to_rollup k v) = true

unfoldable pub write : Tables → Write → Tables
unfolding add_rollup
write t (put_delivery c k v) = record t { deliveries = put delivery_key_eq k v t.deliveries }
write t (put_lookup c k v) = record t { lookups = put tenant_key_eq k v t.lookups }
write t (put_attempt c k v) = record t { attempts = put attempt_key_eq k v t.attempts }
write t (put_history c k v) = record t { histories = put history_key_eq k v t.histories }
write t (put_delivery_index c k v) = record t {
  delivery_indexes = put delivery_index_key_eq k v t.delivery_indexes;
}
write t (delete_delivery_index k) = record t {
  delivery_indexes = delete delivery_index_key_eq k t.delivery_indexes;
}
write t (put_event c k v) = record t { events = put tenant_key_eq k v t.events }
write t (put_event_index k v) = record t {
  event_indexes = put event_index_key_eq k v t.event_indexes;
}
write t (delete_event_index k) = record t {
  event_indexes = delete event_index_key_eq k t.event_indexes;
}
write t (put_outbox c k v) = record t { outboxes = put outbox_key_eq k v t.outboxes }
write t (put_circuit c k v) = record t { circuits = put tenant_key_eq k v t.circuits }
write t (put_rate c k v) = record t { rates = put tenant_key_eq k v t.rates }
write t (add_to_rollup k v) = record t {
  rollups = λ j. if rollup_key_eq k j then add_rollup (t.rollups j) v else t.rollups j;
}

unfoldable pub allow : Tables → List Write → Bool
allow t [] = true
allow t (w ∷ ws) = allows t w && allow t ws

unfoldable pub commit : Tables → List Write → Tables
commit t [] = t
commit t (w ∷ ws) = commit (write t w) ws
