-- ===== src/Store/Keys.antt =====
-- The keys of packages/persistence/src/keys.ts: a record for each family of keys, whose text has a
-- prefix of its own. An outbox key also holds the shard, which the outbox identifier determines.
use partner_integration_reli.Prelude.{ℕ, Bool, true, false, ◌&&◌, ◌==◌, ◌≡◌, ◌↔◌, arith}
use partner_integration_reli.Domain.Types.{DeliveryState, EventStatus}
use partner_integration_reli.Domain.Records.{HistoryId, OutboxId}
use partner_integration_reli.Domain.Transition.{state_eq}

pub record DeliveryKey : Type 0 where
  pub tenant : ℕ
  pub event : ℕ
  pub delivery : ℕ

abbrev pub delivery_key_eq : DeliveryKey → DeliveryKey → Bool
delivery_key_eq a b = a.tenant == b.tenant && (a.event == b.event && a.delivery == b.delivery)

pub delivery_key_eq_iff : (a b : DeliveryKey) → (delivery_key_eq a b ≡ true) ↔ (a ≡ b)
delivery_key_eq_iff a b = ground arith

pub delivery_key_eq_refl : (k : DeliveryKey) → delivery_key_eq k k ≡ true
delivery_key_eq_refl k = ground arith

pub record AttemptKey : Type 0 where
  pub delivery : DeliveryKey
  pub number : ℕ

abbrev pub attempt_key_eq : AttemptKey → AttemptKey → Bool
attempt_key_eq a b = delivery_key_eq a.delivery b.delivery && a.number == b.number

pub attempt_key_eq_refl : (k : AttemptKey) → attempt_key_eq k k ≡ true
attempt_key_eq_refl k = ground arith

pub record HistoryKey : Type 0 where
  pub delivery : DeliveryKey
  pub occurred_at : ℕ
  pub history_id : HistoryId

abbrev history_id_eq : HistoryId → HistoryId → Bool
history_id_eq (HistoryId.generated a) (HistoryId.generated b) = a == b
history_id_eq (HistoryId.recovery a v) (HistoryId.recovery b w) = a == b && v == w
history_id_eq _ _ = false

abbrev pub history_key_eq : HistoryKey → HistoryKey → Bool
history_key_eq a b =
    delivery_key_eq a.delivery b.delivery
    && (a.occurred_at == b.occurred_at && history_id_eq a.history_id b.history_id)

-- An event, or a tenant's runtime record of a destination, by its tenant and its identifier.
pub record TenantKey : Type 0 where
  pub tenant : ℕ
  pub id : ℕ

abbrev pub tenant_key_eq : TenantKey → TenantKey → Bool
tenant_key_eq a b = a.tenant == b.tenant && a.id == b.id

pub tenant_key_eq_refl : (k : TenantKey) → tenant_key_eq k k ≡ true
tenant_key_eq_refl k = ground arith

pub tenant_key_eq_iff : (a b : TenantKey) → (tenant_key_eq a b ≡ true) ↔ (a ≡ b)
tenant_key_eq_iff a b = ground arith

pub data IndexCategory : Type 0 where
  all_deliveries terminal_failure : IndexCategory
  by_status : DeliveryState → IndexCategory
  by_partner by_destination : ℕ → IndexCategory

abbrev category_eq : IndexCategory → IndexCategory → Bool
category_eq all_deliveries all_deliveries = true
category_eq terminal_failure terminal_failure = true
category_eq (by_status a) (by_status b) = state_eq a b
category_eq (by_partner a) (by_partner b) = a == b
category_eq (by_destination a) (by_destination b) = a == b
category_eq _ _ = false

pub record DeliveryIndexKey : Type 0 where
  pub tenant : ℕ
  pub category : IndexCategory
  pub updated_at : ℕ
  pub delivery : ℕ

abbrev pub delivery_index_key_eq : DeliveryIndexKey → DeliveryIndexKey → Bool
delivery_index_key_eq a b =
    a.tenant == b.tenant
    && (category_eq a.category b.category
        && (a.updated_at == b.updated_at && a.delivery == b.delivery))

pub record OutboxKey : Type 0 where
  pub created_at : ℕ
  pub outbox_id : OutboxId

abbrev outbox_id_eq : OutboxId → OutboxId → Bool
outbox_id_eq (OutboxId.generated a) (OutboxId.generated b) = a == b
outbox_id_eq (OutboxId.recovery a v) (OutboxId.recovery b w) = a == b && v == w
outbox_id_eq (OutboxId.resume a v) (OutboxId.resume b w) = a == b && v == w
outbox_id_eq (OutboxId.deliver_of a) (OutboxId.deliver_of b) = a == b
outbox_id_eq _ _ = false

abbrev pub outbox_key_eq : OutboxKey → OutboxKey → Bool
outbox_key_eq a b = a.created_at == b.created_at && outbox_id_eq a.outbox_id b.outbox_id

-- A tenant's hour, by shard or by destination.
pub data RollupKey : Type 0 where
  by_shard by_target : ℕ → ℕ → ℕ → RollupKey

abbrev pub rollup_key_eq : RollupKey → RollupKey → Bool
rollup_key_eq (by_shard t h s) (by_shard u i r) = t == u && (h == i && s == r)
rollup_key_eq (by_target t h s) (by_target u i r) = t == u && (h == i && s == r)
rollup_key_eq _ _ = false

abbrev status_index : EventStatus → ℕ
status_index EventStatus.accepted = 0
status_index EventStatus.processing = 1
status_index EventStatus.partially_succeeded = 2
status_index EventStatus.succeeded = 3
status_index EventStatus.failed = 4
status_index EventStatus.no_destinations = 5

abbrev pub status_eq : EventStatus → EventStatus → Bool
status_eq a b = status_index a == status_index b

-- An entry of the index of events by status.
pub record EventIndexKey : Type 0 where
  pub tenant : ℕ
  pub status : EventStatus
  pub accepted_at : ℕ
  pub event : ℕ

abbrev pub event_index_key_eq : EventIndexKey → EventIndexKey → Bool
event_index_key_eq a b =
    a.tenant == b.tenant
    && (status_eq a.status b.status && (a.accepted_at == b.accepted_at && a.event == b.event))
