-- ===== src/Delivery/Deferral.antt =====
-- The closure `defer` of `deliver` in packages/application/src/index.ts.
use Prim.Native.String.{String}
use partner_integration_reli.Prelude.{ℕ, Option, none, some, get_or}
use partner_integration_reli.Domain.Types.{
  DeliveryState, FailureCategory, rate_limited, circuit_open, LeaseToken, DeliveryExecution,
}
use partner_integration_reli.Domain.Records.{
  HistoryType, HistoryId, OutboxId, OutboxRecord, schedule_delivery, delivery, scheduler, Cause,
}
use partner_integration_reli.Domain.Transition.{DeliveryTransition}
use partner_integration_reli.Store.Keys.{DeliveryKey}
use partner_integration_reli.Persistence.Attempt.{DeferDelivery}

-- Why a delivery waits, until when, and what the deferral generates.
pub record Deferral : Type 0 where
  pub leased : DeliveryExecution
  pub token : LeaseToken
  pub to_state : DeliveryState
  pub category : FailureCategory
  pub at : ℕ
  pub summary : String
  pub now : ℕ
  pub outbox_id : ℕ
  pub history_id : ℕ
  pub traceparent : Option ℕ

unfoldable pub deferral_transition : Deferral → DeliveryTransition
deferral_transition i = record {
  to_state = i.to_state;
  at = i.now;
  expected_version = i.leased.version;
  lease_token = some (get_or i.leased.lease_token i.token);
  next_eligible_at = some i.at;
  blocked_reason = some i.category;
  lease = none;
}

deferral_type : FailureCategory → HistoryType
deferral_type rate_limited = HistoryType.rate_limited
deferral_type circuit_open = HistoryType.circuit_open
deferral_type _ = HistoryType.destination_disabled

deferral_outbox : Deferral → OutboxRecord
deferral_outbox i = record {
  outbox_id = OutboxId.generated i.outbox_id;
  kind = schedule_delivery;
  tenant_id = i.leased.tenant_id;
  aggregate_type = delivery;
  aggregate_id = i.leased.delivery_id;
  target = scheduler;
  payload = record {
    event_id = some i.leased.event_id;
    delivery_id = some i.leased.delivery_id;
    destination_id = none;
    correlation_id = i.leased.correlation_id;
    not_before = some i.at;
    cause = some Cause.resume;
  };
  created_at = i.now;
  attempts = 0;
  published_at = none;
  traceparent = i.traceparent;
}

unfoldable pub deferral_request : DeliveryKey → Deferral → DeliveryExecution → DeferDelivery
unfolding deferral_type deferral_outbox
deferral_request key i next = record {
  key = key;
  delivery = next;
  expected_version = i.leased.version;
  lease_token = get_or i.leased.lease_token i.token;
  history = record {
    history_id = HistoryId.generated i.history_id;
    delivery_id = i.leased.delivery_id;
    tenant_id = i.leased.tenant_id;
    correlation_id = i.leased.correlation_id;
    type = deferral_type i.category;
    occurred_at = i.now;
    summary = i.summary;
    metadata = record {
      state = none;
      failure_category = some i.category;
      next_eligible_at = some i.at;
    };
    expires_at = i.leased.expires_at;
  };
  outbox = deferral_outbox i;
}
