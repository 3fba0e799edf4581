-- ===== src/RoutingService/Plan.antt =====
-- The delivery that `RoutingService.route` of packages/application/src/index.ts makes for one
-- destination, and the one that it makes when that fails.
pub mod Laws
use Prim.Native.String.{String}
use partner_integration_reli.Prelude.{
  ℕ, ◌+◌, ◌*◌, Bool, Option, none, some, List, map, Result, ok, err,
}
use partner_integration_reli.Json.{Json, object, string, empty_object, property}
use partner_integration_reli.Domain.Types.{
  DeliveryState, scheduled, failed_terminal, FailureCategory, transformation_error, ExecutionType,
  original, DeliveryConfigurationSnapshot, DeliveryExecution, instant,
}
use partner_integration_reli.Domain.Records.{
  CanonicalEvent, HistoryType, HistoryId, HistoryMetadata, DeliveryHistoryEntry, OutboxId, deliver,
  delivery, delivery_queue, Cause, OutboxRecord,
}
use partner_integration_reli.Domain.Configuration.{
  Destination, TransformationVersion, SecretReference,
}
use partner_integration_reli.Persistence.Routing.{CreateDelivery}
use partner_integration_reli.Transformation.Definition.{Mapping}
use partner_integration_reli.Transformation.Execute.{Runtime, Transformed, execute_transformation}

-- The identifiers and keys that are hashed from a tenant, an event and a destination, the URL of a
-- base and a path, the parser of definitions, an event as a JSON object, and the hash of `{}`.
pub record Derivations : Type 0 where
  pub delivery_id : ℕ → ℕ → ℕ → ℕ
  pub idempotency_key : ℕ → ℕ → ℕ → ℕ → String
  pub url : ℕ → ℕ → Option ℕ
  pub parse_definition : Json → Option (List Mapping)
  pub event_json : CanonicalEvent → Json
  pub runtime : Runtime
  pub empty_hash : ℕ
  pub retention_days : ℕ
  pub traceparent : Option ℕ

-- What one turn of the loop draws: the clock, each time that it is read, and two identifiers.
pub record Draft : Type 0 where
  pub at : ℕ
  pub created_at : ℕ
  pub failed_at : ℕ
  pub history_id : ℕ
  pub failure_id : ℕ

abbrev idempotency_header : Json → Option String
idempotency_header (object fs) = elim (property fs "idempotencyHeader") [
  | some (string s) ↦ some s
  | _ ↦ none
]
idempotency_header _ = none

-- What a delivery is made from.
pub record Origin : Type 0 where
  pub event : CanonicalEvent
  pub destination : Destination
  pub transformation : TransformationVersion
  pub url : ℕ
  pub draft : Draft

module _ (v : Derivations) (o : Origin) where
  unfoldable pub snapshot : DeliveryConfigurationSnapshot
  snapshot =
      let d = o.destination in
      record {
        destination_version = d.version;
        url = o.url;
        timeout_ms = d.timeout_ms;
        retry_policy = d.retry_policy;
        rate_limit_policy_id = (d.destination_id, d.version);
        circuit_breaker_policy_id = (d.destination_id, d.version);
        auth_type = d.auth_type;
        auth_configuration = d.auth_configuration;
        secret_reference_names = map (λ (r : SecretReference). r.name) d.secret_references;
        transformation_id = o.transformation.transformation_id;
        transformation_version = o.transformation.version;
        redaction_paths = d.sensitive_response_json_paths;
        idempotency_header = idempotency_header d.auth_configuration;
      }

  abbrev pub planned_id : ℕ
  planned_id = v.delivery_id o.event.tenant_id o.event.event_id o.destination.destination_id

  -- `now + retentionDays * 86_400_000`.
  abbrev expiry : ℕ → ℕ
  expiry now = now + v.retention_days * 86_400_000

  -- What the two deliveries share.
  planned :
      DeliveryState
      → Option FailureCategory
      → Option ℕ
      → Option ℕ
      → Json
      → ℕ
      → ℕ
      → DeliveryExecution
  unfolding snapshot
  planned state reason eligible ended payload hash now = record {
    delivery_id = planned_id;
    event_id = o.event.event_id;
    correlation_id = o.event.correlation_id;
    tenant_id = o.event.tenant_id;
    partner_id = o.destination.partner_id;
    destination_id = o.destination.destination_id;
    execution_type = original;
    original_delivery_id = none;
    replay_id = none;
    state = state;
    blocked_reason = reason;
    attempt_count = 0;
    max_attempts = o.destination.retry_policy.max_attempts;
    active_attempt_id = none;
    next_eligible_at = eligible;
    lease_owner = none;
    lease_token = none;
    lease_acquired_at = none;
    lease_expires_at = none;
    config_snapshot = snapshot;
    transformed_payload = payload;
    transformed_payload_hash = hash;
    partner_idempotency_key =
        v.idempotency_key o.event.tenant_id o.event.event_id o.destination.destination_id
          planned_id;
    last_failure_category = none;
    created_at = o.draft.at;
    updated_at = o.draft.at;
    terminal_at = ended;
    version = 1;
    expires_at = instant (expiry now);
  }

  unfoldable pub scheduled_delivery : Transformed → DeliveryExecution
  unfolding planned
  scheduled_delivery t =
      planned scheduled none (some o.draft.at) none (object t.output) t.hash o.draft.created_at

  unfoldable pub failed_delivery : DeliveryExecution
  unfolding planned
  failed_delivery =
      planned failed_terminal (some transformation_error) none (some o.draft.at) empty_object
        v.empty_hash o.draft.failed_at

  planned_history :
      ℕ → DeliveryExecution → HistoryType → String → Option FailureCategory → DeliveryHistoryEntry
  planned_history id d type summary reason = record {
    history_id = HistoryId.generated id;
    delivery_id = d.delivery_id;
    tenant_id = o.event.tenant_id;
    correlation_id = o.event.correlation_id;
    type = type;
    occurred_at = o.draft.at;
    summary = summary;
    metadata = record { state = none; failure_category = reason; next_eligible_at = none };
    expires_at = d.expires_at;
  }

  deliver_outbox : OutboxRecord
  deliver_outbox = record {
    outbox_id = OutboxId.deliver_of planned_id;
    kind = deliver;
    tenant_id = o.event.tenant_id;
    aggregate_type = delivery;
    aggregate_id = planned_id;
    target = delivery_queue;
    payload = record {
      event_id = some o.event.event_id;
      delivery_id = some planned_id;
      destination_id = none;
      correlation_id = o.event.correlation_id;
      not_before = none;
      cause = some Cause.initial;
    };
    created_at = o.draft.at;
    attempts = 0;
    published_at = none;
    traceparent = v.traceparent;
  }

  unfoldable pub scheduled_request : ℕ → Transformed → CreateDelivery
  unfolding scheduled_delivery planned_history deliver_outbox
  scheduled_request tenant t = record {
    tenant = tenant;
    delivery = scheduled_delivery t;
    history =
        planned_history o.draft.history_id (scheduled_delivery t) HistoryType.created
          "Delivery created and scheduled." none;
    outbox = some deliver_outbox;
  }

  unfoldable pub failed_request : ℕ → CreateDelivery
  unfolding failed_delivery planned_history
  failed_request tenant = record {
    tenant = tenant;
    delivery = failed_delivery;
    history =
        planned_history o.draft.failure_id failed_delivery HistoryType.state_transition
          "Transformation failed." (some transformation_error);
    outbox = none;
  }

  -- The injected `execute`: a definition that does not parse, and a failure, are thrown.
  unfoldable pub run_transformation : Option Transformed
  run_transformation = elim (v.parse_definition o.transformation.definition) [
    | none ↦ none
    | some mappings ↦ elim (execute_transformation v.runtime mappings (v.event_json o.event)) [
      | err e ↦ none
      | ok t ↦ some t
    ]
  ]
