-- ===== src/Domain/Records.antt =====
-- The stored records of packages/domain/src/index.ts besides the delivery: the event, the attempt,
-- the history entry and the outbox record. A derived identifier (`obx_recovery_…`) is a constructor.
use Prim.Native.String.{String}
use partner_integration_reli.Prelude.{ℕ, Bool, Option, List}
use partner_integration_reli.Json.{Json}
use partner_integration_reli.Domain.Types.{
  EventStatus, EventOutcomeCounters, DeliveryState, FailureCategory, Expiry,
}

pub record CanonicalEvent : Type 0 where
  pub event_id : ℕ
  pub tenant_id : ℕ
  pub producer_client_id : ℕ
  pub correlation_id : ℕ
  pub event_type : ℕ
  pub occurred_at : ℕ
  pub accepted_at : ℕ
  pub subject_type : ℕ
  pub subject_id : ℕ
  pub payload : Json
  pub metadata : Json
  pub payload_hash : ℕ
  pub status : EventStatus
  pub outcome : EventOutcomeCounters
  pub version : ℕ
  pub expires_at : Expiry

pub data AttemptOutcome : Type 0 where
  started succeeded failed : AttemptOutcome

pub record DeliveryAttempt : Type 0 where
  pub attempt_id : ℕ
  pub attempt_number : ℕ
  pub delivery_id : ℕ
  pub correlation_id : ℕ
  pub started_at : ℕ
  pub completed_at : Option ℕ
  pub duration_ms : Option ℕ
  pub request_url : ℕ
  pub request_headers_redacted : List (String × String)
  pub request_body_hash : ℕ
  pub response_status : Option ℕ
  pub response_headers_redacted : Option (List (String × String))
  pub response_body_excerpt_redacted : Option String
  pub response_body_hash : Option ℕ
  pub outcome : AttemptOutcome
  pub failure_category : Option FailureCategory
  pub retryable : Option Bool
  pub trace_id : Option ℕ
  pub expires_at : Expiry

pub data HistoryType : Type 0 where
  created queued rate_limited circuit_open lease_recovered retry_scheduled : HistoryType
  destination_disabled dead_lettered replay_linked state_transition : HistoryType

-- Generated, or `recovery-<delivery>-<version>`.
pub data HistoryId : Type 0 where
  generated : ℕ → HistoryId
  recovery : ℕ → ℕ → HistoryId

-- The metadata that the program attaches to an entry.
pub record HistoryMetadata : Type 0 where
  pub state : Option DeliveryState
  pub failure_category : Option FailureCategory
  pub next_eligible_at : Option ℕ

pub record DeliveryHistoryEntry : Type 0 where
  pub history_id : HistoryId
  pub delivery_id : ℕ
  pub tenant_id : ℕ
  pub correlation_id : ℕ
  pub type : HistoryType
  pub occurred_at : ℕ
  pub summary : String
  pub metadata : HistoryMetadata
  pub expires_at : Expiry

pub data OutboxKind : Type 0 where
  route_event deliver schedule_delivery resume_delivery resume_destination : OutboxKind
  reconcile_event_status : OutboxKind

pub data AggregateType : Type 0 where
  event delivery destination : AggregateType

pub data OutboxTarget : Type 0 where
  routing_queue delivery_queue scheduler : OutboxTarget

-- Generated, `obx_recovery_<delivery>_<version>`, `obx_resume_<delivery>_<version>`, or derived
-- from `DELIVER\n<delivery>`.
pub data OutboxId : Type 0 where
  generated : ℕ → OutboxId
  recovery : ℕ → ℕ → OutboxId
  resume : ℕ → ℕ → OutboxId
  deliver_of : ℕ → OutboxId

pub data Cause : Type 0 where
  initial retry resume replay : Cause

pub record OutboxPayload : Type 0 where
  pub event_id : Option ℕ
  pub delivery_id : Option ℕ
  pub destination_id : Option ℕ
  pub correlation_id : ℕ
  pub not_before : Option ℕ
  pub cause : Option Cause

pub record OutboxRecord : Type 0 where
  pub outbox_id : OutboxId
  pub kind : OutboxKind
  pub tenant_id : ℕ
  pub aggregate_type : AggregateType
  pub aggregate_id : ℕ
  pub target : OutboxTarget
  pub payload : OutboxPayload
  pub created_at : ℕ
  pub attempts : ℕ
  pub published_at : Option ℕ
  pub traceparent : Option ℕ
