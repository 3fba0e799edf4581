-- ===== src/Delivery/Outcome.antt =====
-- What `deliver` of packages/application/src/index.ts makes of the answer to a request: the
-- classification, the next state, and the request that finalises the attempt.
pub mod Laws
use Prim.Native.String.{String}
use partner_integration_reli.Prelude.{
  ℕ, ◌+◌, ◌-◌, ◌*◌, Bool, true, false, ◌&&◌, leb, Option, none, some, get_or, List, [], ◌∷◌,
  if◌then◌else◌, Result, ok, err,
}
use partner_integration_reli.Text.{lookup}
use partner_integration_reli.Domain.Types.{
  DeliveryState, succeeded, failed_terminal, dead_lettered, retry_scheduled, FailureCategory,
  unknown, LeaseToken, CircuitRuntimeState, DeliveryExecution, DomainError,
}
use partner_integration_reli.Domain.Records.{
  AttemptOutcome, HistoryType, HistoryId, OutboxId, DeliveryAttempt, DeliveryHistoryEntry,
  OutboxRecord, schedule_delivery, delivery, scheduler, Cause,
}
use partner_integration_reli.Domain.Transition.{DeliveryTransition, transition_delivery}
use partner_integration_reli.Domain.Rate.{ceil_div}
use partner_integration_reli.Domain.Retry.{retry_delay_ticks, ticks_per_second}
use partner_integration_reli.Domain.RetryAfter.{parse_retry_after}
use partner_integration_reli.Domain.Classify.{
  DeliveryResultClassification, classify_delivery_result,
}
use partner_integration_reli.Store.Keys.{DeliveryKey}
use partner_integration_reli.Persistence.Finalize.{FinalizeAttempt}
use partner_integration_reli.Delivery.Failure.{error_code}
use partner_integration_reli.Delivery.Evidence.{
  Runtime, Evidence, response_evidence, redacted_headers,
}
use partner_integration_reli.Delivery.Request.{PartnerResponse, Exchange, Headers}

-- How a header is read as a number of seconds or as a date.
pub record Readers : Type 0 where
  pub number : String → Option ℕ
  pub date : String → Option ℕ

unfoldable pub classify_answer : Result String PartnerResponse → DeliveryResultClassification
unfolding error_code
classify_answer (ok response) = classify_delivery_result (some response.status) none
classify_answer (err message) = classify_delivery_result none (some (error_code message))

unfoldable pub retry_after_of : Readers → Result String PartnerResponse → ℕ → Option ℕ
unfolding lookup
retry_after_of readers (err message) completed = none
retry_after_of readers (ok response) completed =
    parse_retry_after readers.number readers.date (lookup "retry-after" response.headers) completed

-- An attempt that was started, with what its completion draws and generates.
pub record Completion : Type 0 where
  pub started : DeliveryExecution
  pub attempt : DeliveryAttempt
  pub token : LeaseToken
  pub answer : Result String PartnerResponse
  pub headers : Headers
  pub completed : ℕ
  pub random : ℕ
  pub outbox_id : ℕ
  pub history_id : ℕ
  pub traceparent : Option ℕ

unfoldable pub is_spent : DeliveryExecution → Bool
is_spent d = leb d.max_attempts d.attempt_count

unfoldable pub next_state : DeliveryExecution → DeliveryResultClassification → DeliveryState
unfolding is_spent
next_state d c =
    if c.success
    then succeeded
    else if c.retryable && is_spent d
    then dead_lettered
    else if c.retryable
    then retry_scheduled
    else failed_terminal

module _ (readers : Readers) (i : Completion) where
  -- `completed + Math.ceil(delay * 1000)`, where there is a delay.
  unfoldable pub next_eligible : DeliveryResultClassification → Option ℕ
  unfolding retry_after_of
  next_eligible c =
      if c.retryable
      then some (
          i.completed
          + ceil_div
              (retry_delay_ticks i.started.config_snapshot.retry_policy i.started.attempt_count
                  i.random (retry_after_of readers i.answer i.completed)
                * 1000)
              ticks_per_second)
      else none

  unfoldable pub completion_transition : DeliveryResultClassification → DeliveryTransition
  unfolding next_state next_eligible
  completion_transition c = record {
    to_state = next_state i.started c;
    at = i.completed;
    expected_version = i.started.version;
    lease_token = some (get_or i.started.lease_token i.token);
    next_eligible_at = next_eligible c;
    blocked_reason = c.failure_category;
    lease = none;
  }

  -- `{ ...attempt, … }`: without a response, its fields stay as they were, which is absent.
  unfoldable pub completed_attempt : Runtime → DeliveryResultClassification → DeliveryAttempt
  unfolding redacted_headers
  completed_attempt rt c =
      let base = record i.attempt {
        completed_at = some i.completed;
        duration_ms = some (i.completed - i.attempt.started_at);
        request_headers_redacted = redacted_headers i.headers;
        outcome = if c.success then AttemptOutcome.succeeded else AttemptOutcome.failed;
        failure_category = c.failure_category;
        retryable = some c.retryable;
      } in
      elim i.answer [
        | err message ↦ base
        | ok response ↦
            let evidence =
              response_evidence rt response.headers response.body
                i.started.config_snapshot.redaction_paths in
            record base {
              response_status = some response.status;
              response_headers_redacted = some evidence.headers;
              response_body_excerpt_redacted = some evidence.body_excerpt;
              response_body_hash = some evidence.body_hash;
            }
      ]

  unfoldable pub retry_outbox : Option ℕ → Option OutboxRecord
  retry_outbox none = none
  retry_outbox (some at) = some (record {
    outbox_id = OutboxId.generated i.outbox_id;
    kind = schedule_delivery;
    tenant_id = i.started.tenant_id;
    aggregate_type = delivery;
    aggregate_id = i.started.delivery_id;
    target = scheduler;
    payload = record {
      event_id = some i.started.event_id;
      delivery_id = some i.started.delivery_id;
      destination_id = none;
      correlation_id = i.started.correlation_id;
      not_before = some at;
      cause = some Cause.retry;
    };
    created_at = i.completed;
    attempts = 0;
    published_at = none;
    traceparent = i.traceparent;
  })

  history_type : DeliveryState → HistoryType
  history_type dead_lettered = HistoryType.dead_lettered
  history_type retry_scheduled = HistoryType.retry_scheduled
  history_type _ = HistoryType.state_transition

  history_summary : DeliveryResultClassification → String
  history_summary c =
      if c.success
      then "Delivery succeeded."
      else if c.retryable && is_spent i.started
      then "Delivery retries exhausted."
      else if c.retryable
      then "Delivery retry scheduled."
      else "Delivery failed terminally."

  unfoldable pub completion_history : DeliveryResultClassification → DeliveryHistoryEntry
  unfolding history_type history_summary next_state next_eligible
  completion_history c = record {
    history_id = HistoryId.generated i.history_id;
    delivery_id = i.started.delivery_id;
    tenant_id = i.started.tenant_id;
    correlation_id = i.started.correlation_id;
    type = history_type (next_state i.started c);
    occurred_at = i.completed;
    summary = history_summary c;
    metadata = record {
      state = some (next_state i.started c);
      failure_category = some (get_or c.failure_category unknown);
      next_eligible_at = next_eligible c;
    };
    expires_at = i.started.expires_at;
  }

  unfoldable pub completion_request :
      Runtime → DeliveryKey → CircuitRuntimeState → DeliveryExecution → FinalizeAttempt
  unfolding completed_attempt completion_history retry_outbox
  completion_request rt key circuit final =
      let c = classify_answer i.answer in
      record {
        key = key;
        delivery = final;
        expected_version = i.started.version;
        lease_token = get_or i.started.lease_token i.token;
        attempt = completed_attempt rt c;
        history = completion_history c;
        outbox = retry_outbox (next_eligible c);
        circuit = some circuit;
      }
