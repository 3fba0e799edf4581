-- ===== src/Delivery/Stages.antt =====
-- The stages of `deliver` of packages/application/src/index.ts that end a call: the deferral, and the
-- attempt with its completion.
use Prim.Native.String.{String}
use partner_integration_reli.Prelude.{ℕ, ◌+◌, [], none, some, ok, err}
use partner_integration_reli.Json.Print.{stringify}
use partner_integration_reli.Domain.Types.{
  DeliveryState, FailureCategory, issued, DeliveryExecution,
}
use partner_integration_reli.Domain.Records.{AttemptOutcome, DeliveryAttempt}
use partner_integration_reli.Domain.Configuration.{Destination}
use partner_integration_reli.Domain.Transition.{transition_delivery}
use partner_integration_reli.Store.Keys.{DeliveryKey, TenantKey}
use partner_integration_reli.Store.Database.{Database}
use partner_integration_reli.Persistence.Common.{domain}
use partner_integration_reli.Persistence.Circuit.{CircuitPermit, circuit_after_attempt}
use partner_integration_reli.Persistence.Attempt.{StartAttempt, start_attempt, defer_delivery}
use partner_integration_reli.Persistence.Finalize.{finalize_attempt}
use partner_integration_reli.Delivery.Request.{Exchange, exchange}
use partner_integration_reli.Delivery.Deferral.{Deferral, deferral_transition, deferral_request}
use partner_integration_reli.Delivery.Outcome.{
  Completion, classify_answer, completion_transition, completion_request,
}
use partner_integration_reli.Delivery.Call.{
  acknowledged, Visit, Visited, unsent, acknowledge_any, acknowledge_final,
}

module _ (db : Database) (v : Visit db) where
  abbrev pub message_key : DeliveryKey
  message_key = record {
    tenant = v.message.tenant_id;
    event = v.message.event_id;
    delivery = v.message.delivery_id;
  }

  abbrev pub delivery_key : DeliveryExecution → DeliveryKey
  delivery_key d = record {
    tenant = v.message.tenant_id;
    event = d.event_id;
    delivery = d.delivery_id;
  }

  abbrev pub destination_key : DeliveryExecution → TenantKey
  destination_key d = record { tenant = v.message.tenant_id; id = d.destination_id }

  abbrev pub deferral_of :
      DeliveryExecution → DeliveryState → FailureCategory → ℕ → String → Deferral
  deferral_of leased to_state category at summary = record {
    leased = leased;
    token = issued v.token;
    to_state = to_state;
    category = category;
    at = at;
    summary = summary;
    now = v.now;
    outbox_id = v.outbox_id;
    history_id = v.history_id;
    traceparent = v.traceparent;
  }

  unfoldable pub put_off : Deferral → db.Store → Visited db
  unfolding deferral_transition deferral_request
  put_off i s = elim (transition_delivery i.leased (deferral_transition i)) [
    | err e ↦ unsent s (err (domain e))
    | ok next ↦
        let (s', r) =
          defer_delivery db (deferral_request (delivery_key i.leased) i next) v.deferral.seen
            v.deferral.clock (v.deferral.interfere s) in
        unsent s' (acknowledge_any r)
  ]

  -- The attempt that is stored before the request is sent.
  unfoldable pub new_attempt : DeliveryExecution → DeliveryAttempt
  new_attempt leased = record {
    attempt_id = v.attempt_id;
    attempt_number = leased.attempt_count + 1;
    delivery_id = leased.delivery_id;
    correlation_id = leased.correlation_id;
    started_at = v.started;
    completed_at = none;
    duration_ms = none;
    request_url = leased.config_snapshot.url;
    request_headers_redacted = [];
    request_body_hash = v.runtime.hash (stringify v.runtime.quote leased.transformed_payload);
    response_status = none;
    response_headers_redacted = none;
    response_body_excerpt_redacted = none;
    response_body_hash = none;
    outcome = AttemptOutcome.started;
    failure_category = none;
    retryable = none;
    trace_id = v.trace_id;
    expires_at = leased.expires_at;
  }

  abbrev pub completion_of : DeliveryExecution → DeliveryAttempt → Exchange → Completion
  completion_of started attempt x = record {
    started = started;
    attempt = attempt;
    token = issued v.token;
    answer = x.answer;
    headers = x.headers;
    completed = v.completed;
    random = v.random;
    outbox_id = v.outbox_id;
    history_id = v.history_id;
    traceparent = v.traceparent;
  }

  -- From the answer of the partner to the finalisation.
  unfoldable pub complete :
      Destination
      → CircuitPermit
      → DeliveryExecution
      → DeliveryAttempt
      → Exchange
      → db.Store
      → Visited db
  unfolding completion_transition completion_request
  complete destination permit started attempt x s =
      let i = completion_of started attempt x in
      let c = classify_answer x.answer in
      elim (transition_delivery started (completion_transition v.readers i c)) [
        | err e ↦ record { store = s; sent = x.sent; reply = err (domain e) }
        | ok final ↦
            let after =
              circuit_after_attempt permit.state destination.circuit_breaker_policy (record {
                now = v.completed;
                success = c.success;
                counts_toward_circuit = c.counts_toward_circuit;
                probe = permit.probe;
              }) in
            let (s', r) =
              finalize_attempt db v.spell
                (completion_request v.readers i v.runtime (delivery_key started) after final)
                v.finalize s in
            record { store = s'; sent = x.sent; reply = acknowledge_final r }
      ]

  abbrev pub start_request : DeliveryExecution → StartAttempt
  start_request leased = record {
    key = delivery_key leased;
    delivery = leased;
    expected_version = leased.version;
    attempt = new_attempt leased;
  }

  -- The attempt: stored, then sent, then completed. The body is that of the leased delivery.
  unfoldable pub attempt : Destination → CircuitPermit → DeliveryExecution → db.Store → Visited db
  unfolding new_attempt complete exchange
  attempt destination permit leased s =
      let (s', r) = start_attempt db (start_request leased) (v.start s) in
      elim r [
        | err e ↦ unsent s' (err e)
        | ok none ↦ unsent s' (ok acknowledged)
        | ok (some started) ↦
            complete destination permit started (new_attempt leased)
              (exchange v.outside started (stringify v.runtime.quote leased.transformed_payload)) s'
      ]
