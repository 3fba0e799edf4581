-- ===== src/Tests/Deliveries.antt =====
-- A delivery from its message to the end of its attempt, over the database in memory.
use partner_integration_reli.Prelude.{◌≡◌, refl, true, none, some, ok, err, [], ◌∷◌, if◌then◌else◌}
use partner_integration_reli.Json.{Json, string, object, field, empty, property}
use partner_integration_reli.Json.Print.{stringify}
use partner_integration_reli.Text.{insert}
use partner_integration_reli.Domain.Types.{scheduled, api_key, DeliveryExecution}
use partner_integration_reli.Domain.Configuration.{Destination}
use partner_integration_reli.Domain.Transition.{
  is_terminal_delivery_state, transition_delivery, permitted_transitions, moved,
}
use partner_integration_reli.Domain.Rate.{rate_limit_decision}
use partner_integration_reli.Domain.Classify.{classify_delivery_result, classify_status}
use partner_integration_reli.Domain.Status.{derive_event_status}
use partner_integration_reli.Store.Keys.{tenant_key_eq}
use partner_integration_reli.Store.Tables.{
  Tables, allow, allows, commit, write, epoch_seconds, is_expired,
}
use partner_integration_reli.Store.Database.{memory, memory_transact}
use partner_integration_reli.Persistence.Common.{
  get_delivery, get_event, reindex, outbox_put, history_put,
}
use partner_integration_reli.Persistence.Rounds.{Round, retry_rounds}
use partner_integration_reli.Persistence.Rollups.{rollup_updates, stable_shard, rollup_values}
use partner_integration_reli.Persistence.Lease.{
  acquire_lease, is_leasable, lease_transition, lease_writes,
}
use partner_integration_reli.Persistence.Circuit.{
  acquire_circuit_permit, circuit_round, read_circuit, circuit_after_attempt,
}
use partner_integration_reli.Persistence.RatePermit.{acquire_rate_permit, rate_round, rate_writes}
use partner_integration_reli.Persistence.Attempt.{
  start_attempt, start_under, start_writes, started_delivery, event_key,
}
use partner_integration_reli.Persistence.Finalize.{
  finalize_attempt, finalize_round, updated_event, finalize_writes, rest_writes, side_writes,
  event_writes, outbox_writes, circuit_writes, updates_original_event, recount, count_terminal,
}
use partner_integration_reli.Persistence.Recovery.{locate_delivery, is_abandoned}
use partner_integration_reli.Persistence.Steps.{Steps, stay}
use partner_integration_reli.Delivery.Evidence.{Runtime, redacted_headers, response_evidence}
use partner_integration_reli.Delivery.Request.{
  Outside, PartnerRequest, PartnerResponse, exchange, request_headers, auth_headers,
  api_key_headers, with_idempotency,
}
use partner_integration_reli.Delivery.Outcome.{
  classify_answer, completion_transition, completion_request, completed_attempt, completion_history,
  retry_outbox, next_state, next_eligible,
}
use partner_integration_reli.Delivery.Call.{Visit, acknowledged}
use partner_integration_reli.Delivery.Stages.{new_attempt, complete, attempt}
use partner_integration_reli.Delivery.Service.{
  ask_rate, ask_circuit, proceed, with_lease, take_lease, deliver_read, deliver,
}
use partner_integration_reli.Delivery.Service.Laws.{AmongWorkers, deliver-Steps}
use partner_integration_reli.Delivery.Service.Sent.{RequestSent, deliver-sent}
use partner_integration_reli.Tests.Fixtures.{
  delivery_in, key, holding, snapshot, retry_policy, rate_policy, circuit_policy,
}
use partner_integration_reli.Tests.Attempts.{spell, event}

abbrev configuration : Json
configuration = object (field "headerName" (string "X-Partner-Key") empty)

abbrev waiting : DeliveryExecution
waiting = record (delivery_in scheduled) {
  config_snapshot = record snapshot { auth_configuration = configuration };
}

abbrev pub tables : Tables
tables = record (holding waiting) {
  lookups = λ k. if tenant_key_eq (record { tenant = 1; id = 3 }) k then some 2 else none;
  events = λ k. if tenant_key_eq (event_key key) k then some event else none;
}

abbrev pub destination : Destination
destination = record {
  destination_id = 4;
  partner_id = 6;
  tenant_id = 1;
  external_key = 44;
  base_url = 71;
  path = 72;
  enabled = true;
  auth_type = api_key;
  auth_configuration = configuration;
  secret_references = record { name = 8; version = none } ∷ [];
  timeout_ms = 8000;
  retry_policy = retry_policy;
  rate_limit_policy = rate_policy;
  circuit_breaker_policy = circuit_policy;
  transformation_id = 5;
  active_transformation_version = 1;
  sensitive_response_json_paths = [];
  version = 1;
}

abbrev quiet_round : Round memory
quiet_round = record { seen = tables; clock = 2000; interfere = λ s. s }

abbrev response : PartnerResponse
response = record { status = 200; headers = []; body = "ok" }

abbrev outside : Outside
outside = record {
  resolve = λ name. ok "s3cret";
  oauth = λ request. err "OAUTH";
  send = λ request. ok response;
}

abbrev runtime : Runtime
runtime = record {
  parse_json = λ text. none;
  quote = λ text. text;
  to_lower = λ text. text;
  hash = λ text. 11;
}

abbrev visit : Visit memory
visit = record {
  message = record { tenant_id = 1; event_id = 2; delivery_id = 3; owner = 50 };
  outside = outside;
  readers = record { number = λ text. none; date = λ text. none };
  runtime = runtime;
  spell = spell;
  first = quiet_round;
  recovery_read = quiet_round;
  recovery = λ n. quiet_round;
  lease = quiet_round;
  leased_at = 2000;
  destination = some destination;
  circuit = λ n. quiet_round;
  rate = λ n. quiet_round;
  start = λ s. s;
  deferral = quiet_round;
  finalize = λ n. quiet_round;
  now = 2000;
  started = 2000;
  completed = 2400;
  token = 77;
  attempt_id = 31;
  outbox_id = 32;
  history_id = 33;
  random = 0;
  trace_id = none;
  traceparent = none;
}

visit-AmongWorkers : AmongWorkers memory visit
visit-AmongWorkers = record {
  recovery = λ n s. stay;
  circuit = λ n s. stay;
  rate = λ n s. stay;
  finalize = λ n s. stay;
  lease = λ s. stay;
  start = λ s. stay;
  deferral = λ s. stay;
}

deliver-Steps_example : Steps memory spell tables (deliver memory visit tables).store
deliver-Steps_example = deliver-Steps memory visit visit-AmongWorkers tables

abbrev request : PartnerRequest
request = record {
  url = 70;
  headers = ("content-type", "application/json") ∷ ("X-Partner-Key", "s3cret") ∷ [];
  body = "{}";
  timeout_ms = 8000;
  correlation_id = 9;
}

request_sent : (deliver memory visit tables).sent ≡ some request
unfolding deliver deliver_read take_lease with_lease proceed ask_circuit ask_rate attempt complete
    locate_delivery get_delivery is_expired is_terminal_delivery_state is_abandoned acquire_lease
    is_leasable lease_transition lease_writes transition_delivery permitted_transitions moved
    memory_transact allow allows commit write reindex epoch_seconds acquire_circuit_permit
    circuit_round read_circuit retry_rounds acquire_rate_permit rate_round rate_writes
    rate_limit_decision start_attempt start_under start_writes started_delivery new_attempt exchange
    request_headers auth_headers api_key_headers with_idempotency property insert stringify
    completion_transition classify_answer classify_delivery_result classify_status next_state
    next_eligible
request_sent = refl

deliver-sent_example : RequestSent memory visit request
deliver-sent_example = deliver-sent memory visit request tables request_sent

-- The attempt is finalised, and the message acknowledged.
replied : (deliver memory visit tables).reply ≡ ok acknowledged
unfolding deliver deliver_read take_lease with_lease proceed ask_circuit ask_rate attempt complete
    locate_delivery get_delivery is_expired is_terminal_delivery_state is_abandoned acquire_lease
    is_leasable lease_transition lease_writes transition_delivery permitted_transitions moved
    memory_transact allow allows commit write reindex epoch_seconds acquire_circuit_permit
    circuit_round read_circuit retry_rounds acquire_rate_permit rate_round rate_writes
    rate_limit_decision start_attempt start_under start_writes started_delivery new_attempt exchange
    request_headers auth_headers api_key_headers with_idempotency property insert stringify
    completion_transition classify_answer classify_delivery_result classify_status next_state
    next_eligible completion_request completed_attempt completion_history retry_outbox
    circuit_after_attempt finalize_attempt finalize_round get_event updated_event
    updates_original_event recount count_terminal derive_event_status finalize_writes rest_writes
    side_writes event_writes outbox_writes circuit_writes rollup_updates stable_shard rollup_values
    outbox_put history_put redacted_headers response_evidence
replied = refl
