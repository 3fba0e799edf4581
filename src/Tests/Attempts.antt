-- ===== src/Tests/Attempts.antt =====
-- Attempts that start and end over the database in memory.
use partner_integration_reli.Prelude.{
  ℕ, ◌≡◌, refl, subst, Bool-cases, true, none, some, ok, List, [], ◌∷◌, if◌then◌else◌, inl, inr,
  arith,
}
use partner_integration_reli.Json.{empty_object}
use partner_integration_reli.Domain.Types.{
  EventStatus, in_progress, succeeded, issued, DeliveryExecution, EventOutcomeCounters,
  CircuitRuntimeState, instant, seconds,
}
use partner_integration_reli.Domain.Records.{
  CanonicalEvent, AttemptOutcome, DeliveryAttempt, HistoryType, HistoryId, DeliveryHistoryEntry,
}
use partner_integration_reli.Domain.Transition.{is_terminal_delivery_state}
use partner_integration_reli.Domain.Status.{derive_event_status}
use partner_integration_reli.Store.Keys.{tenant_key_eq, attempt_key_eq}
use partner_integration_reli.Store.Tables.{
  Tables, allow, allows, commit, write, epoch_seconds, is_expired,
}
use partner_integration_reli.Store.Database.{memory, memory_transact}
use partner_integration_reli.Store.Commit.{Evolves, Evolves-refl}
use partner_integration_reli.Persistence.Common.{
  get_delivery, get_event, reindex, outbox_put, history_put,
}
use partner_integration_reli.Persistence.Rounds.{Round, Forward, retry_rounds}
use partner_integration_reli.Persistence.Rollups.{rollup_updates, stable_shard, rollup_values}
use partner_integration_reli.Persistence.Attempt.{
  StartAttempt, start_attempt, start_under, start_writes, started_delivery, event_key, attempt_key,
}
use partner_integration_reli.Persistence.Attempt.Exclusive.{start_exclusive}
use partner_integration_reli.Persistence.Finalize.{
  FinalizeAttempt, finalize_attempt, finalize_round, updated_event, finalize_writes, rest_writes,
  side_writes, event_writes, outbox_writes, circuit_writes,
}
use partner_integration_reli.Persistence.Finalize.Once.{
  Finalized, finalize-Finalized, finalize_once,
}
use partner_integration_reli.Persistence.Finalize.Circuit.{finalize-circuit_behind, circuit_key}
use partner_integration_reli.Persistence.Told.{Told}
use partner_integration_reli.Persistence.Circuit.{unbroken}
use partner_integration_reli.Tests.Fixtures.{delivery_in, key, holding}

abbrev pub spell : ℕ → List ℕ
spell n = n ∷ []

abbrev pub counters : EventOutcomeCounters
counters = record {
  routing_complete = true;
  total_deliveries = 2;
  terminal_deliveries = 0;
  successful_deliveries = 0;
  failed_terminal_deliveries = 0;
  dead_lettered_deliveries = 0;
}

abbrev pub event : CanonicalEvent
event = record {
  event_id = 2;
  tenant_id = 1;
  producer_client_id = 20;
  correlation_id = 9;
  event_type = 21;
  occurred_at = 900;
  accepted_at = 1000;
  subject_type = 22;
  subject_id = 23;
  payload = empty_object;
  metadata = empty_object;
  payload_hash = 24;
  status = EventStatus.processing;
  outcome = counters;
  version = 7;
  expires_at = seconds 9000;
}

abbrev pub attempt : AttemptOutcome → DeliveryAttempt
attempt outcome = record {
  attempt_id = 31;
  attempt_number = 1;
  delivery_id = 3;
  correlation_id = 9;
  started_at = 2000;
  completed_at = some 2400;
  duration_ms = some 400;
  request_url = 70;
  request_headers_redacted = [];
  request_body_hash = 11;
  response_status = some 200;
  response_headers_redacted = none;
  response_body_excerpt_redacted = none;
  response_body_hash = none;
  outcome = outcome;
  failure_category = none;
  retryable = none;
  trace_id = none;
  expires_at = instant 9_000_000;
}

abbrev pub entry : DeliveryHistoryEntry
entry = record {
  history_id = HistoryId.generated 40;
  delivery_id = 3;
  tenant_id = 1;
  correlation_id = 9;
  type = HistoryType.state_transition;
  occurred_at = 2400;
  summary = "Delivery succeeded.";
  metadata = record { state = some succeeded; failure_category = none; next_eligible_at = none };
  expires_at = instant 9_000_000;
}

-- A delivery that is leased, without an attempt.
abbrev leased : DeliveryExecution
leased = record (delivery_in in_progress) { lease_token = some (issued 77); version = 2 }

abbrev start : StartAttempt
start = record {
  key = key;
  delivery = leased;
  expected_version = 2;
  attempt = attempt AttemptOutcome.started;
}

-- What the start returns.
abbrev first_start : DeliveryExecution
first_start = record leased {
  attempt_count = 1;
  active_attempt_id = some 31;
  version = 3;
  updated_at = 2000;
}

start_exclusive_example : ¬ (
    (start_attempt memory start (start_attempt memory start (holding leased)).0).1
    ≡ ok (some first_start))
unfolding start_attempt start_under start_writes started_delivery memory_transact allow allows
start_exclusive_example =
    start_exclusive memory (holding leased) (start_attempt memory start (holding leased)).0 start
      start first_start first_start refl refl refl refl
      (Evolves-refl (start_attempt memory start (holding leased)).0)

-- A delivery whose attempt is under way, with its event.
abbrev running : DeliveryExecution
running = record leased { attempt_count = 1; active_attempt_id = some 31; version = 3 }

abbrev under_way : Tables
under_way = record (holding running) {
  attempts = λ k.
      if attempt_key_eq (attempt_key key (attempt AttemptOutcome.started)) k
      then some (attempt AttemptOutcome.started)
      else none;
  events = λ k. if tenant_key_eq (event_key key) k then some event else none;
}

abbrev finish : FinalizeAttempt
finish = record {
  key = key;
  delivery = record running {
    state = succeeded;
    lease_token = none;
    terminal_at = some 2400;
    version = 4;
  };
  expected_version = 3;
  lease_token = issued 77;
  attempt = attempt AttemptOutcome.succeeded;
  history = entry;
  outbox = none;
  circuit = none;
}

abbrev alone : ℕ → Round memory
alone n = record { seen = under_way; clock = 2400; interfere = λ s. s }

alone-Forward : Forward memory alone
alone-Forward n s = Evolves-refl s

finished : (finalize_attempt memory spell finish alone under_way).1 ≡ ok true
unfolding finalize_attempt finalize_round retry_rounds get_delivery get_event is_expired
    updated_event derive_event_status is_terminal_delivery_state finalize_writes rest_writes
    side_writes event_writes outbox_writes circuit_writes rollup_updates stable_shard rollup_values
    reindex outbox_put history_put memory_transact allow allows commit write epoch_seconds
finished = refl

finalize-Finalized_example :
    (t : Tables) × Evolves under_way t
    × Finalized finish t (finalize_attempt memory spell finish alone under_way).0
finalize-Finalized_example =
    finalize-Finalized memory spell finish alone under_way alone-Forward (omega arith) finished

finalize_once_example : ¬ (
    (finalize_attempt memory spell finish alone
      (finalize_attempt memory spell finish alone under_way).0).1
    ≡ ok true)
finalize_once_example =
    finalize_once memory spell finish finish alone alone under_way
      (finalize_attempt memory spell finish alone under_way).0 alone-Forward alone-Forward
      (omega arith) (omega arith) refl refl finished
      (Evolves-refl (finalize_attempt memory spell finish alone under_way).0)

abbrev circuit_at : ℕ → CircuitRuntimeState
circuit_at n = record unbroken { version = n }

-- The circuit was read at version 1, and another worker has written version 2.
abbrev late : FinalizeAttempt
late = record finish { circuit = some (circuit_at 2) }

abbrev moved_on : Tables
moved_on = record under_way {
  circuits = λ k. if tenant_key_eq (circuit_key late) k then some (circuit_at 2) else none;
}

finalize-circuit_behind_example :
    ¬ ((finalize_attempt memory spell late alone moved_on).1 ≡ ok true)
finalize-circuit_behind_example =
    finalize-circuit_behind memory spell late (circuit_at 2) (circuit_at 2) alone moved_on refl
      (λ h. omega (arith, h)) refl (λ n t. refl)

under_way-Told : Told under_way
unfolding derive_event_status
under_way-Told k e h = elim (Bool-cases (tenant_key_eq (event_key key) k)) [
  | inl same ↦
      let g = rw same at h in
      let e_e : event ≡ e = cc in subst (λ x. derive_event_status x.outcome ≡ ok x.status) e_e refl
  | inr other ↦ let g = rw other at h in cc
]
