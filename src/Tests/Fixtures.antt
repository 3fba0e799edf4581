-- ===== src/Tests/Fixtures.antt =====
-- The inputs that the tests share.
use partner_integration_reli.Prelude.{none, some, [], ◌∷◌, if◌then◌else◌}
use partner_integration_reli.Json.{empty_object}
use partner_integration_reli.Domain.Types.{
  DeliveryState, RetryPolicy, RateLimitPolicy, CircuitBreakerPolicy, DeliveryConfigurationSnapshot,
  DeliveryExecution, original, api_key, seconds,
}
use partner_integration_reli.Store.Keys.{DeliveryKey, delivery_key_eq}
use partner_integration_reli.Store.Tables.{Tables, Rollup}

abbrev pub retry_policy : RetryPolicy
retry_policy = record {
  max_attempts = 5;
  initial_delay_seconds = 5;
  multiplier = 2;
  max_delay_seconds = 1800;
}

-- Ten requests a minute, three at once, with a tenth held back.
abbrev pub rate_policy : RateLimitPolicy
rate_policy = record {
  requests_per_interval = 10;
  interval_seconds = 60;
  burst_capacity = 3;
  safety_num = 9;
  safety_den = 10;
}

abbrev pub circuit_policy : CircuitBreakerPolicy
circuit_policy = record { failure_threshold = 2; cooldown_seconds = 30; probe_lease_seconds = 10 }

abbrev pub snapshot : DeliveryConfigurationSnapshot
snapshot = record {
  destination_version = 1;
  url = 70;
  timeout_ms = 8000;
  retry_policy = retry_policy;
  rate_limit_policy_id = (4, 1);
  circuit_breaker_policy_id = (4, 1);
  auth_type = api_key;
  auth_configuration = empty_object;
  secret_reference_names = 8 ∷ [];
  transformation_id = 5;
  transformation_version = 1;
  redaction_paths = [];
  idempotency_header = none;
}

-- A delivery in a given state, eligible since instant 1000.
abbrev pub delivery_in : DeliveryState → DeliveryExecution
delivery_in s = record {
  delivery_id = 3;
  event_id = 2;
  correlation_id = 9;
  tenant_id = 1;
  partner_id = 6;
  destination_id = 4;
  execution_type = original;
  original_delivery_id = none;
  replay_id = none;
  state = s;
  blocked_reason = none;
  attempt_count = 0;
  max_attempts = 5;
  active_attempt_id = none;
  next_eligible_at = some 1000;
  lease_owner = none;
  lease_token = none;
  lease_acquired_at = none;
  lease_expires_at = none;
  config_snapshot = snapshot;
  transformed_payload = empty_object;
  transformed_payload_hash = 11;
  partner_idempotency_key = "key-12";
  last_failure_category = none;
  created_at = 1000;
  updated_at = 1000;
  terminal_at = none;
  version = 1;
  expires_at = seconds 9000;
}

abbrev pub key : DeliveryKey
key = record { tenant = 1; event = 2; delivery = 3 }

abbrev no_rollup : Rollup
no_rollup = record {
  delivery_attempts = 0;
  delivery_successes = 0;
  delivery_failures = 0;
  retries_scheduled = 0;
  dead_letters = 0;
  replay_successes = 0;
  replay_failures = 0;
  latency_total_ms = 0;
  latency_count = 0;
  buckets = λ l. 0;
}

-- Tables that hold one delivery and nothing else.
abbrev pub holding : DeliveryExecution → Tables
holding d = record {
  deliveries = λ k. if delivery_key_eq key k then some d else none;
  lookups = λ k. none;
  attempts = λ k. none;
  histories = λ k. none;
  delivery_indexes = λ k. none;
  events = λ k. none;
  event_indexes = λ k. none;
  outboxes = λ k. none;
  circuits = λ k. none;
  rates = λ k. none;
  rollups = λ k. no_rollup;
}
