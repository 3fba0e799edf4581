-- ===== src/Domain/Types.antt =====
-- The types of packages/domain/src/index.ts. An identifier, a hash or a name that the code only
-- compares is a number; an instant is its milliseconds since the epoch.
use Prim.Native.String.{String}
use partner_integration_reli.Prelude.{ℕ, Bool, true, false, List, Option, ◌==◌}
use partner_integration_reli.Json.{Json}

pub data ActorRole : Type 0 where
  admin operator viewer : ActorRole

pub data ActorType : Type 0 where
  console_user api_client system : ActorType

pub record TenantContext : Type 0 where
  pub tenant_id : ℕ
  pub actor_type : ActorType
  pub actor_id : ℕ
  pub role : Option ActorRole
  pub request_id : ℕ
  pub correlation_id : ℕ

pub data EventStatus : Type 0 where
  accepted processing partially_succeeded succeeded failed no_destinations : EventStatus

-- The counters are sums that the program counts up from 0, so they are whole and not negative.
pub record EventOutcomeCounters : Type 0 where
  pub routing_complete : Bool
  pub total_deliveries : ℕ
  pub terminal_deliveries : ℕ
  pub successful_deliveries : ℕ
  pub failed_terminal_deliveries : ℕ
  pub dead_lettered_deliveries : ℕ

pub data DeliveryState : Type 0 where
  pending scheduled rate_limited in_progress retry_scheduled succeeded : DeliveryState
  failed_terminal dead_lettered cancelled : DeliveryState

pub data FailureCategory : Type 0 where
  transformation_error invalid_destination destination_disabled secret_not_found : FailureCategory
  oauth_token_error dns_error connection_error tls_error timeout : FailureCategory
  rate_limited partner_4xx partner_5xx response_too_large : FailureCategory
  response_contract_error circuit_open internal_persistence_error unknown : FailureCategory

pub data ExecutionType : Type 0 where
  original replay : ExecutionType

pub data DestinationAuthType : Type 0 where
  api_key oauth_client_credentials : DestinationAuthType

-- A lease token is issued by the identifier generator; recovery passes two texts of its own.
pub data LeaseToken : Type 0 where
  issued : ℕ → LeaseToken
  expired_lease blank : LeaseToken

abbrev pub token_eq : LeaseToken → LeaseToken → Bool
token_eq (issued a) (issued b) = a == b
token_eq expired_lease expired_lease = true
token_eq blank blank = true
token_eq _ _ = false

-- `expiresAt` is an instant in the program and epoch seconds in the tables.
pub data Expiry : Type 0 where
  instant : ℕ → Expiry
  seconds : ℕ → Expiry

-- The jitter of a retry policy is always FULL_UPPER_HALF.
pub record RetryPolicy : Type 0 where
  pub max_attempts : ℕ
  pub initial_delay_seconds : ℕ
  pub multiplier : ℕ
  pub max_delay_seconds : ℕ

-- The safety factor is the fraction `safety_num / safety_den`.
pub record RateLimitPolicy : Type 0 where
  pub requests_per_interval : ℕ
  pub interval_seconds : ℕ
  pub burst_capacity : ℕ
  pub safety_num : ℕ
  pub safety_den : ℕ

pub record CircuitBreakerPolicy : Type 0 where
  pub failure_threshold : ℕ
  pub cooldown_seconds : ℕ
  pub probe_lease_seconds : ℕ

pub data CircuitState : Type 0 where
  closed open_circuit half_open : CircuitState

pub record CircuitRuntimeState : Type 0 where
  pub state : CircuitState
  pub consecutive_failures : ℕ
  pub opened_at : Option ℕ
  pub next_probe_at : Option ℕ
  pub probe_lease_owner : Option ℕ
  pub probe_lease_expires_at : Option ℕ
  pub version : ℕ

pub record RateLimitRuntimeState : Type 0 where
  pub theoretical_arrival_time_ms : ℕ
  pub updated_at : ℕ
  pub policy_hash : RateLimitPolicy
  pub version : ℕ

-- The method of a destination is always POST.
pub record DeliveryConfigurationSnapshot : Type 0 where
  pub destination_version : ℕ
  pub url : ℕ
  pub timeout_ms : ℕ
  pub retry_policy : RetryPolicy
  pub rate_limit_policy_id : ℕ × ℕ
  pub circuit_breaker_policy_id : ℕ × ℕ
  pub auth_type : DestinationAuthType
  pub auth_configuration : Json
  pub secret_reference_names : List ℕ
  pub transformation_id : ℕ
  pub transformation_version : ℕ
  pub redaction_paths : List String
  pub idempotency_header : Option String

pub record DeliveryExecution : Type 0 where
  pub delivery_id : ℕ
  pub event_id : ℕ
  pub correlation_id : ℕ
  pub tenant_id : ℕ
  pub partner_id : ℕ
  pub destination_id : ℕ
  pub execution_type : ExecutionType
  pub original_delivery_id : Option ℕ
  pub replay_id : Option ℕ
  pub state : DeliveryState
  pub blocked_reason : Option FailureCategory
  pub attempt_count : ℕ
  pub max_attempts : ℕ
  pub active_attempt_id : Option ℕ
  pub next_eligible_at : Option ℕ
  pub lease_owner : Option ℕ
  pub lease_token : Option LeaseToken
  pub lease_acquired_at : Option ℕ
  pub lease_expires_at : Option ℕ
  pub config_snapshot : DeliveryConfigurationSnapshot
  pub transformed_payload : Json
  pub transformed_payload_hash : ℕ
  pub partner_idempotency_key : String
  pub last_failure_category : Option FailureCategory
  pub created_at : ℕ
  pub updated_at : ℕ
  pub terminal_at : Option ℕ
  pub version : ℕ
  pub expires_at : Expiry

-- The failures that the functions of the package throw.
pub data DomainError : Type 0 where
  version_mismatch lease_required lease_token_mismatch next_eligible_required : DomainError
  forbidden_transition : DeliveryState → DeliveryState → DomainError
  inconsistent_counters : DomainError
  nonpositive_policy max_attempts_not_positive safety_factor_above_one : DomainError

pub data DomainErrorCode : Type 0 where
  invalid_transition invalid_event_counters invalid_policy : DomainErrorCode

pub code : DomainError → DomainErrorCode
code version_mismatch = invalid_transition
code lease_required = invalid_transition
code lease_token_mismatch = invalid_transition
code next_eligible_required = invalid_transition
code (forbidden_transition a b) = invalid_transition
code inconsistent_counters = invalid_event_counters
code nonpositive_policy = invalid_policy
code max_attempts_not_positive = invalid_policy
code safety_factor_above_one = invalid_policy
