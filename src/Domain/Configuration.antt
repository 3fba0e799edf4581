-- ===== src/Domain/Configuration.antt =====
-- The configuration of a tenant in packages/domain/src/index.ts: destinations, partners,
-- subscriptions and the versions of transformations.
use Prim.Native.String.{String}
use partner_integration_reli.Prelude.{ℕ, Bool, List, Option}
use partner_integration_reli.Json.{Json}
use partner_integration_reli.Domain.Types.{
  DestinationAuthType, RetryPolicy, RateLimitPolicy, CircuitBreakerPolicy,
}

pub record SecretReference : Type 0 where
  pub name : ℕ
  pub version : Option ℕ

-- The method is always POST.
pub record Destination : Type 0 where
  pub destination_id : ℕ
  pub partner_id : ℕ
  pub tenant_id : ℕ
  pub external_key : ℕ
  pub base_url : ℕ
  pub path : ℕ
  pub enabled : Bool
  pub auth_type : DestinationAuthType
  pub auth_configuration : Json
  pub secret_references : List SecretReference
  pub timeout_ms : ℕ
  pub retry_policy : RetryPolicy
  pub rate_limit_policy : RateLimitPolicy
  pub circuit_breaker_policy : CircuitBreakerPolicy
  pub transformation_id : ℕ
  pub active_transformation_version : ℕ
  pub sensitive_response_json_paths : List String
  pub version : ℕ

pub record Partner : Type 0 where
  pub partner_id : ℕ
  pub tenant_id : ℕ
  pub external_key : ℕ
  pub enabled : Bool
  pub version : ℕ

pub record TransformationVersion : Type 0 where
  pub transformation_id : ℕ
  pub external_key : ℕ
  pub tenant_id : ℕ
  pub version : ℕ
  pub definition : Json

pub record Subscription : Type 0 where
  pub subscription_id : ℕ
  pub external_key : ℕ
  pub tenant_id : ℕ
  pub destination_id : ℕ
  pub event_type : ℕ
  pub enabled : Bool
  pub version : ℕ
