-- ===== src/Persistence/RatePermit.antt =====
-- `acquireRatePermit` of packages/persistence/src/index.ts.
pub mod Served
use partner_integration_reli.Prelude.{
  ℕ, ◌+◌, Bool, true, false, not, ◌==◌, Option, none, some, get_or, List, [], ◌∷◌, if◌then◌else◌,
  Result, ok,
}
use partner_integration_reli.Domain.Types.{RateLimitPolicy, RateLimitRuntimeState}
use partner_integration_reli.Domain.Rate.{RateDecision, rate_limit_decision}
use partner_integration_reli.Store.Condition.{absent_or}
use partner_integration_reli.Store.Keys.{TenantKey}
use partner_integration_reli.Store.Tables.{Tables, Write, put_rate}
use partner_integration_reli.Store.Database.{Database}
use partner_integration_reli.Persistence.Common.{Fault, settle}
use partner_integration_reli.Persistence.Rounds.{Round, Answer, retry_rounds, version_or}

pub record RateRequest : Type 0 where
  pub key : TenantKey
  pub policy : RateLimitPolicy
  pub now : ℕ

pub record RatePermit : Type 0 where
  pub permitted : Bool
  pub next_eligible_at : ℕ

-- The arrival time of a record that was read.
abbrev pub tat_of : Option RateLimitRuntimeState → Option ℕ
tat_of none = none
tat_of (some r) = some r.theoretical_arrival_time_ms

-- The record of a permitted request.
unfoldable pub next_rate :
    RateRequest → Option RateLimitRuntimeState → RateDecision → RateLimitRuntimeState
next_rate i current d = record {
  theoretical_arrival_time_ms = get_or d.next_theoretical_arrival_time_ms i.now;
  updated_at = i.now;
  policy_hash = i.policy;
  version = version_or (λ (r : RateLimitRuntimeState). r.version) current + 1;
}

unfoldable pub rate_writes : RateRequest → Option RateLimitRuntimeState → RateDecision → List Write
rate_writes i current d =
    put_rate
      (absent_or (λ r. r.version == version_or (λ (x : RateLimitRuntimeState). x.version) current))
      i.key (next_rate i current d)
    ∷ []

module _ (db : Database) (i : RateRequest) where
  unfoldable pub rate_round : Round db → db.Store → db.Store × Answer RatePermit
  unfolding rate_writes
  rate_round round s =
      let current = round.seen.rates i.key in
      let d = rate_limit_decision (tat_of current) i.policy i.now in
      if not d.permitted
      then (s, ok (some (record { permitted = false; next_eligible_at = d.next_eligible_at_ms })))
      else settle (db.transact s (rate_writes i current d))
          (some (record { permitted = true; next_eligible_at = i.now })) none

  unfoldable pub acquire_rate_permit :
      (ℕ → Round db) → db.Store → db.Store × Result Fault RatePermit
  unfolding rate_round
  acquire_rate_permit =
      retry_rounds db rate_round
        (ok (record { permitted = false; next_eligible_at = i.now + 5000 })) 8
