-- ===== src/Domain/Rate.antt =====
-- `rateLimitDecision` of packages/domain/src/index.ts. The increment between two requests is the
-- fraction `spacing_num / spacing_den` of milliseconds, and is kept exact.
pub mod Eligible
pub mod Bound
use partner_integration_reli.Prelude.{
  ℕ, ◌+◌, ◌-◌, ◌*◌, ◌/◌, max, Bool, true, false, ltb, if◌then◌else◌, Option, none, some, get_or,
}
use partner_integration_reli.Domain.Types.{RateLimitPolicy}

-- increment = spacing_num / spacing_den.
abbrev pub spacing_num : RateLimitPolicy → ℕ
spacing_num p = p.interval_seconds * 1000 * p.safety_den

abbrev pub spacing_den : RateLimitPolicy → ℕ
spacing_den p = p.requests_per_interval * p.safety_num

-- The `Math.ceil` of a quotient.
unfoldable pub ceil_div : ℕ → ℕ → ℕ
ceil_div a b = (a + b - 1) / b

pub record RateDecision : Type 0 where
  pub permitted : Bool
  pub next_eligible_at_ms : ℕ
  pub next_theoretical_arrival_time_ms : Option ℕ

-- `increment * Math.max(0, burstCapacity - 1)`, times `spacing_den`.
abbrev pub tolerance : RateLimitPolicy → ℕ
tolerance p = spacing_num p * (p.burst_capacity - 1)

-- `tat` is the stored arrival time, if there is one. `Math.ceil(earliest)` is `tat` less the whole
-- part of the tolerance.
unfoldable pub rate_limit_decision : Option ℕ → RateLimitPolicy → ℕ → RateDecision
rate_limit_decision state p now =
    let tat = get_or state now in
    if ltb (now * spacing_den p + tolerance p) (tat * spacing_den p)
    then record {
      permitted = false;
      next_eligible_at_ms = tat - tolerance p / spacing_den p;
      next_theoretical_arrival_time_ms = none;
    }
    else record {
      permitted = true;
      next_eligible_at_ms = now;
      next_theoretical_arrival_time_ms =
          some (max now tat + ceil_div (spacing_num p) (spacing_den p));
    }
