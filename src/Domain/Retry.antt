-- ===== src/Domain/Retry.antt =====
-- `retryDelaySeconds` of packages/domain/src/index.ts. The delay is exact, in ticks of which a
-- second has 2 000 000; the random number is given in millionths, and policies hold whole numbers.
pub mod Laws
use partner_integration_reli.Prelude.{ℕ, ◌+◌, ◌-◌, ◌*◌, ◌^◌, min, max, Option, get_or}
use partner_integration_reli.Domain.Types.{RetryPolicy}

abbrev pub ticks_per_second : ℕ
ticks_per_second = 2_000_000

-- The exponential delay in seconds, capped.
pub base_delay : RetryPolicy → ℕ → ℕ
base_delay p attempt_number =
    min p.max_delay_seconds (p.initial_delay_seconds * p.multiplier ^ (attempt_number - 1))

-- base * (0.5 + min(0.999999, random) * 0.5), with the random number at most 1.
pub jittered : ℕ → ℕ → ℕ
jittered base random = base * (1_000_000 + min 999_999 random)

unfoldable pub retry_delay_ticks : RetryPolicy → ℕ → ℕ → Option ℕ → ℕ
retry_delay_ticks p attempt_number random retry_after_seconds =
    min (p.max_delay_seconds * ticks_per_second) (
      max (jittered (base_delay p attempt_number) random)
        (get_or retry_after_seconds 0 * ticks_per_second))
