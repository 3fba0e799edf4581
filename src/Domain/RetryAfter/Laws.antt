-- ===== src/Domain/RetryAfter/Laws.antt =====
-- What a header `Retry-After` with a date asks for.
use Prim.Native.String.{String}
use partner_integration_reli.Prelude.{ℕ, ◌+◌, ◌*◌, ◌≡◌, ◌≤◌, ◌<◌, Option, none, some, arith}
use partner_integration_reli.Domain.Rate.{ceil_div}
use partner_integration_reli.Domain.RetryAfter.{seconds_until, parse_retry_after}

-- A header whose date is at most a second past asks for no delay, one with an older date is
-- ignored, and one with a later date asks for the seconds until then, rounded up.
pub parse_retry_after_date :
    (number date : String → Option ℕ) (value : String) (at now s : ℕ)
    → number value ≡ none
    → date value ≡ some at
    → parse_retry_after number date (some value) now ≡ some s
    → (at ≤ now + 1000 * s) × (1000 * s + now < at + 1000)
unfolding parse_retry_after seconds_until ceil_div
parse_retry_after_date number date value at now s no_number dated h =
    let g = rw dated at (rw (no_number, parse_retry_after) at h) in ground (arith, g)
