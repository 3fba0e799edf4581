-- ===== src/Domain/RetryAfter.antt =====
-- `parseRetryAfter` of packages/domain/src/index.ts. `number` reads a text as a whole number that
-- is not negative, `date` as an instant.
pub mod Laws
use Prim.Native.String.{String}
use partner_integration_reli.Prelude.{ℕ, ◌+◌, ◌-◌, ltb, leb, Option, none, some, if◌then◌else◌}
use partner_integration_reli.Domain.Rate.{ceil_div}

-- `Math.ceil` of a negative fraction above -1 is -0, which is not below 0.
unfoldable pub seconds_until : ℕ → ℕ → Option ℕ
unfolding ceil_div
seconds_until at now =
    if leb now at
    then some (ceil_div (at - now) 1000)
    else if ltb (now - at) 1000
    then some 0
    else none

module _ (number : String → Option ℕ) (date : String → Option ℕ) where
  unfoldable pub parse_retry_after : Option String → ℕ → Option ℕ
  unfolding seconds_until
  parse_retry_after none now = none
  parse_retry_after (some value) now = elim (number value) [
    | some seconds ↦ some seconds
    | none ↦ elim (date value) [ none ↦ none | some at ↦ seconds_until at now ]
  ]
