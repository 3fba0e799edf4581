-- ===== src/Delivery/Wait.antt =====
-- How long a message waits that comes too early, in `deliver` of packages/application/src/index.ts.
use partner_integration_reli.Prelude.{ℕ, ◌+◌, ◌*◌, ◌≤◌, ◌<◌, arith}
use partner_integration_reli.Domain.Rate.{ceil_div}
use partner_integration_reli.Delivery.Call.{wait_seconds}

-- A message that comes before its delivery is eligible waits for at least a second, until the
-- delivery is eligible, and less than a second longer.
pub wait_seconds_bounds :
    (at now : ℕ)
    → now < at
    → (1 ≤ wait_seconds at now)
      × (at ≤ now + 1000 * wait_seconds at now)
      × (now + 1000 * wait_seconds at now < at + 1000)
unfolding wait_seconds ceil_div
wait_seconds_bounds at now h = omega (arith, h)
