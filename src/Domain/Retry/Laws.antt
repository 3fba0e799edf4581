-- ===== src/Domain/Retry/Laws.antt =====
-- The bounds of the retry delay, and its growth with the attempts.
use partner_integration_reli.Prelude.{ℕ, ◌-◌, ◌*◌, ◌≤◌, ◌<◌, min, Option, get_or, arith}
use native.Mathlib.Nat.{mul-le-mul_left, mul-le-mul_right, pow-le-pow_right}
use partner_integration_reli.Domain.Types.{RetryPolicy}
use partner_integration_reli.Domain.Retry.{
  ticks_per_second, base_delay, jittered, retry_delay_ticks,
}

jittered_bounds :
    (base random : ℕ)
    → (base * 1_000_000 ≤ jittered base random) × (jittered base random ≤ base * 2_000_000)
unfolding jittered
jittered_bounds base random =
    (mul-le-mul_left base (omega arith), mul-le-mul_left base (omega arith))

base_delay-le : (p : RetryPolicy) (attempt : ℕ) → base_delay p attempt ≤ p.max_delay_seconds
unfolding base_delay
base_delay-le p attempt = omega arith

-- The delay is never above the cap, never below half of the exponential delay, and honours the
-- partner's `Retry-After` up to the cap.
pub retry_delay_bounds :
    (p : RetryPolicy) (attempt random : ℕ) (after : Option ℕ)
    → let d = retry_delay_ticks p attempt random after in
      (d ≤ p.max_delay_seconds * ticks_per_second)
      × (base_delay p attempt * 1_000_000 ≤ d)
      × (min p.max_delay_seconds (get_or after 0) * ticks_per_second ≤ d)
unfolding retry_delay_ticks
retry_delay_bounds p attempt random after =
    let j = (jittered_bounds (base_delay p attempt) random).0 in
    (omega arith, omega (arith, j, base_delay-le p attempt), omega arith)

base_delay_mono :
    (p : RetryPolicy) (a b : ℕ) → 0 < p.multiplier → a ≤ b → base_delay p a ≤ base_delay p b
unfolding base_delay
base_delay_mono p a b pos h =
    let grown =
      mul-le-mul_left p.initial_delay_seconds
        (pow-le-pow_right pos {i = a - 1} {j = b - 1} (omega arith)) in
    omega (arith, grown)

jittered_mono : (a b random : ℕ) → a ≤ b → jittered a random ≤ jittered b random
unfolding jittered
jittered_mono a b random h = mul-le-mul_right _ h

-- With the same draw and the same header, a later attempt never waits less.
pub retry_delay_mono :
    (p : RetryPolicy) (a b random : ℕ) (after : Option ℕ)
    → 0 < p.multiplier
    → a ≤ b
    → retry_delay_ticks p a random after ≤ retry_delay_ticks p b random after
unfolding retry_delay_ticks
retry_delay_mono p a b random after pos h =
    let grown =
      jittered_mono (base_delay p a) (base_delay p b) random (base_delay_mono p a b pos h) in
    omega (arith, grown)
