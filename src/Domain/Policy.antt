-- ===== src/Domain/Policy.antt =====
-- `validatePolicy` of packages/domain/src/index.ts, for each of the three policies. The numbers are
-- natural here, so a value is refused when it is 0.
use partner_integration_reli.Prelude.{
  ℕ, ◌≤◌, ◌<◌, ◌≡◌, ◌↔◌, Bool, false, ◌||◌, ltb, ◌==◌, if◌then◌else◌, Result, ok, err, List, [],
  ◌∷◌, arith,
}
use partner_integration_reli.Domain.Types.{
  RetryPolicy, RateLimitPolicy, CircuitBreakerPolicy, DomainError, nonpositive_policy,
  max_attempts_not_positive, safety_factor_above_one,
}

pub data Policy : Type 0 where
  retry : RetryPolicy → Policy
  rate : RateLimitPolicy → Policy
  circuit : CircuitBreakerPolicy → Policy

any_zero : List ℕ → Bool
any_zero [] = false
any_zero (n ∷ ns) = n == 0 || any_zero ns

-- `Object.values`, with the safety factor by its numerator.
values : Policy → List ℕ
values (retry p) =
    p.max_attempts ∷ p.initial_delay_seconds ∷ p.multiplier ∷ p.max_delay_seconds ∷ []
values (rate p) =
    p.requests_per_interval ∷ p.interval_seconds ∷ p.burst_capacity ∷ p.safety_num ∷ []
values (circuit p) = p.failure_threshold ∷ p.cooldown_seconds ∷ p.probe_lease_seconds ∷ []

max_attempts_below_one : Policy → Bool
max_attempts_below_one (retry p) = ltb p.max_attempts 1
max_attempts_below_one _ = false

safety_above_one : Policy → Bool
safety_above_one (rate p) = ltb p.safety_den p.safety_num
safety_above_one _ = false

unfoldable pub validate_policy : Policy → Result DomainError (Unit {0})
unfolding any_zero values max_attempts_below_one safety_above_one
validate_policy p =
    if any_zero (values p)
    then err nonpositive_policy
    else if max_attempts_below_one p
    then err max_attempts_not_positive
    else if safety_above_one p
    then err safety_factor_above_one
    else ok tt

-- What the rest of the program relies on.
abbrev pub IsUsable : Policy → Type 0
IsUsable (retry p) =
    (1 ≤ p.max_attempts)
    × (0 < p.initial_delay_seconds)
    × (0 < p.multiplier)
    × (0 < p.max_delay_seconds)
IsUsable (rate p) =
    (0 < p.requests_per_interval)
    × (0 < p.interval_seconds)
    × (1 ≤ p.burst_capacity)
    × (0 < p.safety_num)
    × (p.safety_num ≤ p.safety_den)
IsUsable (circuit p) =
    (0 < p.failure_threshold) × (0 < p.cooldown_seconds) × (0 < p.probe_lease_seconds)

validate-IsUsable : (p : Policy) → validate_policy p ≡ ok tt → IsUsable p
unfolding validate_policy
validate-IsUsable (retry p) h = ground arith
validate-IsUsable (rate p) h = ground arith
validate-IsUsable (circuit p) h = ground arith

IsUsable-validate : (p : Policy) → IsUsable p → validate_policy p ≡ ok tt
unfolding validate_policy
IsUsable-validate (retry p) h = ground arith
IsUsable-validate (rate p) h = ground arith
IsUsable-validate (circuit p) h = ground arith

-- A policy is accepted exactly when it is usable.
pub validate_iff : (p : Policy) → (validate_policy p ≡ ok tt) ↔ IsUsable p
validate_iff p = (validate-IsUsable p, IsUsable-validate p)
