-- ===== src/Domain/Rate/Eligible.antt =====
-- A refused request is told the first millisecond at which it would be permitted.
use partner_integration_reli.Prelude.{
  ℕ, ◌+◌, ◌-◌, ◌*◌, ◌/◌, ◌%◌, sym, ◌≤◌, ◌<◌, ◌≡◌, true, false, some, arith,
}
use native.Mathlib.Nat.{div-mul-le_self, div-add-mod', mod-lt, lt_of_mul-lt-mul_right}
use partner_integration_reli.Domain.Types.{RateLimitPolicy}
use partner_integration_reli.Domain.Rate.{spacing_den, tolerance, rate_limit_decision}

split_bounds :
    (d q r den now : ℕ)
    → r < den
    → now * den + (q * den + r) < (d + q) * den
    → ((d + q) * den ≤ d * den + (q * den + r)) × (now < d)
split_bounds d q r den now h k = (omega arith, grind arith)

split_early :
    (d q r den later : ℕ) → r < den → later < d → later * den + (q * den + r) < (d + q) * den
split_early d q r den later h k = grind arith

bounds_at :
    (tat d q r den tol now : ℕ)
    → tat ≡ d + q
    → tol ≡ q * den + r
    → r < den
    → now * den + tol < tat * den
    → (tat * den ≤ d * den + tol)
      × (now < d)
      × ((later : ℕ) → later < d → later * den + tol < tat * den)
bounds_at tat d q r den tol now e f h k =
    rw (e, f)
      (
        (split_bounds d q r den now h (rw (e, f) at k)).0,
        (split_bounds d q r den now h (rw (e, f) at k)).1,
        λ later l. split_early d q r den later h l,
      )

quotient_below : (tat tol den now : ℕ) → now * den + tol < tat * den → tol / den ≤ tat
quotient_below tat tol den now h =
    let below : tol / den * den < tat * den = omega (arith, div-mul-le_self tol den) in
    omega (arith, lt_of_mul-lt-mul_right den below)

next_bounds :
    (tat den tol now : ℕ)
    → 0 < den
    → now * den + tol < tat * den
    → (tat * den ≤ (tat - tol / den) * den + tol)
      × (now < tat - tol / den)
      × ((later : ℕ) → later < tat - tol / den → later * den + tol < tat * den)
next_bounds tat den tol now pos h =
    bounds_at tat (tat - tol / den) (tol / den) (tol % den) den tol now
      (omega (arith, quotient_below tat tol den now h)) (sym (div-add-mod' tol den))
      (mod-lt tol pos) h

module _ (tat : ℕ) (p : RateLimitPolicy) (now : ℕ) where
  refused_early :
      (rate_limit_decision (some tat) p now).permitted ≡ false
      → now * spacing_den p + tolerance p < tat * spacing_den p
  unfolding rate_limit_decision
  refused_early h = ground arith

  refused_next :
      (rate_limit_decision (some tat) p now).permitted ≡ false
      → (rate_limit_decision (some tat) p now).next_eligible_at_ms
        ≡ tat - tolerance p / spacing_den p
  unfolding rate_limit_decision
  refused_next h = ground arith

  permitted_late :
      tat * spacing_den p ≤ now * spacing_den p + tolerance p
      → (rate_limit_decision (some tat) p now).permitted ≡ true
  unfolding rate_limit_decision
  permitted_late h = ground arith

  early_refused :
      now * spacing_den p + tolerance p < tat * spacing_den p
      → (rate_limit_decision (some tat) p now).permitted ≡ false
  unfolding rate_limit_decision
  early_refused h = ground arith

-- A refused request is told an instant after its own at which the same state permits it, and no
-- earlier instant would do.
pub refused-next_eligible :
    (tat : ℕ) (p : RateLimitPolicy) (now : ℕ)
    → 0 < spacing_den p
    → (rate_limit_decision (some tat) p now).permitted ≡ false
    → let next = (rate_limit_decision (some tat) p now).next_eligible_at_ms in
      (now < next)
      × ((rate_limit_decision (some tat) p next).permitted ≡ true)
      × ((early : ℕ) → early < next → (rate_limit_decision (some tat) p early).permitted ≡ false)
refused-next_eligible tat p now pos h =
    let b = next_bounds tat (spacing_den p) (tolerance p) now pos (refused_early tat p now h) in
    rw (refused_next tat p now h)
      (b.1, permitted_late tat p _ b.0, λ early l. early_refused tat p early (b.2 early l))
