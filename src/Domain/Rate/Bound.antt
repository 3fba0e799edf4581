-- ===== src/Domain/Rate/Bound.antt =====
-- How many requests the limiter lets through, whatever the order and the times of the requests.
use native.Mathlib.Nat.{div-add-mod', mod-lt, mul-le-mul_right}
use partner_integration_reli.Prelude.{
  ℕ, ◌+◌, ◌-◌, ◌*◌, ◌≤◌, ◌<◌, ◌≡◌, max, refl, ◌⊎◌, Bool, true, false, if◌then◌else◌, Option, none,
  some, List, [], ◌∷◌, arith, inl, inr,
}
use partner_integration_reli.Domain.Types.{RateLimitPolicy}
use partner_integration_reli.Domain.Rate.{
  spacing_num, spacing_den, tolerance, ceil_div, RateDecision, rate_limit_decision,
}

-- The stored arrival time after a decision: a permitted request replaces it.
unfoldable pub after : Option ℕ → RateDecision → Option ℕ
after state d = if d.permitted then d.next_theoretical_arrival_time_ms else state

abbrev one_if : Bool → ℕ
one_if true = 1
one_if false = 0

-- Requests at the given instants, one after another: how many are permitted, and the state left.
unfoldable pub permits : RateLimitPolicy → Option ℕ → List ℕ → ℕ
unfolding after
permits p state [] = 0
permits p state (now ∷ rest) =
    let d = rate_limit_decision state p now in one_if d.permitted + permits p (after state d) rest

unfoldable pub served : RateLimitPolicy → Option ℕ → List ℕ → Option ℕ
unfolding after
served p state [] = state
served p state (now ∷ rest) = served p (after state (rate_limit_decision state p now)) rest

-- a = q * b + r in both.
ceil_div-le : (a b : ℕ) → 0 < b → a ≤ ceil_div a b * b
unfolding ceil_div
ceil_div-le a b h = omega (arith, div-add-mod' (a + b - 1) b, mod-lt (a + b - 1) h)

-- The increment in whole milliseconds.
abbrev pub spacing : RateLimitPolicy → ℕ
spacing p = ceil_div (spacing_num p) (spacing_den p)

rate_cases :
    (tat : ℕ) (p : RateLimitPolicy) (now : ℕ)
    → ((rate_limit_decision (some tat) p now).permitted ≡ false)
        × (after (some tat) (rate_limit_decision (some tat) p now) ≡ some tat)
      ⊎ ((rate_limit_decision (some tat) p now).permitted ≡ true)
        × (after (some tat) (rate_limit_decision (some tat) p now) ≡ some (max now tat + spacing p))
unfolding rate_limit_decision after
rate_cases tat p now = ground arith

-- Each permit moves the arrival time by an increment at least.
served-gap :
    (p : RateLimitPolicy) (tat : ℕ) (ts : List ℕ)
    → (new : ℕ) × (served p (some tat) ts ≡ some new)
      × (tat + permits p (some tat) ts * spacing p ≤ new)
unfolding permits served
served-gap p tat [] = (tat, refl, omega arith)
served-gap p tat (now ∷ rest) = elim (rate_cases tat p now) [
  | inl (no_permit, same) ↦
      let (new, e, gap) = served-gap p tat rest in rw (same, no_permit) (new, e, omega arith)
  | inr (permit, moved) ↦
      let (new, e, gap) = served-gap p (max now tat + spacing p) rest in
      rw (moved, permit) (new, e, grind arith)
]

first_permitted :
    (p : RateLimitPolicy) (now : ℕ)
    → ((rate_limit_decision none p now).permitted ≡ true)
      × (after none (rate_limit_decision none p now) ≡ some (now + spacing p))
unfolding rate_limit_decision after
first_permitted p now = ground arith

permitted_late :
    (tat : ℕ) (p : RateLimitPolicy) (now : ℕ)
    → (rate_limit_decision (some tat) p now).permitted ≡ true
    → tat * spacing_den p ≤ now * spacing_den p + tolerance p
unfolding rate_limit_decision
permitted_late tat p now h = ground arith

bound_at :
    (num den c t0 n tat now tol : ℕ)
    → num ≤ c * den
    → t0 + c + n * c ≤ tat
    → tat * den ≤ now * den + tol
    → t0 * den + num * (1 + n) ≤ now * den + tol
bound_at num den c t0 n tat now tol h k l =
    omega (arith, mul-le-mul_right (1 + n) h, mul-le-mul_right den k, l)

-- However requests come in, one that is permitted at `now`, after the first at `t0`, keeps to the
-- rate: the `n` permits before it satisfy t0 + n increments ≤ now + (burst - 1) increments, each
-- side times `spacing_den`.
pub permits_bound :
    (p : RateLimitPolicy) (t0 : ℕ) (ts : List ℕ) (now : ℕ)
    → 0 < spacing_den p
    → (rate_limit_decision (served p none (t0 ∷ ts)) p now).permitted ≡ true
    → t0 * spacing_den p + spacing_num p * permits p none (t0 ∷ ts)
      ≤ now * spacing_den p + spacing_num p * (p.burst_capacity - 1)
unfolding permits served
permits_bound p t0 ts now pos h =
    let (first, stored) = first_permitted p t0 in
    let (tat, e, gap) = served-gap p (t0 + spacing p) ts in
    rw (stored, first)
      (bound_at (spacing_num p) (spacing_den p) (spacing p) t0
        (permits p (some (t0 + spacing p)) ts) tat now (tolerance p) (ceil_div-le _ _ pos) gap
        (permitted_late tat p now (rw (stored, e) at h)))
