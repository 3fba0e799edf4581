-- ===== src/Tests/Policies.antt =====
-- The pure policies.
use partner_integration_reli.Prelude.{
  ℕ, ◌+◌, ◌*◌, ◌≤◌, ◌<◌, ◌≡◌, ◌↔◌, ◌⊎◌, refl, true, false, none, some, min, [], ◌∷◌, ok, arith,
}
use partner_integration_reli.Domain.Types.{EventOutcomeCounters, partially_succeeded}
use partner_integration_reli.Domain.Status.{derive_event_status, derive_iff, IsConsistent, Tells}
use partner_integration_reli.Domain.Rate.{ceil_div, rate_limit_decision, spacing_num, spacing_den}
use partner_integration_reli.Domain.Rate.Eligible.{refused-next_eligible}
use partner_integration_reli.Domain.Rate.Bound.{permits, served, permits_bound}
use partner_integration_reli.Domain.Retry.{retry_delay_ticks, ticks_per_second, base_delay}
use partner_integration_reli.Domain.Retry.Laws.{retry_delay_bounds}
use partner_integration_reli.Domain.Classify.{classify_delivery_result}
use partner_integration_reli.Domain.Classify.Laws.{classify_status_iff}
use partner_integration_reli.Tests.Fixtures.{retry_policy, rate_policy}

abbrev mixed : EventOutcomeCounters
mixed = record {
  routing_complete = true;
  total_deliveries = 3;
  terminal_deliveries = 3;
  successful_deliveries = 2;
  failed_terminal_deliveries = 0;
  dead_lettered_deliveries = 1;
}

derive_iff_example :
    (derive_event_status mixed ≡ ok partially_succeeded)
    ↔ (IsConsistent mixed × Tells partially_succeeded mixed)
derive_iff_example = derive_iff mixed partially_succeeded

-- The spacing is 6.667 seconds.
refused-next_eligible_example :
    let next = (rate_limit_decision (some 20_000) rate_policy 5000).next_eligible_at_ms in
    (5000 < next)
    × ((rate_limit_decision (some 20_000) rate_policy next).permitted ≡ true)
    × ((early : ℕ)
        → early < next
        → (rate_limit_decision (some 20_000) rate_policy early).permitted ≡ false)
unfolding rate_limit_decision
refused-next_eligible_example = refused-next_eligible 20_000 rate_policy 5000 (omega arith) refl

permits_bound_example :
    1000 * spacing_den rate_policy
      + spacing_num rate_policy * permits rate_policy none (1000 ∷ 1000 ∷ [])
    ≤ 1001 * spacing_den rate_policy + spacing_num rate_policy * 2
unfolding rate_limit_decision served ceil_div
permits_bound_example = permits_bound rate_policy 1000 (1000 ∷ []) 1001 (omega arith) refl

retry_delay_bounds_example :
    let d = retry_delay_ticks retry_policy 3 500_000 (some 60) in
    (d ≤ 1800 * ticks_per_second)
    × (base_delay retry_policy 3 * 1_000_000 ≤ d)
    × (min 1800 60 * ticks_per_second ≤ d)
retry_delay_bounds_example = retry_delay_bounds retry_policy 3 500_000 (some 60)

abbrev unavailable : ℕ
unavailable = 503

classify_status_iff_example :
    let c = classify_delivery_result (some unavailable) none in
    ((c.success ≡ true) ↔ (200 ≤ unavailable) × (unavailable < 300))
    × ((c.retryable ≡ true) ↔ (
        (unavailable ≡ 408)
        ⊎ (unavailable ≡ 425)
        ⊎ (unavailable ≡ 429)
        ⊎ (unavailable ≡ 500)
        ⊎ (unavailable ≡ 502)
        ⊎ (unavailable ≡ 503)
        ⊎ (unavailable ≡ 504)))
    × ((c.counts_toward_circuit ≡ true)
        ↔ ((unavailable ≡ 500) ⊎ (unavailable ≡ 502) ⊎ (unavailable ≡ 503) ⊎ (unavailable ≡ 504)))
classify_status_iff_example = classify_status_iff unavailable none
