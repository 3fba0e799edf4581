-- ===== src/Domain/Transition/Graph.antt =====
-- The transition table as an independent diagram of the life cycle.
use partner_integration_reli.Prelude.{◌≡◌, refl, true, arith}
use partner_integration_reli.Domain.Types.{
  DeliveryState, pending, scheduled, rate_limited, in_progress, retry_scheduled, succeeded,
  failed_terminal, dead_lettered,
}
use partner_integration_reli.Domain.Transition.{permitted_transitions, includes}

-- The states in which a delivery waits for `next_eligible_at`.
pub data IsDeferred : DeliveryState → Type 0 where
  scheduled_deferred : IsDeferred scheduled
  rate_limited_deferred : IsDeferred rate_limited
  retry_deferred : IsDeferred retry_scheduled

-- An edge of the life cycle.
infix 40 ◌⟶◌
pub data ◌⟶◌ : DeliveryState → DeliveryState → Type 0 where
  admit : pending ⟶ scheduled
  reschedule : scheduled ⟶ scheduled
  resume : rate_limited ⟶ scheduled
  requeue : retry_scheduled ⟶ scheduled
  throttle : scheduled ⟶ rate_limited
  lease : scheduled ⟶ in_progress
  lease_retry : retry_scheduled ⟶ in_progress
  postpone : in_progress ⟶ scheduled
  limit : in_progress ⟶ rate_limited
  retry : in_progress ⟶ retry_scheduled
  succeed : in_progress ⟶ succeeded
  fail : in_progress ⟶ failed_terminal
  bury : in_progress ⟶ dead_lettered

pub ruleset edges = (
  admit, reschedule, resume, requeue, throttle, lease, lease_retry, postpone, limit, retry, succeed,
  fail, bury,
)

pub permitted-⟶ : (a b : DeliveryState) → includes (permitted_transitions a) b ≡ true → a ⟶ b
unfolding permitted_transitions
permitted-⟶ a b h = grind (arith, edges)

pub ⟶-permitted : {a b : DeliveryState} → a ⟶ b → includes (permitted_transitions a) b ≡ true
unfolding permitted_transitions
⟶-permitted admit = refl
⟶-permitted _ = refl
