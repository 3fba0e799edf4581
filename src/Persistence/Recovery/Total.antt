-- ===== src/Persistence/Recovery/Total.antt =====
-- An abandoned delivery can always be recovered.
use partner_integration_reli.Prelude.{
  ℕ, ◌+◌, ◌*◌, ◌≡◌, ◌≤◌, ◌<◌, ◌↔◌, true, is_some, none, some, ok, arith,
}
use partner_integration_reli.Domain.Types.{
  in_progress, scheduled, dead_lettered, retry_scheduled, LeaseToken, DeliveryExecution,
}
use partner_integration_reli.Domain.Records.{DeliveryAttempt}
use partner_integration_reli.Domain.Transition.{transition_delivery, permitted_transitions, moved}
use partner_integration_reli.Domain.Rate.{ceil_div}
use partner_integration_reli.Domain.Retry.{base_delay}
use partner_integration_reli.Domain.Retry.Laws.{retry_delay_bounds}
use partner_integration_reli.Persistence.Recovery.{
  RecoverExpired, is_abandoned, recovered_at, timed_out, released, recovered_attempt,
}

abandoned_in_progress :
    (n : ℕ) (d : DeliveryExecution) → is_abandoned n d ≡ true → d.state ≡ in_progress
unfolding is_abandoned
abandoned_in_progress n d h = ground arith

timed_out_ok :
    (i : RecoverExpired) (d : DeliveryExecution) (token : LeaseToken)
    → d.state ≡ in_progress
    → d.lease_token ≡ some token
    → transition_delivery d (timed_out i d) ≡ ok (moved d (timed_out i d))
unfolding transition_delivery permitted_transitions timed_out
timed_out_ok i d token busy held = ground arith

released_ok :
    (i : RecoverExpired) (d : DeliveryExecution) (token : LeaseToken)
    → d.state ≡ in_progress
    → d.lease_token ≡ some token
    → transition_delivery d (released i d) ≡ ok (moved d (released i d))
unfolding transition_delivery permitted_transitions released
released_ok i d token busy held = ground arith

-- A delivery that is abandoned under a lease token can be recovered. If an attempt was under way, it
-- goes to the dead letters exactly if its attempts are exhausted, and to a retry, with a message
-- that schedules it, exactly if they are not; if none was under way, it goes back to the schedule.
pub recovery_total :
    (i : RecoverExpired) (d : DeliveryExecution) (token : LeaseToken) (a : DeliveryAttempt)
    → is_abandoned i.now d ≡ true
    → d.lease_token ≡ some token
    → let ended = moved d (timed_out i d) in
      let idle = moved d (released i d) in
      (transition_delivery d (timed_out i d) ≡ ok ended)
      × ((ended.state ≡ dead_lettered) ↔ (d.max_attempts ≤ d.attempt_count))
      × ((ended.state ≡ retry_scheduled) ↔ (d.attempt_count < d.max_attempts))
      × ((is_some (recovered_attempt i d ended a).outbox ≡ true)
          ↔ (d.attempt_count < d.max_attempts))
      × (transition_delivery d (released i d) ≡ ok idle)
      × (idle.state ≡ scheduled)
unfolding timed_out released moved recovered_attempt
recovery_total i d token a lost held =
    let busy = abandoned_in_progress i.now d lost in
    (
      timed_out_ok i d token busy held,
      ground arith,
      ground arith,
      ground arith,
      released_ok i d token busy held,
      ground arith,
    )

-- The retry of an attempt that timed out is due no sooner than half the exponential delay of its
-- policy, and no later than the policy's cap.
recovered_at_bounds :
    (i : RecoverExpired) (d : DeliveryExecution)
    → let p = d.config_snapshot.retry_policy in
      (2 * i.now + base_delay p d.attempt_count * 1000 ≤ 2 * recovered_at i d)
      × (recovered_at i d ≤ i.now + p.max_delay_seconds * 1000)
unfolding recovered_at ceil_div
recovered_at_bounds i d =
    let p = d.config_snapshot.retry_policy in
    let b = retry_delay_bounds p d.attempt_count i.random none in
    (omega (arith, b.0, b.1), omega (arith, b.0, b.1))
