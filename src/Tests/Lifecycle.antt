-- ===== src/Tests/Lifecycle.antt =====
-- The life cycle of a delivery.
use partner_integration_reli.Prelude.{◌+◌, ◌≡◌, ◌↔◌, refl, none, some, ok}
use partner_integration_reli.Domain.Types.{
  scheduled, in_progress, succeeded, issued, DeliveryExecution,
}
use partner_integration_reli.Domain.Transition.{
  DeliveryTransition, transition_delivery, permitted_transitions, moved, is_terminal_delivery_state,
}
use partner_integration_reli.Domain.Transition.Outcome.{
  transition-ok_iff, Allowed, transition-IsSettled, IsSettled, SameExecution,
}
use partner_integration_reli.Domain.Transition.Runs.{Run, stop, then}
use partner_integration_reli.Tests.Fixtures.{delivery_in}

abbrev take_lease : DeliveryTransition
take_lease = record {
  to_state = in_progress;
  at = 2000;
  expected_version = 1;
  lease_token = none;
  next_eligible_at = none;
  blocked_reason = none;
  lease = some (record { owner = 5; token = issued 77; expires_at = 15_000 });
}

abbrev finish : DeliveryTransition
finish = record {
  to_state = succeeded;
  at = 3000;
  expected_version = 2;
  lease_token = some (issued 77);
  next_eligible_at = none;
  blocked_reason = none;
  lease = none;
}

abbrev start : DeliveryExecution
start = delivery_in scheduled

abbrev leased : DeliveryExecution
unfolding moved is_terminal_delivery_state
leased = moved start take_lease

abbrev finished : DeliveryExecution
unfolding moved is_terminal_delivery_state
finished = moved leased finish

lease_taken : transition_delivery start take_lease ≡ ok leased
unfolding transition_delivery permitted_transitions moved
lease_taken = refl

lease_finished : transition_delivery leased finish ≡ ok finished
unfolding transition_delivery permitted_transitions moved
lease_finished = refl

transition-ok_iff_example :
    ((d' : DeliveryExecution) × (transition_delivery start take_lease ≡ ok d'))
    ↔ Allowed start take_lease
transition-ok_iff_example = transition-ok_iff start take_lease

transition-IsSettled_example :
    IsSettled leased
    × (leased.state ≡ in_progress)
    × (leased.version ≡ 1 + 1)
    × SameExecution start leased
unfolding moved
transition-IsSettled_example = transition-IsSettled start take_lease lease_taken

whole : Run start finished
whole = then take_lease lease_taken (then finish lease_finished stop)
