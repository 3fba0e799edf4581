-- ===== src/RoutingService/Plan/Laws.antt =====
-- The deliveries that routing makes are well formed from the start.
use partner_integration_reli.Prelude.{◌≡◌, refl}
use partner_integration_reli.Domain.Types.{DeliveryState, failed_terminal}
use partner_integration_reli.Domain.Transition.{is_terminal_delivery_state}
use partner_integration_reli.Domain.Transition.Outcome.{IsSettled}
use partner_integration_reli.Domain.Transition.Graph.{
  IsDeferred, scheduled_deferred, rate_limited_deferred, retry_deferred,
}
use partner_integration_reli.Transformation.Execute.{Transformed}
use partner_integration_reli.RoutingService.Plan.{
  Derivations, Origin, scheduled_delivery, failed_delivery,
}

deferred_failed : {s : DeliveryState} → IsDeferred s → ¬ (s ≡ failed_terminal)
deferred_failed scheduled_deferred e = cc
deferred_failed rate_limited_deferred e = cc
deferred_failed retry_deferred e = cc

-- Both deliveries that routing makes, the scheduled one and the failed one, have the terminal
-- instant, the lease and the eligibility that fit their state, and the same identifier.
pub planned-IsSettled :
    (v : Derivations) (o : Origin) (t : Transformed)
    → IsSettled (scheduled_delivery v o t)
      × IsSettled (failed_delivery v o)
      × ((failed_delivery v o).delivery_id ≡ (scheduled_delivery v o t).delivery_id)
unfolding scheduled_delivery failed_delivery is_terminal_delivery_state
planned-IsSettled v o t = (
  record {
    terminal_dated = refl;
    leased = λ e. cc;
    lease_whole = (refl, refl, refl);
    timed = λ d. refl;
  },
  record {
    terminal_dated = refl;
    leased = λ e. cc;
    lease_whole = (refl, refl, refl);
    timed = λ d. absurd (deferred_failed d refl);
  },
  refl,
)
