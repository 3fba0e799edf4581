-- ===== src/Domain/Transition/Outcome.antt =====
-- When `transitionDelivery` succeeds, and what it returns.
use partner_integration_reli.Prelude.{
  ◌+◌, ◌≡◌, refl, ◌↔◌, true, Option, is_some, option_eq, ok, [], ◌∷◌, arith,
}
use partner_integration_reli.Domain.Types.{
  DeliveryState, scheduled, rate_limited, in_progress, retry_scheduled, LeaseToken, token_eq,
  DeliveryExecution,
}
use partner_integration_reli.Domain.Transition.{
  DeliveryTransition, permitted_transitions, includes, transition_delivery, moved, state_eq,
  is_terminal_delivery_state,
}
use partner_integration_reli.Domain.Transition.Graph.{
  ◌⟶◌, permitted-⟶, ⟶-permitted, IsDeferred, scheduled_deferred, rate_limited_deferred,
  retry_deferred,
}

pub token_eq_iff : (a b : Option LeaseToken) → (option_eq token_eq a b ≡ true) ↔ (a ≡ b)
token_eq_iff a b = ground arith

-- The conditions on a transition, as the life cycle states them.
pub record Allowed (d : DeliveryExecution) (t : DeliveryTransition) : Type 0 where
  pub current : d.version ≡ t.expected_version
  pub edge : d.state ⟶ t.to_state
  pub leased : t.to_state ≡ in_progress → is_some t.lease ≡ true
  pub owned : d.state ≡ in_progress → d.lease_token ≡ t.lease_token
  pub timed : IsDeferred t.to_state → is_some t.next_eligible_at ≡ true

state_eq_iff : (a b : DeliveryState) → (state_eq a b ≡ true) ↔ (a ≡ b)
state_eq_iff a b = ground arith

IsDeferred-includes :
    {s : DeliveryState}
    → IsDeferred s
    → includes (scheduled ∷ retry_scheduled ∷ rate_limited ∷ []) s ≡ true
IsDeferred-includes scheduled_deferred = refl
IsDeferred-includes rate_limited_deferred = refl
IsDeferred-includes retry_deferred = refl

includes-IsDeferred :
    (s : DeliveryState)
    → includes (scheduled ∷ retry_scheduled ∷ rate_limited ∷ []) s ≡ true
    → IsDeferred s
includes-IsDeferred s h = grind (arith, scheduled_deferred, rate_limited_deferred, retry_deferred)

module _ (d : DeliveryExecution) (t : DeliveryTransition) {d' : DeliveryExecution} where
  guards :
      transition_delivery d t ≡ ok d'
      → (d.version ≡ t.expected_version)
        × (includes (permitted_transitions d.state) t.to_state ≡ true)
        × (state_eq t.to_state in_progress ≡ true → is_some t.lease ≡ true)
        × (state_eq d.state in_progress ≡ true
            → option_eq token_eq d.lease_token t.lease_token ≡ true)
        × (includes (scheduled ∷ retry_scheduled ∷ rate_limited ∷ []) t.to_state ≡ true
            → is_some t.next_eligible_at ≡ true)
        × (d' ≡ moved d t)
  unfolding transition_delivery
  guards h = ground arith

-- What the returned record holds, whatever it was made from.
pub record IsSettled (d : DeliveryExecution) : Type 0 where
  pub terminal_dated : is_some d.terminal_at ≡ is_terminal_delivery_state d.state
  pub leased : d.state ≡ in_progress → is_some d.lease_token ≡ true
  pub lease_whole :
      (is_some d.lease_owner ≡ is_some d.lease_token)
      × (is_some d.lease_acquired_at ≡ is_some d.lease_token)
      × (is_some d.lease_expires_at ≡ is_some d.lease_token)
  pub timed : IsDeferred d.state → is_some d.next_eligible_at ≡ true

-- The fields that no transition touches.
pub record SameExecution (d d' : DeliveryExecution) : Type 0 where
  pub delivery_id : d'.delivery_id ≡ d.delivery_id
  pub event_id : d'.event_id ≡ d.event_id
  pub tenant_id : d'.tenant_id ≡ d.tenant_id
  pub destination_id : d'.destination_id ≡ d.destination_id
  pub execution_type : d'.execution_type ≡ d.execution_type
  pub attempt_count : d'.attempt_count ≡ d.attempt_count
  pub max_attempts : d'.max_attempts ≡ d.max_attempts
  pub active_attempt_id : d'.active_attempt_id ≡ d.active_attempt_id
  pub config_snapshot : d'.config_snapshot ≡ d.config_snapshot
  pub transformed_payload : d'.transformed_payload ≡ d.transformed_payload
  pub partner_idempotency_key : d'.partner_idempotency_key ≡ d.partner_idempotency_key

module _ (d : DeliveryExecution) (t : DeliveryTransition) where
  pub Allowed-transition : Allowed d t → transition_delivery d t ≡ ok (moved d t)
  unfolding transition_delivery
  Allowed-transition a = ground (
    arith,
    ⟶-permitted a.edge,
    a.leased,
    a.owned,
    λ (h : includes (scheduled ∷ retry_scheduled ∷ rate_limited ∷ []) t.to_state ≡ true).
        a.timed (includes-IsDeferred t.to_state h),
    state_eq_iff t.to_state in_progress,
    state_eq_iff d.state in_progress,
    token_eq_iff d.lease_token t.lease_token,
  )

module _ (d : DeliveryExecution) (t : DeliveryTransition) {d' : DeliveryExecution} where
  pub transition-Allowed : transition_delivery d t ≡ ok d' → Allowed d t
  transition-Allowed h =
      let g = guards d t h in
      record {
        current = g.0;
        edge = permitted-⟶ d.state t.to_state g.1;
        leased = λ e. g.2 ((state_eq_iff t.to_state in_progress).1 e);
        owned = λ e. (token_eq_iff _ _).0 (g.3 ((state_eq_iff d.state in_progress).1 e));
        timed = λ i. g.4 (IsDeferred-includes i);
      }

  pub transition-moved : transition_delivery d t ≡ ok d' → d' ≡ moved d t
  transition-moved h = (guards d t h).5

-- A transition succeeds exactly when the life cycle allows it.
pub transition-ok_iff :
    (d : DeliveryExecution) (t : DeliveryTransition)
    → ((d' : DeliveryExecution) × (transition_delivery d t ≡ ok d')) ↔ Allowed d t
transition-ok_iff d t =
    (λ r. transition-Allowed d t r.1, λ a. (moved d t, Allowed-transition d t a))

module _ (d : DeliveryExecution) (t : DeliveryTransition) where
  moved-IsSettled : Allowed d t → IsSettled (moved d t)
  unfolding moved
  moved-IsSettled a = record {
    terminal_dated = ground arith;
    leased = λ e. ground (arith, a.leased e);
    lease_whole = ground arith;
    timed = a.timed;
  }

  moved-SameExecution : SameExecution d (moved d t)
  unfolding moved
  moved-SameExecution = ground arith

  pub moved_next : ((moved d t).state ≡ t.to_state) × ((moved d t).version ≡ d.version + 1)
  unfolding moved
  moved_next = (refl, refl)

-- A successful transition returns a record whose terminal instant, lease and eligibility fit its
-- new state, at the next version, and leaves the execution's identity, attempts and payload alone.
pub transition-IsSettled :
    (d : DeliveryExecution) (t : DeliveryTransition) {d' : DeliveryExecution}
    → transition_delivery d t ≡ ok d'
    → IsSettled d' × (d'.state ≡ t.to_state) × (d'.version ≡ d.version + 1) × SameExecution d d'
transition-IsSettled d t h =
    let a = transition-Allowed d t h in
    rw (transition-moved d t h)
      (moved-IsSettled d t a, (moved_next d t).0, (moved_next d t).1, moved-SameExecution d t)
