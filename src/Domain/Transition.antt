-- ===== src/Domain/Transition.antt =====
-- The life cycle of a delivery: `transitionDelivery` of packages/domain/src/index.ts and the table
-- of transitions that it consults.
pub mod Graph
pub mod Outcome
pub mod Runs
use partner_integration_reli.Prelude.{
  ℕ, ◌+◌, Bool, true, false, not, ◌&&◌, ◌||◌, Option, none, some, List, [], ◌∷◌, ◌==◌, is_some,
  option_eq, if◌then◌else◌, Result, ok, err,
}
use partner_integration_reli.Domain.Types.{
  DeliveryState, pending, scheduled, rate_limited, in_progress, retry_scheduled, succeeded,
  failed_terminal, dead_lettered, cancelled, FailureCategory, LeaseToken, token_eq,
  DeliveryExecution, DomainError, version_mismatch, lease_required, lease_token_mismatch,
  next_eligible_required, forbidden_transition,
}

abbrev state_index : DeliveryState → ℕ
state_index pending = 0
state_index scheduled = 1
state_index rate_limited = 2
state_index in_progress = 3
state_index retry_scheduled = 4
state_index succeeded = 5
state_index failed_terminal = 6
state_index dead_lettered = 7
state_index cancelled = 8

-- `===` on states.
abbrev pub state_eq : DeliveryState → DeliveryState → Bool
state_eq a b = state_index a == state_index b

abbrev pub includes : List DeliveryState → DeliveryState → Bool
includes [] s = false
includes (x ∷ xs) s = state_eq x s || includes xs s

abbrev terminal_delivery_states : List DeliveryState
terminal_delivery_states = succeeded ∷ failed_terminal ∷ dead_lettered ∷ cancelled ∷ []

unfoldable pub is_terminal_delivery_state : DeliveryState → Bool
is_terminal_delivery_state s = includes terminal_delivery_states s

pub record Lease : Type 0 where
  pub owner : ℕ
  pub token : LeaseToken
  pub expires_at : ℕ

pub record DeliveryTransition : Type 0 where
  pub to_state : DeliveryState
  pub at : ℕ
  pub expected_version : ℕ
  pub lease_token : Option LeaseToken
  pub next_eligible_at : Option ℕ
  pub blocked_reason : Option FailureCategory
  pub lease : Option Lease

unfoldable pub permitted_transitions : DeliveryState → List DeliveryState
permitted_transitions pending = scheduled ∷ []
permitted_transitions scheduled = scheduled ∷ in_progress ∷ rate_limited ∷ []
permitted_transitions rate_limited = scheduled ∷ []
permitted_transitions in_progress =
    scheduled ∷ rate_limited ∷ succeeded ∷ retry_scheduled ∷ failed_terminal ∷ dead_lettered ∷ []
permitted_transitions retry_scheduled = scheduled ∷ in_progress ∷ []
permitted_transitions succeeded = []
permitted_transitions failed_terminal = []
permitted_transitions dead_lettered = []
permitted_transitions cancelled = []

abbrev or_else {ℓ} : {A : Type ℓ} → Option A → Option A → Option A
or_else none b = b
or_else (some a) b = some a

abbrev lease_field {ℓ} : {A : Type ℓ} → (Lease → A) → Option Lease → Option A
lease_field f none = none
lease_field f (some l) = some (f l)

-- The returned object: the optional fields are deleted, and set again from the transition.
unfoldable pub moved : DeliveryExecution → DeliveryTransition → DeliveryExecution
unfolding is_terminal_delivery_state
moved d t = record d {
  state = t.to_state;
  updated_at = t.at;
  version = d.version + 1;
  blocked_reason = t.blocked_reason;
  last_failure_category = or_else t.blocked_reason d.last_failure_category;
  next_eligible_at = t.next_eligible_at;
  terminal_at = if is_terminal_delivery_state t.to_state then some t.at else none;
  lease_owner = lease_field (λ l. l.owner) t.lease;
  lease_token = lease_field (λ l. l.token) t.lease;
  lease_acquired_at = lease_field (λ l. t.at) t.lease;
  lease_expires_at = lease_field (λ l. l.expires_at) t.lease;
}

unfoldable pub transition_delivery :
    DeliveryExecution → DeliveryTransition → Result DomainError DeliveryExecution
transition_delivery d t =
    if not (d.version == t.expected_version)
    then err version_mismatch
    else if not (includes (permitted_transitions d.state) t.to_state)
    then err (forbidden_transition d.state t.to_state)
    else if state_eq t.to_state in_progress && not (is_some t.lease)
    then err lease_required
    else if state_eq d.state in_progress && not (option_eq token_eq d.lease_token t.lease_token)
    then err lease_token_mismatch
    else if includes (scheduled ∷ retry_scheduled ∷ rate_limited ∷ []) t.to_state
        && not (is_some t.next_eligible_at)
    then err next_eligible_required
    else ok (moved d t)
