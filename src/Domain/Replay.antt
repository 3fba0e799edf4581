-- ===== src/Domain/Replay.antt =====
-- `replayEligibility` of packages/domain/src/index.ts.
use partner_integration_reli.Prelude.{
  ◌≡◌, ◌↔◌, Bool, true, false, ◌&&◌, Option, none, some, if◌then◌else◌, arith,
}
use partner_integration_reli.Domain.Types.{
  DeliveryState, failed_terminal, dead_lettered, FailureCategory, transformation_error,
  invalid_destination, secret_not_found, oauth_token_error, partner_4xx, response_too_large,
  response_contract_error,
}
use partner_integration_reli.Domain.Transition.{state_eq}

replayable_terminal_categories : FailureCategory → Bool
replayable_terminal_categories transformation_error = true
replayable_terminal_categories invalid_destination = true
replayable_terminal_categories secret_not_found = true
replayable_terminal_categories oauth_token_error = true
replayable_terminal_categories partner_4xx = true
replayable_terminal_categories response_too_large = true
replayable_terminal_categories response_contract_error = true
replayable_terminal_categories _ = false

pub record ReplayEligibility : Type 0 where
  pub eligible : Bool
  pub requires_correction : Bool

-- `category !== undefined && replayableTerminalCategories.has(category)`.
has_replayable_category : Option FailureCategory → Bool
has_replayable_category none = false
has_replayable_category (some c) = replayable_terminal_categories c

unfoldable pub replay_eligibility :
    DeliveryState → Option FailureCategory → Bool → ReplayEligibility
unfolding replayable_terminal_categories has_replayable_category
replay_eligibility state category correction_confirmed =
    if state_eq state dead_lettered
    then record { eligible = true; requires_correction = false }
    else if state_eq state failed_terminal && has_replayable_category category
    then record { eligible = correction_confirmed; requires_correction = true }
    else record { eligible = false; requires_correction = false }

-- The failures that a change on either side can mend.
pub data IsMendable : FailureCategory → Type 0 where
  mapping : IsMendable transformation_error
  destination : IsMendable invalid_destination
  secret : IsMendable secret_not_found
  token : IsMendable oauth_token_error
  refused : IsMendable partner_4xx
  oversized : IsMendable response_too_large
  malformed : IsMendable response_contract_error

pub ruleset mendable = (mapping, destination, secret, token, refused, oversized, malformed)

-- Who may be replayed: what retries gave up on, and, with the correction confirmed, what failed for
-- a reason that can be mended.
pub data MayReplay (confirmed : Bool) : DeliveryState → Option FailureCategory → Type 0 where
  exhausted : {c : Option FailureCategory} → MayReplay confirmed dead_lettered c
  corrected :
      {c : FailureCategory}
      → IsMendable c
      → confirmed ≡ true
      → MayReplay confirmed failed_terminal (some c)

eligible-MayReplay :
    (s : DeliveryState) (c : Option FailureCategory) (confirmed : Bool)
    → (replay_eligibility s c confirmed).eligible ≡ true
    → MayReplay confirmed s c
unfolding replay_eligibility
eligible-MayReplay s c confirmed h = grind (arith, exhausted, corrected, mendable)

MayReplay-eligible :
    {s : DeliveryState} {c : Option FailureCategory} {confirmed : Bool}
    → MayReplay confirmed s c
    → (replay_eligibility s c confirmed).eligible ≡ true
unfolding replay_eligibility
MayReplay-eligible exhausted = ground arith
MayReplay-eligible (corrected mapping e) = ground arith
MayReplay-eligible (corrected _ e) = ground arith

-- A delivery is eligible for a replay exactly when the policy says so.
eligible_iff :
    (s : DeliveryState) (c : Option FailureCategory) (confirmed : Bool)
    → ((replay_eligibility s c confirmed).eligible ≡ true) ↔ MayReplay confirmed s c
eligible_iff s c confirmed = (eligible-MayReplay s c confirmed, MayReplay-eligible)
