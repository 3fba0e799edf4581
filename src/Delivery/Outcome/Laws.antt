-- ===== src/Delivery/Outcome/Laws.antt =====
-- What the outcome of an attempt can be: the life cycle never refuses it, and the next state.
use Prim.Native.String.{String}
use partner_integration_reli.Prelude.{
  ◌≡◌, ◌≤◌, ◌<◌, ◌↔◌, true, false, none, some, Result, ok, err, arith,
}
use partner_integration_reli.Domain.Types.{
  in_progress, succeeded, failed_terminal, dead_lettered, retry_scheduled, LeaseToken,
  DeliveryExecution,
}
use partner_integration_reli.Domain.Transition.{transition_delivery, permitted_transitions, moved}
use partner_integration_reli.Domain.Classify.{
  DeliveryResultClassification, classify_delivery_result,
}
use partner_integration_reli.Domain.Classify.Laws.{
  IsLawful, classify-IsLawful, classify_status_iff, classify_error-fails,
}
use partner_integration_reli.Delivery.Request.{PartnerResponse}
use partner_integration_reli.Delivery.Failure.{error_code}
use partner_integration_reli.Delivery.Outcome.{
  Readers, Completion, classify_answer, is_spent, next_state, next_eligible, completion_transition,
}

-- Whatever the answer was, an attempt under a lease can be completed: the life cycle lets the
-- delivery go to the state that its outcome asks for.
pub completion_total :
    (readers : Readers) (i : Completion) (token : LeaseToken)
    → i.started.state ≡ in_progress
    → i.started.lease_token ≡ some token
    → let t = completion_transition readers i (classify_answer i.answer) in
      transition_delivery i.started t ≡ ok (moved i.started t)
unfolding transition_delivery permitted_transitions completion_transition next_state next_eligible
completion_total readers i token busy held = ground arith

-- An answer whose status is a success.
pub data IsSuccess : Result String PartnerResponse → Type 0 where
  answered :
      {response : PartnerResponse}
      → 200 ≤ response.status
      → response.status < 300
      → IsSuccess (ok response)

answer-IsLawful : (a : Result String PartnerResponse) → IsLawful (classify_answer a)
unfolding classify_answer
answer-IsLawful (ok response) = classify-IsLawful (some response.status) none
answer-IsLawful (err message) = classify-IsLawful none (some (error_code message))

fails : (message : String) → ¬ ((classify_answer (err message)).success ≡ true)
unfolding classify_answer classify_delivery_result
fails message h = let f = classify_error-fails (error_code message) in cc

success_answered :
    (a : Result String PartnerResponse) → (classify_answer a).success ≡ true → IsSuccess a
unfolding classify_answer
success_answered (ok response) h =
    let p = (classify_status_iff response.status none).0.0 h in answered p.0 p.1
success_answered (err message) h = absurd (fails message h)

IsSuccess-success :
    (a : Result String PartnerResponse) → IsSuccess a → (classify_answer a).success ≡ true
unfolding classify_answer
IsSuccess-success _ (answered {response} p q) =
    (classify_status_iff response.status none).0.1 (p, q)

next_state_cases :
    (d : DeliveryExecution) (c : DeliveryResultClassification)
    → IsLawful c
    → ((next_state d c ≡ succeeded) ↔ (c.success ≡ true))
      × ((next_state d c ≡ retry_scheduled)
          ↔ (c.retryable ≡ true) × (d.attempt_count < d.max_attempts))
      × ((next_state d c ≡ dead_lettered)
          ↔ (c.retryable ≡ true) × (d.max_attempts ≤ d.attempt_count))
      × ((next_state d c ≡ failed_terminal) ↔ (c.success ≡ false) × (c.retryable ≡ false))
unfolding next_state is_spent
next_state_cases d c lawful = ground (arith, lawful.final)

-- The next state: a success exactly if the partner answered from 200 to 299, a retry exactly if the
-- failure is retried and attempts are left, the dead letters exactly if it is retried and none is
-- left, and a terminal failure otherwise.
pub next_state_iff :
    (d : DeliveryExecution) (a : Result String PartnerResponse)
    → let c = classify_answer a in
      let s = next_state d c in
      ((s ≡ succeeded) ↔ IsSuccess a)
      × ((s ≡ retry_scheduled) ↔ (c.retryable ≡ true) × (d.attempt_count < d.max_attempts))
      × ((s ≡ dead_lettered) ↔ (c.retryable ≡ true) × (d.max_attempts ≤ d.attempt_count))
      × ((s ≡ failed_terminal) ↔ (c.success ≡ false) × (c.retryable ≡ false))
next_state_iff d a =
    let (won, retried, dead, terminal) =
      next_state_cases d (classify_answer a) (answer-IsLawful a) in
    (
      (λ e. success_answered a (won.0 e), λ e. won.1 (IsSuccess-success a e)),
      retried,
      dead,
      terminal,
    )
