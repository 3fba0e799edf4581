-- ===== src/Domain/Classify/Laws.antt =====
-- What a classification promises to the delivery service and to the circuit breaker.
use Prim.Native.String.{String}
use text.Mathlib.Text.{◌==◌ as str_eq}
use partner_integration_reli.Prelude.{
  ℕ, ◌≤◌, ◌<◌, ◌≡◌, refl, ◌↔◌, ◌⊎◌, true, false, not, Option, none, some, get_or, is_some, List, [],
  ◌∷◌, All, arith, Bool-cases, inl, inr,
}
use partner_integration_reli.Text.{lookup}
use partner_integration_reli.Domain.Classify.{
  DeliveryResultClassification, classify_status, classify_error, classify_delivery_result,
  classified,
}

-- A success carries no failure, a failure carries a category, and only what is retried counts
-- toward the circuit.
pub record IsLawful (c : DeliveryResultClassification) : Type 0 where
  pub named : is_some c.failure_category ≡ not c.success
  pub final : c.success ≡ true → c.retryable ≡ false
  pub counted : c.counts_toward_circuit ≡ true → c.retryable ≡ true

classify_status-IsLawful : (s : ℕ) → IsLawful (classify_status s)
unfolding classify_status
classify_status-IsLawful s = ground arith

lookup-All {ℓ κ} :
    {A : Type ℓ} (P : A → Type κ) (k : String) (rows : List (String × A)) (d : A)
    → All (λ row. P row.1) rows
    → P d
    → P (get_or (lookup k rows) d)
unfolding lookup
lookup-All P k [] d h p = p
lookup-All P k ((j, v) ∷ rows) d h p = elim (Bool-cases (str_eq j k)) [
  | inl e ↦ rw e (h.0)
  | inr e ↦ rw e (lookup-All P k rows d h.1 p)
]

classify_error-IsLawful : (code : String) → IsLawful (classify_error code)
unfolding classify_error
classify_error-IsLawful code = lookup-All IsLawful code classified _ (ground arith) (ground arith)

pub classify_error-fails : (code : String) → (classify_error code).success ≡ false
unfolding classify_error
classify_error-fails code =
    lookup-All (λ c. c.success ≡ false) code classified _ (ground arith) refl

-- Every classification is lawful, whatever the partner answered or the transport threw.
pub classify-IsLawful :
    (status : Option ℕ) (code : Option String) → IsLawful (classify_delivery_result status code)
unfolding classify_delivery_result
classify-IsLawful (some s) code = classify_status-IsLawful s
classify-IsLawful none code = classify_error-IsLawful (get_or code "UNKNOWN")

-- A status is a success exactly from 200 to 299, is retried exactly on the seven listed statuses,
-- and counts toward the circuit exactly on 500, 502, 503 and 504.
pub classify_status_iff :
    (s : ℕ) (code : Option String)
    → let c = classify_delivery_result (some s) code in
      ((c.success ≡ true) ↔ (200 ≤ s) × (s < 300))
      × ((c.retryable ≡ true)
          ↔ ((s ≡ 408) ⊎ (s ≡ 425) ⊎ (s ≡ 429) ⊎ (s ≡ 500) ⊎ (s ≡ 502) ⊎ (s ≡ 503) ⊎ (s ≡ 504)))
      × ((c.counts_toward_circuit ≡ true) ↔ ((s ≡ 500) ⊎ (s ≡ 502) ⊎ (s ≡ 503) ⊎ (s ≡ 504)))
unfolding classify_delivery_result
classify_status_iff s code = ground arith
