-- ===== src/Persistence/Finalize.antt =====
-- `finalizeAttempt` of packages/persistence/src/index.ts.
pub mod Laws
pub mod Committed
pub mod Once
pub mod Circuit
pub mod Events
use partner_integration_reli.Prelude.{
  ℕ, ◌+◌, ◌-◌, Bool, true, false, ◌&&◌, ◌==◌, Option, none, some, get_or, option_eq, is_some, not,
  List, [], ◌∷◌, ◌++◌, if◌then◌else◌, Result, ok, err,
}
use partner_integration_reli.Domain.Types.{
  EventOutcomeCounters, DeliveryState, succeeded, failed_terminal, dead_lettered, ExecutionType,
  original, replay, LeaseToken, CircuitRuntimeState, DeliveryExecution, DomainError, seconds,
}
use partner_integration_reli.Domain.Records.{
  CanonicalEvent, DeliveryAttempt, DeliveryHistoryEntry, OutboxRecord,
}
use partner_integration_reli.Domain.Transition.{state_eq, is_terminal_delivery_state}
use partner_integration_reli.Domain.Status.{derive_event_status}
use partner_integration_reli.Store.Condition.{absent, matches, absent_or}
use partner_integration_reli.Store.Keys.{DeliveryKey, TenantKey, AttemptKey}
use partner_integration_reli.Store.Tables.{
  Tables, Write, put_delivery, put_attempt, put_event, put_circuit, epoch_seconds,
}
use partner_integration_reli.Store.Database.{Database}
use partner_integration_reli.Persistence.Common.{
  Fault, domain, storage, get_delivery, get_event, stored, stored_event, reindex, outbox_put,
  history_put, lease_is, settle,
}
use partner_integration_reli.Persistence.Rounds.{Round, Answer, retry_rounds}
use partner_integration_reli.Persistence.Rollups.{
  rollup_updates, outcome_is_started, one_if, is_replay,
}
use partner_integration_reli.Persistence.Attempt.{event_key, stored_attempt, attempt_key}

pub record FinalizeAttempt : Type 0 where
  pub key : DeliveryKey
  pub delivery : DeliveryExecution
  pub expected_version : ℕ
  pub lease_token : LeaseToken
  pub attempt : DeliveryAttempt
  pub history : DeliveryHistoryEntry
  pub outbox : Option OutboxRecord
  pub circuit : Option CircuitRuntimeState

-- The counters with one more terminal delivery.
unfoldable pub count_terminal : DeliveryState → EventOutcomeCounters → EventOutcomeCounters
count_terminal s c = record c {
  terminal_deliveries = c.terminal_deliveries + 1;
  successful_deliveries = c.successful_deliveries + one_if (state_eq s succeeded);
  failed_terminal_deliveries = c.failed_terminal_deliveries + one_if (state_eq s failed_terminal);
  dead_lettered_deliveries = c.dead_lettered_deliveries + one_if (state_eq s dead_lettered);
}

-- An event with new counters and the status they have.
unfoldable pub recount : CanonicalEvent → EventOutcomeCounters → Result DomainError CanonicalEvent
recount e c = elim (derive_event_status c) [
  | err f ↦ err f
  | ok status ↦ ok (record e { outcome = c; status = status; version = e.version + 1 })
]

unfoldable pub updates_original_event : DeliveryExecution → Bool
updates_original_event d = is_terminal_delivery_state d.state && not (is_replay d.execution_type)

unfoldable pub updated_event :
    DeliveryExecution → CanonicalEvent → Result DomainError CanonicalEvent
unfolding updates_original_event recount count_terminal
updated_event d e =
    if updates_original_event d then recount e (count_terminal d.state e.outcome) else ok e

abbrev pub is_finalizable : ℕ → LeaseToken → ℕ → DeliveryExecution → Bool
is_finalizable version token attempt_id d =
    d.version == version
    && (lease_is token d && option_eq (λ a b. a == b) d.active_attempt_id (some attempt_id))

abbrev pub final_delivery : DeliveryExecution → DeliveryExecution
final_delivery d = record (stored d) { active_attempt_id = none }

-- What a request finalises besides the delivery.
unfoldable pub outbox_writes : Option OutboxRecord → List Write
outbox_writes none = []
outbox_writes (some o) = outbox_put o ∷ []

unfoldable pub circuit_writes : TenantKey → Option CircuitRuntimeState → List Write
circuit_writes k none = []
circuit_writes k (some c) = put_circuit (absent_or (λ x. x.version == c.version - 1)) k c ∷ []

unfoldable pub event_writes :
    DeliveryExecution → TenantKey → CanonicalEvent → CanonicalEvent → List Write
event_writes d k before after =
    if updates_original_event d
    then put_event (matches (λ e. e.version == before.version)) k (stored_event after) ∷ []
    else []

-- `input.attempt.completedAt ?? input.delivery.updatedAt`.
abbrev pub finalized_at : FinalizeAttempt → ℕ
finalized_at i = get_or i.attempt.completed_at i.delivery.updated_at

unfoldable pub side_writes :
    (ℕ → List ℕ) → FinalizeAttempt → CanonicalEvent → CanonicalEvent → List Write
unfolding event_writes outbox_writes circuit_writes
side_writes spell i event updated =
    event_writes i.delivery (event_key i.key) event updated
    ++ (outbox_writes i.outbox
        ++ (rollup_updates spell i.key.tenant i.delivery.destination_id i.delivery.delivery_id
              (finalized_at i) i.attempt i.delivery
            ++ circuit_writes (record { tenant = i.key.tenant; id = i.delivery.destination_id })
                i.circuit))

unfoldable pub rest_writes :
    (ℕ → List ℕ)
    → FinalizeAttempt
    → DeliveryExecution
    → CanonicalEvent
    → CanonicalEvent
    → List Write
unfolding side_writes
rest_writes spell i current event updated =
    put_attempt (matches (λ a. outcome_is_started a.outcome)) (attempt_key i.key i.attempt)
      (stored_attempt i.attempt)
    ∷ history_put i.key i.history
    ∷ (reindex current i.delivery ++ side_writes spell i event updated)

unfoldable pub finalize_writes :
    (ℕ → List ℕ)
    → FinalizeAttempt
    → DeliveryExecution
    → CanonicalEvent
    → CanonicalEvent
    → List Write
unfolding rest_writes
finalize_writes spell i current event updated =
    put_delivery (matches (is_finalizable i.expected_version i.lease_token i.attempt.attempt_id))
      i.key (final_delivery i.delivery)
    ∷ rest_writes spell i current event updated

module _ (db : Database) (spell : ℕ → List ℕ) where
  unfoldable pub finalize_round : FinalizeAttempt → Round db → db.Store → db.Store × Answer Bool
  unfolding finalize_writes
  finalize_round i round s = elim (get_delivery round.seen i.key round.clock) [
    | none ↦ (s, ok (some false))
    | some current ↦ elim (get_event round.seen (event_key i.key) round.clock) [
      | none ↦ (s, ok (some false))
      | some event ↦ elim (updated_event i.delivery event) [
        | err e ↦ (s, err (domain e))
        | ok updated ↦
            settle (db.transact s (finalize_writes spell i current event updated)) (some true) none
      ]
    ]
  ]

  unfoldable pub finalize_attempt :
      FinalizeAttempt → (ℕ → Round db) → db.Store → db.Store × Result Fault Bool
  unfolding finalize_round
  finalize_attempt i = retry_rounds db (finalize_round i) (ok false) 8
