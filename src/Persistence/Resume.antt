-- ===== src/Persistence/Resume.antt =====
-- `resumeDestination` of packages/persistence/src/index.ts. The query of the destination's index
-- answers the first hundred entries, oldest first; their deliveries are the list that is given here.
pub mod Laws
use partner_integration_reli.Prelude.{
  ℕ, ◌+◌, Bool, true, false, not, ◌&&◌, ◌==◌, Option, none, some, List, [], ◌∷◌, ◌++◌,
  if◌then◌else◌, Result, ok, err,
}
use partner_integration_reli.Domain.Types.{
  scheduled, FailureCategory, destination_disabled, DeliveryExecution,
}
use partner_integration_reli.Domain.Records.{
  OutboxId, OutboxRecord, resume_delivery, delivery, delivery_queue, Cause,
}
use partner_integration_reli.Domain.Transition.{
  DeliveryTransition, transition_delivery, is_terminal_delivery_state,
}
use partner_integration_reli.Store.Condition.{matches}
use partner_integration_reli.Store.Keys.{DeliveryKey}
use partner_integration_reli.Store.Tables.{Write, put_delivery}
use partner_integration_reli.Store.Database.{Database}
use partner_integration_reli.Persistence.Common.{Fault, domain, stored, reindex, outbox_put, settle}
use partner_integration_reli.Persistence.Rounds.{Round}
use partner_integration_reli.Persistence.Recovery.{locate_delivery}

pub record ResumeDestination : Type 0 where
  pub tenant : ℕ
  pub destination : ℕ
  pub now : ℕ

abbrev blocked_by_destination : Option FailureCategory → Bool
blocked_by_destination (some destination_disabled) = true
blocked_by_destination _ = false

unfoldable pub is_resumable : ResumeDestination → DeliveryExecution → Bool
is_resumable i d =
    d.destination_id == i.destination
    && (blocked_by_destination d.blocked_reason && not (is_terminal_delivery_state d.state))

unfoldable pub resume_transition : ResumeDestination → DeliveryExecution → DeliveryTransition
resume_transition i d = record {
  to_state = scheduled;
  at = i.now;
  expected_version = d.version;
  lease_token = none;
  next_eligible_at = some i.now;
  blocked_reason = none;
  lease = none;
}

pub resume_outbox : ResumeDestination → DeliveryExecution → OutboxRecord
resume_outbox i d = record {
  outbox_id = OutboxId.resume d.delivery_id d.version;
  kind = resume_delivery;
  tenant_id = d.tenant_id;
  aggregate_type = delivery;
  aggregate_id = d.delivery_id;
  target = delivery_queue;
  payload = record {
    event_id = some d.event_id;
    delivery_id = some d.delivery_id;
    destination_id = none;
    correlation_id = d.correlation_id;
    not_before = some i.now;
    cause = some Cause.resume;
  };
  created_at = i.now;
  attempts = 0;
  published_at = none;
  traceparent = none;
}

abbrev pub own_key : DeliveryExecution → DeliveryKey
own_key d = record { tenant = d.tenant_id; event = d.event_id; delivery = d.delivery_id }

unfoldable pub resume_writes :
    ResumeDestination → DeliveryExecution → DeliveryExecution → List Write
unfolding resume_outbox
resume_writes i current next =
    put_delivery (matches (λ d. d.version == current.version)) (own_key current) (stored next)
    ∷ (reindex current next ++ outbox_put (resume_outbox i current) ∷ [])

-- One delivery of the list: how many it adds to the count.
unfoldable pub resume_one :
    (db : Database) → ResumeDestination → Round db → ℕ → db.Store → db.Store × Result Fault ℕ
unfolding is_resumable resume_transition resume_writes
resume_one db i round id s = elim (locate_delivery round.seen i.tenant id round.clock) [
  | none ↦ (s, ok 0)
  | some current ↦
      if not (is_resumable i current)
      then (s, ok 0)
      else elim (transition_delivery current (resume_transition i current)) [
        | err e ↦ (s, err (domain e))
        | ok next ↦ settle (db.transact s (resume_writes i current next)) 1 0
      ]
]

-- The loop over the list, each delivery with reads of its own; `resumed` is the count so far.
unfoldable pub resume_destination :
    (db : Database)
    → ResumeDestination
    → List (ℕ × Round db)
    → ℕ
    → db.Store
    → db.Store × Result Fault ℕ
unfolding resume_one
resume_destination db i [] resumed s = (s, ok resumed)
resume_destination db i ((id, round) ∷ rest) resumed s =
    let (s', r) = resume_one db i round id (round.interfere s) in
    elim r [ err e ↦ (s', err e) | ok n ↦ resume_destination db i rest (resumed + n) s' ]
