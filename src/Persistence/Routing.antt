-- ===== src/Persistence/Routing.antt =====
-- `createDelivery` and `completeRouting` of packages/persistence/src/index.ts.
pub mod Committed
pub mod Laws
pub mod Answers
pub mod Completion
pub mod Lookups
use partner_integration_reli.Prelude.{
  ℕ, ◌+◌, Bool, true, false, not, ◌&&◌, ◌==◌, Option, none, some, is_some, List, [], ◌∷◌, ◌++◌,
  if◌then◌else◌, Result, ok, err,
}
use partner_integration_reli.Domain.Types.{
  EventOutcomeCounters, DeliveryState, succeeded, failed_terminal, dead_lettered, original,
  DeliveryExecution,
}
use partner_integration_reli.Domain.Records.{CanonicalEvent, DeliveryHistoryEntry, OutboxRecord}
use partner_integration_reli.Domain.Transition.{state_eq, is_terminal_delivery_state}
use partner_integration_reli.Store.Condition.{absent, matches}
use partner_integration_reli.Store.Keys.{
  DeliveryKey, TenantKey, status_eq, EventIndexKey, by_shard, by_target,
}
use partner_integration_reli.Store.Tables.{
  Tables, Write, put_delivery, put_lookup, put_history, put_event, put_event_index,
  delete_event_index, add_to_rollup, EventIndexEntry, Rollup, epoch_seconds,
}
use partner_integration_reli.Store.Database.{Database}
use partner_integration_reli.Persistence.Common.{
  Fault, domain, event_not_found, routing_conflict, routing_completion_conflict, get_event, stored,
  stored_event, new_index, settle,
}
use partner_integration_reli.Persistence.Rounds.{Round, Answer, retry_rounds}
use partner_integration_reli.Persistence.Rollups.{one_if, is_replay, hour_of, stable_shard}
use partner_integration_reli.Persistence.Finalize.{recount, outbox_writes, updates_original_event}

event_index_key : ℕ → CanonicalEvent → EventIndexKey
event_index_key tenant e = record {
  tenant = tenant;
  status = e.status;
  accepted_at = e.accepted_at;
  event = e.event_id;
}

event_index_entry : CanonicalEvent → EventIndexEntry
event_index_entry e = record {
  event_id = e.event_id;
  status = e.status;
  accepted_at = e.accepted_at;
  expires_at = epoch_seconds e.expires_at;
}

-- The entry of the index by status moves with the status.
unfoldable pub status_writes : ℕ → CanonicalEvent → CanonicalEvent → List Write
unfolding event_index_key event_index_entry
status_writes tenant before after =
    if status_eq before.status after.status
    then []
    else delete_event_index (event_index_key tenant before)
      ∷ put_event_index (event_index_key tenant after) (event_index_entry after)
      ∷ []

-- The put of an event in place of the version that was read.
abbrev pub event_put : TenantKey → CanonicalEvent → CanonicalEvent → Write
event_put k before after =
    put_event (matches (λ e. e.version == before.version)) k (stored_event after)

pub record CreateDelivery : Type 0 where
  pub tenant : ℕ
  pub delivery : DeliveryExecution
  pub history : DeliveryHistoryEntry
  pub outbox : Option OutboxRecord

-- The counters with one more delivery.
unfoldable pub count_created : DeliveryState → EventOutcomeCounters → EventOutcomeCounters
count_created s c = record c {
  total_deliveries = c.total_deliveries + 1;
  terminal_deliveries = c.terminal_deliveries + one_if (is_terminal_delivery_state s);
  successful_deliveries = c.successful_deliveries + one_if (state_eq s succeeded);
  failed_terminal_deliveries = c.failed_terminal_deliveries + one_if (state_eq s failed_terminal);
  dead_lettered_deliveries = c.dead_lettered_deliveries + one_if (state_eq s dead_lettered);
}

abbrev no_counts : Rollup
no_counts = record {
  delivery_attempts = 0;
  delivery_successes = 0;
  delivery_failures = 0;
  retries_scheduled = 0;
  dead_letters = 0;
  replay_successes = 0;
  replay_failures = 0;
  latency_total_ms = 0;
  latency_count = 0;
  buckets = λ l. 0;
}

-- A delivery that is created terminal counts in the rollups at once.
unfoldable pub created_rollups : (ℕ → List ℕ) → CreateDelivery → List Write
created_rollups spell i =
    let d = i.delivery in
    let values = record no_counts {
      delivery_failures = one_if (state_eq d.state failed_terminal);
      dead_letters = one_if (state_eq d.state dead_lettered);
    } in
    if updates_original_event d
    then add_to_rollup
        (by_shard i.tenant (hour_of d.updated_at) (stable_shard (spell d.delivery_id) 8)) values
      ∷ add_to_rollup (by_target i.tenant (hour_of d.updated_at) d.destination_id) values
      ∷ []
    else []

abbrev pub created_key : CreateDelivery → DeliveryKey
created_key i = record {
  tenant = i.tenant;
  event = i.delivery.event_id;
  delivery = i.delivery.delivery_id;
}

-- The writes beside the delivery, its lookup and its event.
unfoldable pub created_side :
    (ℕ → List ℕ) → CreateDelivery → CanonicalEvent → CanonicalEvent → List Write
unfolding status_writes created_rollups
created_side spell i before after =
    status_writes i.tenant before after ++ (outbox_writes i.outbox ++ created_rollups spell i)

unfoldable pub create_writes :
    (ℕ → List ℕ) → CreateDelivery → CanonicalEvent → CanonicalEvent → List Write
unfolding created_side
create_writes spell i before after =
    put_delivery absent (created_key i) (stored i.delivery)
    ∷ put_lookup absent (record { tenant = i.tenant; id = i.delivery.delivery_id })
        i.delivery.event_id
    ∷ put_history absent
        (record {
          delivery = record (created_key i) { delivery = i.history.delivery_id };
          occurred_at = i.history.occurred_at;
          history_id = i.history.history_id;
        })
        i.history
    ∷ (new_index i.delivery
        ++ (event_put (record { tenant = i.tenant; id = after.event_id }) before after
            ∷ created_side spell i before after))

pub data Creation : Type 0 where
  created duplicate : Creation

unfoldable pub create_round :
    (db : Database)
    → (ℕ → List ℕ)
    → CreateDelivery
    → Round db
    → db.Store
    → db.Store × Answer Creation
unfolding create_writes
create_round db spell i round s =
    if is_some (round.seen.lookups (record { tenant = i.tenant; id = i.delivery.delivery_id }))
    then (s, ok (some duplicate))
    else elim (get_event round.seen (record { tenant = i.tenant; id = i.delivery.event_id })
        round.clock) [
          | none ↦ (s, err event_not_found)
          | some event ↦ elim (recount event (count_created i.delivery.state event.outcome)) [
            | err e ↦ (s, err (domain e))
            | ok updated ↦
                settle (db.transact s (create_writes spell i event updated)) (some created) none
          ]
        ]

unfoldable pub create_delivery :
    (db : Database)
    → (ℕ → List ℕ)
    → CreateDelivery
    → (ℕ → Round db)
    → db.Store
    → db.Store × Result Fault Creation
unfolding create_round
create_delivery db spell i = retry_rounds db (create_round db spell i) (err routing_conflict) 8

unfoldable pub completion_writes : TenantKey → CanonicalEvent → CanonicalEvent → List Write
unfolding status_writes
completion_writes k event updated =
    event_put (record k { id = event.event_id }) event updated
    ∷ status_writes k.tenant event updated

unfoldable pub complete_round :
    (db : Database) → TenantKey → Round db → db.Store → db.Store × Answer Unit
unfolding completion_writes
complete_round db k round s = elim (get_event round.seen k round.clock) [
  | none ↦ (s, ok (some tt))
  | some event ↦
      if event.outcome.routing_complete
      then (s, ok (some tt))
      else elim (recount event (record event.outcome { routing_complete = true })) [
        | err e ↦ (s, err (domain e))
        | ok updated ↦ settle (db.transact s (completion_writes k event updated)) (some tt) none
      ]
]

unfoldable pub complete_routing :
    (db : Database) → TenantKey → (ℕ → Round db) → db.Store → db.Store × Result {0, 0} Fault Unit
unfolding complete_round
complete_routing db k = retry_rounds db (complete_round db k) (err routing_completion_conflict) 8
