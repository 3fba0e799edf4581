-- ===== src/Tests/Routing.antt =====
-- Routing, recovery, and an interleaving of workers over the database in memory.
use partner_integration_reli.Prelude.{
  ℕ, ◌≡◌, ◌≤◌, ◌<◌, ◌↔◌, is_some, true, refl, subst, [], ◌∷◌, Bool-cases, none, some, ok,
  if◌then◌else◌, inl, inr,
}
use partner_integration_reli.Domain.Types.{
  dead_lettered, retry_scheduled, destination_disabled, scheduled, in_progress, issued,
  DeliveryExecution,
}
use partner_integration_reli.Domain.Records.{AttemptOutcome}
use partner_integration_reli.Domain.Transition.{
  permitted_transitions, is_terminal_delivery_state, transition_delivery, moved,
}
use partner_integration_reli.Domain.Status.{derive_event_status}
use partner_integration_reli.Store.Keys.{TenantKey, tenant_key_eq}
use partner_integration_reli.Store.Tables.{
  Tables, allow, allows, commit, write, epoch_seconds, is_expired,
}
use partner_integration_reli.Store.Database.{memory, memory_transact}
use partner_integration_reli.Store.Commit.{Evolves, Evolves-refl}
use partner_integration_reli.Persistence.Common.{
  get_delivery, reindex, get_event, new_index, outbox_put,
}
use partner_integration_reli.Persistence.Rounds.{Round, Forward, retry_rounds}
use partner_integration_reli.Persistence.Finalize.{recount, outbox_writes, updates_original_event}
use partner_integration_reli.Persistence.Routing.{
  CreateDelivery, count_created, created_rollups, created_side, status_writes, create_writes,
  created, create_round, create_delivery,
}
use partner_integration_reli.Persistence.Routing.Committed.{lookup_key}
use partner_integration_reli.Persistence.Routing.Laws.{Created}
use partner_integration_reli.Persistence.Routing.Answers.{create-Created, create_once}
use partner_integration_reli.Persistence.Recovery.{
  locate_delivery, RecoverExpired, timed_out, released, recovered_attempt, is_abandoned,
}
use partner_integration_reli.Persistence.Recovery.Total.{recovery_total}
use partner_integration_reli.Persistence.Lease.{acquire_lease}
use partner_integration_reli.Persistence.Resume.{
  ResumeDestination, is_resumable, resume_transition, resume_writes, resume_one, resume_destination,
}
use partner_integration_reli.Persistence.Steps.{leases, creates, Steps, stay, then_step}
use partner_integration_reli.Persistence.Steps.Laws.{Steps-Evolves, Steps-Told}
use partner_integration_reli.Persistence.Told.{Told}
use partner_integration_reli.Tests.Fixtures.{delivery_in, holding}
use partner_integration_reli.Tests.Attempts.{spell, event, entry, attempt}
use partner_integration_reli.Tests.Leases.{request}

abbrev event_place : TenantKey
event_place = record { tenant = 1; id = 2 }

-- Tables with one event and no delivery.
abbrev accepted_only : Tables
accepted_only = record (holding (delivery_in scheduled)) {
  deliveries = λ k. none;
  events = λ k. if tenant_key_eq event_place k then some event else none;
}

abbrev creation : CreateDelivery
creation = record { tenant = 1; delivery = delivery_in scheduled; history = entry; outbox = none }

abbrev alone : ℕ → Round memory
alone n = record { seen = accepted_only; clock = 2400; interfere = λ s. s }

alone-Forward : Forward memory alone
alone-Forward n s = Evolves-refl s

accepted_only-Told : Told accepted_only
unfolding derive_event_status
accepted_only-Told k e h = elim (Bool-cases (tenant_key_eq event_place k)) [
  | inl same ↦
      let g = rw same at h in
      let e_e : event ≡ e = cc in subst (λ x. derive_event_status x.outcome ≡ ok x.status) e_e refl
  | inr other ↦ let g = rw other at h in cc
]

made : (create_delivery memory spell creation alone accepted_only).1 ≡ ok created
unfolding create_delivery create_round retry_rounds get_event is_expired recount count_created
    derive_event_status is_terminal_delivery_state create_writes created_side status_writes
    created_rollups outbox_writes updates_original_event new_index outbox_put memory_transact allow
    allows commit write epoch_seconds
made = refl

create-Created_example :
    (t : Tables) × Evolves accepted_only t
    × Created creation t (create_delivery memory spell creation alone accepted_only).0
create-Created_example = create-Created memory spell creation alone accepted_only alone-Forward made

abbrev known : Tables
known = record accepted_only {
  lookups = λ k. if tenant_key_eq (lookup_key creation) k then some 2 else none;
}

create_once_example : ¬ ((create_delivery memory spell creation alone known).1 ≡ ok created)
create_once_example = create_once memory spell creation alone known 2 refl (λ n t. refl)

abbrev recovery : RecoverExpired
recovery = record { tenant = 1; event = 2; delivery = 3; now = 60_000; random = 500_000 }

-- A delivery whose lease ran out at instant 15 000.
abbrev abandoned : DeliveryExecution
abandoned = record (delivery_in in_progress) {
  lease_token = some (issued 77);
  lease_expires_at = some 15_000;
  attempt_count = 2;
}

abbrev abandoned_tables : Tables
abandoned_tables = record (holding abandoned) {
  lookups = λ k. if tenant_key_eq (record { tenant = 1; id = 3 }) k then some 2 else none;
}

abbrev reads : Round memory
reads = record { seen = abandoned_tables; clock = 60_000; interfere = λ s. s }

recovery_total_example :
    let ended = moved abandoned (timed_out recovery abandoned) in
    let idle = moved abandoned (released recovery abandoned) in
    (transition_delivery abandoned (timed_out recovery abandoned) ≡ ok ended)
    × ((ended.state ≡ dead_lettered) ↔ (5 ≤ 2))
    × ((ended.state ≡ retry_scheduled) ↔ (2 < 5))
    × ((is_some (recovered_attempt recovery abandoned ended (attempt AttemptOutcome.started)).outbox
          ≡ true)
        ↔ (2 < 5))
    × (transition_delivery abandoned (released recovery abandoned) ≡ ok idle)
    × (idle.state ≡ scheduled)
unfolding is_abandoned
recovery_total_example =
    recovery_total recovery abandoned (issued 77) (attempt AttemptOutcome.started) refl refl

-- A delivery is created, and then leased.
abbrev after_creation : Tables
after_creation = (create_round memory spell creation (alone 0) accepted_only).0

abbrev after_lease : Tables
after_lease = (acquire_lease memory after_creation after_creation 2500 2500 request).0

two-Steps : Steps memory spell accepted_only after_lease
two-Steps =
    then_step (then_step stay (creates creation (alone 0)))
      (leases after_creation 2500 2500 request)

Steps-Evolves_example : Evolves accepted_only after_lease
Steps-Evolves_example = Steps-Evolves memory spell accepted_only after_lease two-Steps

Steps-Told_example : Told after_lease
Steps-Told_example = Steps-Told memory spell accepted_only after_lease two-Steps accepted_only-Told

-- A delivery that waits for its destination to be enabled again.
abbrev blocked : DeliveryExecution
blocked = record (delivery_in retry_scheduled) { blocked_reason = some destination_disabled }

abbrev blocked_tables : Tables
blocked_tables = record (holding blocked) { lookups = abandoned_tables.lookups }

abbrev enabled : ResumeDestination
enabled = record { tenant = 1; destination = 4; now = 70_000 }

abbrev blocked_reads : Round memory
blocked_reads = record { seen = blocked_tables; clock = 70_000; interfere = λ s. s }

-- It is resumed.
resumed_one :
    (resume_destination memory enabled ((3, blocked_reads) ∷ []) 0 blocked_tables).1 ≡ ok 1
unfolding resume_destination resume_one locate_delivery get_delivery is_expired is_resumable
    resume_transition transition_delivery permitted_transitions moved is_terminal_delivery_state
    resume_writes reindex outbox_put memory_transact allow allows commit write epoch_seconds
resumed_one = refl
