-- ===== src/Domain/Status.antt =====
-- `deriveEventStatus` of packages/domain/src/index.ts.
use partner_integration_reli.Prelude.{
  ◌+◌, ◌≤◌, ◌<◌, ◌≡◌, ◌↔◌, ◌⊎◌, true, false, not, ◌||◌, ltb, ◌==◌, if◌then◌else◌, Result, ok, err,
  arith, Result-cases, inl, inr,
}
use partner_integration_reli.Domain.Types.{
  EventStatus, accepted, processing, partially_succeeded, failed, no_destinations,
  EventOutcomeCounters, DomainError, inconsistent_counters,
}

unfoldable pub derive_event_status : EventOutcomeCounters → Result DomainError EventStatus
derive_event_status c =
    if ltb c.total_deliveries c.terminal_deliveries
      || not (
          c.successful_deliveries + c.failed_terminal_deliveries + c.dead_lettered_deliveries
          == c.terminal_deliveries)
    then err inconsistent_counters
    else if not c.routing_complete
    then ok (if c.total_deliveries == 0 then accepted else processing)
    else if c.total_deliveries == 0
    then ok no_destinations
    else if ltb c.terminal_deliveries c.total_deliveries
    then ok processing
    else if c.successful_deliveries == c.total_deliveries
    then ok EventStatus.succeeded
    else ok (if ltb 0 c.successful_deliveries then partially_succeeded else failed)

-- Counters that can have come from deliveries.
pub record IsConsistent (c : EventOutcomeCounters) : Type 0 where
  pub within : c.terminal_deliveries ≤ c.total_deliveries
  pub split :
      c.successful_deliveries + c.failed_terminal_deliveries + c.dead_lettered_deliveries
      ≡ c.terminal_deliveries

-- What each status tells a client.
abbrev pub Tells : EventStatus → EventOutcomeCounters → Type 0
Tells accepted c = (c.routing_complete ≡ false) × (c.total_deliveries ≡ 0)
Tells processing c =
    (0 < c.total_deliveries)
    × ((c.routing_complete ≡ false) ⊎ (c.terminal_deliveries < c.total_deliveries))
Tells no_destinations c = (c.routing_complete ≡ true) × (c.total_deliveries ≡ 0)
Tells EventStatus.succeeded c =
    (c.routing_complete ≡ true)
    × (0 < c.total_deliveries)
    × (c.successful_deliveries ≡ c.total_deliveries)
Tells partially_succeeded c =
    (c.routing_complete ≡ true)
    × (0 < c.successful_deliveries)
    × (c.successful_deliveries < c.total_deliveries)
    × (c.terminal_deliveries ≡ c.total_deliveries)
Tells failed c =
    (c.routing_complete ≡ true)
    × (0 < c.total_deliveries)
    × (c.successful_deliveries ≡ 0)
    × (c.terminal_deliveries ≡ c.total_deliveries)

derive_sound :
    (c : EventOutcomeCounters) (s : EventStatus)
    → derive_event_status c ≡ ok s
    → IsConsistent c × Tells s c
unfolding derive_event_status
derive_sound c accepted h = ground arith
derive_sound c _ h = ground arith

derive_complete :
    (c : EventOutcomeCounters) (s : EventStatus)
    → IsConsistent c
    → Tells s c
    → derive_event_status c ≡ ok s
unfolding derive_event_status
derive_complete c accepted v t = ground arith
derive_complete c _ v t = ground arith

-- The derived status is the one whose meaning the counters have, and there is one exactly when the
-- counters are consistent.
pub derive_iff :
    (c : EventOutcomeCounters) (s : EventStatus)
    → (derive_event_status c ≡ ok s) ↔ (IsConsistent c × Tells s c)
derive_iff c s = (derive_sound c s, λ v. derive_complete c s v.0 v.1)

derive-ne-err :
    (c : EventOutcomeCounters) (e : DomainError)
    → IsConsistent c
    → ¬ (derive_event_status c ≡ err e)
unfolding derive_event_status
derive-ne-err c e v h = ground arith

-- Consistent counters always have a status.
pub derive_total :
    (c : EventOutcomeCounters) → IsConsistent c → (s : EventStatus) × (derive_event_status c ≡ ok s)
derive_total c v = elim (Result-cases (derive_event_status c)) [
  | inl (e, h) ↦ absurd (derive-ne-err c e v h)
  | inr r ↦ r
]
