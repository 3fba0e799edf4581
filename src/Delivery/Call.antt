-- ===== src/Delivery/Call.antt =====
-- What a call of `deliver` of packages/application/src/index.ts is given, meets and returns.
use partner_integration_reli.Prelude.{
  ℕ, ◌-◌, max, List, Bool, true, false, ltb, Option, none, some, Result, ok, err,
}
use partner_integration_reli.Domain.Configuration.{Destination}
use partner_integration_reli.Domain.Rate.{ceil_div}
use partner_integration_reli.Store.Database.{Database}
use partner_integration_reli.Persistence.Common.{Fault, delivery_finalization_conflict}
use partner_integration_reli.Persistence.Rounds.{Round}
use partner_integration_reli.Delivery.Evidence.{Runtime}
use partner_integration_reli.Delivery.Request.{PartnerRequest, Outside}
use partner_integration_reli.Delivery.Outcome.{Readers}

pub record Message : Type 0 where
  pub tenant_id : ℕ
  pub event_id : ℕ
  pub delivery_id : ℕ
  pub owner : ℕ

pub record Reply : Type 0 where
  pub acknowledge : Bool
  pub delay_seconds : Option ℕ

abbrev pub acknowledged : Reply
acknowledged = record { acknowledge = true; delay_seconds = none }

-- What a call is given and meets: its message, the services it calls, its reads, what other workers do before each of its transactions, the clock
-- whenever it is read, and the identifiers and random numbers that it draws.
pub record Visit (db : Database) : Type 0 where
  pub message : Message
  pub outside : Outside
  pub readers : Readers
  pub runtime : Runtime
  pub spell : ℕ → List ℕ
  pub first : Round db
  pub recovery_read : Round db
  pub recovery : ℕ → Round db
  pub lease : Round db
  pub leased_at : ℕ
  pub destination : Option Destination
  pub circuit : ℕ → Round db
  pub rate : ℕ → Round db
  pub start : db.Store → db.Store
  pub deferral : Round db
  pub finalize : ℕ → Round db
  pub now : ℕ
  pub started : ℕ
  pub completed : ℕ
  pub token : ℕ
  pub attempt_id : ℕ
  pub outbox_id : ℕ
  pub history_id : ℕ
  pub random : ℕ
  pub trace_id : Option ℕ
  pub traceparent : Option ℕ

-- How a call ends: the store, the request that was sent if there was one, and the reply.
pub record Visited (db : Database) : Type 0 where
  pub store : db.Store
  pub sent : Option PartnerRequest
  pub reply : Result Fault Reply

abbrev pub unsent : {db : Database} → db.Store → Result Fault Reply → Visited db
unsent s r = record { store = s; sent = none; reply = r }

abbrev pub acknowledge_any : {A : Type 0} → Result Fault A → Result Fault Reply
acknowledge_any (ok a) = ok acknowledged
acknowledge_any (err e) = err e

-- `if (!finalized) throw`.
abbrev pub acknowledge_final : Result Fault Bool → Result Fault Reply
acknowledge_final (ok true) = ok acknowledged
acknowledge_final (ok false) = err delivery_finalization_conflict
acknowledge_final (err e) = err e

-- `Math.max(1, Math.ceil((eligible - now) / 1000))`.
unfoldable pub wait_seconds : ℕ → ℕ → ℕ
unfolding ceil_div
wait_seconds at now = max 1 (ceil_div (at - now) 1000)

abbrev pub is_later : Option ℕ → ℕ → Bool
is_later none now = false
is_later (some at) now = ltb now at
