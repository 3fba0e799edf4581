-- ===== src/Persistence/Lease.antt =====
-- `acquireLease` of packages/persistence/src/index.ts.
pub mod Laws
use partner_integration_reli.Prelude.{
  ℕ, ◌≡◌, refl, Bool, true, false, not, ◌&&◌, leb, ltb, ◌==◌, Option, none, some, List, [], ◌∷◌,
  ◌++◌, if◌then◌else◌, Result, ok, err, arith,
}
use partner_integration_reli.Domain.Types.{
  DeliveryState, scheduled, rate_limited, in_progress, retry_scheduled, DeliveryExecution,
  LeaseToken,
}
use partner_integration_reli.Domain.Transition.{
  includes, DeliveryTransition, Lease, transition_delivery,
}
use partner_integration_reli.Store.Condition.{matches}
use partner_integration_reli.Store.Keys.{DeliveryKey}
use partner_integration_reli.Store.Tables.{Tables, Write, put_delivery}
use partner_integration_reli.Store.Database.{Database}
use partner_integration_reli.Persistence.Common.{
  Fault, domain, get_delivery, stored, reindex, settle,
}

pub record AcquireLease : Type 0 where
  pub key : DeliveryKey
  pub expected_version : ℕ
  pub owner : ℕ
  pub token : LeaseToken
  pub expires_at : ℕ

-- `nextEligibleAt` is absent or not after `now`.
abbrev eligible : Option ℕ → ℕ → Bool
eligible none now = true
eligible (some at) now = leb at now

-- The guard on the delivery that was read, and the condition of its replacement, are one test.
unfoldable pub is_leasable : ℕ → ℕ → DeliveryExecution → Bool
is_leasable expected now d =
    d.version == expected
    && (includes (scheduled ∷ retry_scheduled ∷ rate_limited ∷ []) d.state
        && eligible d.next_eligible_at now)

unfoldable pub lease_transition : AcquireLease → ℕ → DeliveryTransition
lease_transition i acquired_at = record {
  to_state = in_progress;
  at = acquired_at;
  expected_version = i.expected_version;
  lease_token = none;
  next_eligible_at = none;
  blocked_reason = none;
  lease = some (record { owner = i.owner; token = i.token; expires_at = i.expires_at });
}

unfoldable pub lease_writes : AcquireLease → ℕ → DeliveryExecution → DeliveryExecution → List Write
lease_writes i acquired_at current leased =
    put_delivery (matches (is_leasable i.expected_version acquired_at)) i.key (stored leased)
    ∷ reindex current leased

module _ (db : Database) where
  -- `read_at` is the clock at the read, `acquired_at` the clock after it.
  unfoldable pub acquire_lease :
      db.Store → Tables → ℕ → ℕ → AcquireLease → db.Store × Result Fault (Option DeliveryExecution)
  unfolding lease_writes
  acquire_lease s seen read_at acquired_at i = elim (get_delivery seen i.key read_at) [
    | none ↦ (s, ok none)
    | some current ↦
        if not (is_leasable i.expected_version acquired_at current)
        then (s, ok none)
        else elim (transition_delivery current (lease_transition i acquired_at)) [
          | err e ↦ (s, err (domain e))
          | ok leased ↦
              settle (db.transact s (lease_writes i acquired_at current leased)) (some leased) none
        ]
  ]
