-- ===== src/Persistence/Circuit.antt =====
-- `acquireCircuitPermit` and `circuitAfterAttempt` of packages/persistence/src/index.ts.
pub mod Threshold
pub mod Probe
use partner_integration_reli.Prelude.{
  ℕ, ◌+◌, ◌*◌, Bool, true, false, not, ◌&&◌, ◌||◌, leb, ltb, ◌==◌, Option, none, some, get_or, List,
  [], ◌∷◌, if◌then◌else◌, Result, ok, err,
}
use partner_integration_reli.Domain.Types.{
  CircuitState, closed, open_circuit, half_open, CircuitRuntimeState, CircuitBreakerPolicy,
}
use partner_integration_reli.Store.Condition.{absent_or}
use partner_integration_reli.Store.Keys.{TenantKey}
use partner_integration_reli.Store.Tables.{Tables, Write, put_circuit}
use partner_integration_reli.Store.Database.{Database}
use partner_integration_reli.Persistence.Common.{Fault, settle}
use partner_integration_reli.Persistence.Rounds.{Round, Answer, retry_rounds}

pub record CircuitRequest : Type 0 where
  pub key : TenantKey
  pub policy : CircuitBreakerPolicy
  pub owner : ℕ
  pub now : ℕ

pub record CircuitPermit : Type 0 where
  pub allowed : Bool
  pub probe : Bool
  pub next_eligible_at : Option ℕ
  pub state : CircuitRuntimeState

-- A destination without a runtime record.
abbrev pub unbroken : CircuitRuntimeState
unbroken = record {
  state = closed;
  consecutive_failures = 0;
  opened_at = none;
  next_probe_at = none;
  probe_lease_owner = none;
  probe_lease_expires_at = none;
  version = 0;
}

abbrev refuse : ℕ → CircuitRuntimeState → CircuitPermit
refuse at current = record {
  allowed = false;
  probe = false;
  next_eligible_at = some at;
  state = current;
}

-- What the state that was read says: an answer, or `none` where a probe may be tried.
unfoldable pub read_circuit : ℕ → CircuitRuntimeState → CircuitState → Option CircuitPermit
read_circuit now current closed =
    some (record { allowed = true; probe = false; next_eligible_at = none; state = current })
read_circuit now current open_circuit =
    let next_probe = get_or current.next_probe_at now in
    if ltb now next_probe then some (refuse next_probe current) else none
read_circuit now current half_open = elim current.probe_lease_expires_at [
  | none ↦ none
  | some expiration ↦ if ltb now expiration then some (refuse expiration current) else none
]

unfoldable pub probe_state : CircuitRequest → CircuitRuntimeState → CircuitRuntimeState
probe_state i current = record current {
  state = half_open;
  probe_lease_owner = some i.owner;
  probe_lease_expires_at = some (i.now + i.policy.probe_lease_seconds * 1000);
  version = current.version + 1;
}

unfoldable pub probe_writes : CircuitRequest → CircuitRuntimeState → List Write
unfolding probe_state
probe_writes i current =
    put_circuit (absent_or (λ c. c.version == current.version)) i.key (probe_state i current) ∷ []

-- The answer when all rounds were lost to other workers.
abbrev circuit_contended : CircuitRequest → CircuitPermit
circuit_contended i = record {
  allowed = false;
  probe = false;
  next_eligible_at = some (i.now + 5000);
  state = record unbroken { state = open_circuit; next_probe_at = some (i.now + 5000) };
}

module _ (db : Database) (i : CircuitRequest) where
  unfoldable pub circuit_round : Round db → db.Store → db.Store × Answer CircuitPermit
  unfolding read_circuit probe_writes
  circuit_round round s =
      let current = get_or (round.seen.circuits i.key) unbroken in
      elim (read_circuit i.now current current.state) [
        | some permit ↦ (s, ok (some permit))
        | none ↦
            settle (db.transact s (probe_writes i current))
              (some (record {
                allowed = true;
                probe = true;
                next_eligible_at = none;
                state = probe_state i current;
              }))
              none
      ]

  unfoldable pub acquire_circuit_permit :
      (ℕ → Round db) → db.Store → db.Store × Result Fault CircuitPermit
  unfolding circuit_round
  acquire_circuit_permit = retry_rounds db circuit_round (ok (circuit_contended i)) 8

pub record CircuitResult : Type 0 where
  pub now : ℕ
  pub success : Bool
  pub counts_toward_circuit : Bool
  pub probe : Bool

unfoldable pub circuit_after_attempt :
    CircuitRuntimeState → CircuitBreakerPolicy → CircuitResult → CircuitRuntimeState
circuit_after_attempt current policy r =
    if r.success
    then record unbroken { version = current.version + 1 }
    else if not r.counts_toward_circuit
    then record current { version = current.version + 1 }
    else if r.probe || leb policy.failure_threshold (current.consecutive_failures + 1)
    then record {
      state = open_circuit;
      consecutive_failures = current.consecutive_failures + 1;
      opened_at = some r.now;
      next_probe_at = some (r.now + policy.cooldown_seconds * 1000);
      probe_lease_owner = none;
      probe_lease_expires_at = none;
      version = current.version + 1;
    }
    else record unbroken {
      consecutive_failures = current.consecutive_failures + 1;
      version = current.version + 1;
    }
