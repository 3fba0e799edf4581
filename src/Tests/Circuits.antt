-- ===== src/Tests/Circuits.antt =====
-- Circuits and rate permits over the database in memory.
use partner_integration_reli.Prelude.{
  ℕ, ◌+◌, ◌*◌, ◌≡◌, refl, true, false, none, some, [], ◌∷◌, if◌then◌else◌, inl, arith,
}
use partner_integration_reli.Domain.Types.{
  scheduled, closed, open_circuit, CircuitRuntimeState, RateLimitRuntimeState,
}
use partner_integration_reli.Domain.Rate.{rate_limit_decision}
use partner_integration_reli.Domain.Rate.Bound.{served}
use partner_integration_reli.Store.Keys.{TenantKey, tenant_key_eq}
use partner_integration_reli.Store.Tables.{Tables, allow, allows, commit, write}
use partner_integration_reli.Store.Database.{memory, memory_transact}
use partner_integration_reli.Persistence.Rounds.{Round}
use partner_integration_reli.Persistence.Circuit.{
  CircuitRequest, CircuitPermit, CircuitResult, unbroken, probe_state, probe_writes, read_circuit,
  circuit_round, circuit_after_attempt,
}
use partner_integration_reli.Persistence.Circuit.Threshold.{after_all, after_all-opens}
use partner_integration_reli.Persistence.Circuit.Probe.{circuit_round_exclusive}
use partner_integration_reli.Persistence.RatePermit.{RateRequest, rate_round, rate_writes, tat_of}
use partner_integration_reli.Persistence.RatePermit.Served.{rate_round-served}
use partner_integration_reli.Tests.Fixtures.{delivery_in, holding, circuit_policy, rate_policy}

abbrev failure : CircuitResult
failure = record { now = 5000; success = false; counts_toward_circuit = true; probe = false }

after_all-opens_example :
    ((after_all circuit_policy unbroken (failure ∷ [])).state ≡ closed)
    × ((circuit_after_attempt
          (after_all circuit_policy unbroken (failure ∷ []))
          circuit_policy
          failure).state
        ≡ open_circuit)
    × ((circuit_after_attempt
          (after_all circuit_policy unbroken (failure ∷ []))
          circuit_policy
          failure).next_probe_at
        ≡ some (5000 + 30 * 1000))
after_all-opens_example =
    after_all-opens circuit_policy unbroken (failure ∷ []) failure refl ((refl, refl, refl), tt)
      (refl, refl, refl) refl

abbrev destination : TenantKey
destination = record { tenant = 1; id = 4 }

-- A circuit that is due for a probe.
abbrev due : CircuitRuntimeState
due = record unbroken { state = open_circuit; next_probe_at = some 30_000; version = 3 }

abbrev broken_tables : Tables
broken_tables = record (holding (delivery_in scheduled)) {
  circuits = λ k. if tenant_key_eq destination k then some due else none;
}

abbrev probe_at : ℕ → CircuitRequest
probe_at now = record { key = destination; policy = circuit_policy; owner = 5; now = now }

abbrev reads : Round memory
reads = record { seen = broken_tables; clock = 31_000; interfere = λ s. s }

abbrev probed : Tables
probed = (circuit_round memory (probe_at 31_000) reads broken_tables).0

abbrev probe_granted : CircuitPermit
probe_granted = record {
  allowed = true;
  probe = true;
  next_eligible_at = none;
  state = probe_state (probe_at 31_000) due;
}

abbrev reads_again : Round memory
reads_again = record { seen = probed; clock = 32_000; interfere = λ s. s }

-- The probe that is under way answers the second worker.
abbrev refused_until : CircuitPermit
refused_until = record {
  allowed = false;
  probe = false;
  next_eligible_at = some 41_000;
  state = probe_state (probe_at 31_000) due;
}

circuit_round_exclusive_example : refused_until.probe ≡ false
unfolding circuit_round read_circuit probe_writes probe_state memory_transact allow allows commit
    write
circuit_round_exclusive_example =
    circuit_round_exclusive memory broken_tables probed (probe_at 31_000) (probe_at 32_000) reads
      reads_again probe_granted refused_until refl refl refl refl (inl refl) (omega arith) refl

abbrev rate_state : RateLimitRuntimeState
rate_state = record {
  theoretical_arrival_time_ms = 12_000;
  updated_at = 5000;
  policy_hash = rate_policy;
  version = 2;
}

abbrev limited : Tables
limited = record (holding (delivery_in scheduled)) {
  rates = λ k. if tenant_key_eq destination k then some rate_state else none;
}

abbrev ask : RateRequest
ask = record { key = destination; policy = rate_policy; now = 6000 }

abbrev limited_reads : Round memory
limited_reads = record { seen = limited; clock = 6000; interfere = λ s. s }

rate_round-served_example :
    ((rate_limit_decision (some 12_000) rate_policy 6000).permitted ≡ true)
    × (tat_of ((rate_round memory ask limited_reads limited).0.rates destination)
        ≡ served rate_policy (some 12_000) (6000 ∷ []))
unfolding rate_round rate_limit_decision rate_writes memory_transact allow allows commit write
rate_round-served_example =
    rate_round-served memory ask limited_reads limited
      (record { permitted = true; next_eligible_at = 6000 }) (inl refl) refl refl
