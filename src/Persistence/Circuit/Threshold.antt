-- ===== src/Persistence/Circuit/Threshold.antt =====
-- When the circuit opens, over a sequence of attempts.
use partner_integration_reli.Prelude.{
  ◌+◌, ◌*◌, ◌≤◌, ◌<◌, ◌≡◌, true, false, some, List, [], ◌∷◌, length, All, arith,
}
use partner_integration_reli.Domain.Types.{
  closed, open_circuit, CircuitRuntimeState, CircuitBreakerPolicy,
}
use partner_integration_reli.Persistence.Circuit.{CircuitResult, circuit_after_attempt}

-- The attempts in order, each on the state that the one before it left.
unfoldable pub after_all :
    CircuitBreakerPolicy → CircuitRuntimeState → List CircuitResult → CircuitRuntimeState
after_all p c [] = c
after_all p c (r ∷ rs) = after_all p (circuit_after_attempt c p r) rs

-- A failure that counts, not of a probe.
abbrev pub IsCountedFailure : CircuitResult → Type 0
IsCountedFailure r = (r.success ≡ false) × (r.counts_toward_circuit ≡ true) × (r.probe ≡ false)

counted_once :
    (p : CircuitBreakerPolicy) (c : CircuitRuntimeState) (r : CircuitResult)
    → IsCountedFailure r
    → c.consecutive_failures + 1 < p.failure_threshold
    → ((circuit_after_attempt c p r).state ≡ closed)
      × ((circuit_after_attempt c p r).consecutive_failures ≡ c.consecutive_failures + 1)
unfolding circuit_after_attempt
counted_once p c r h k = ground arith

counted_last :
    (p : CircuitBreakerPolicy) (c : CircuitRuntimeState) (r : CircuitResult)
    → IsCountedFailure r
    → p.failure_threshold ≤ c.consecutive_failures + 1
    → ((circuit_after_attempt c p r).state ≡ open_circuit)
      × ((circuit_after_attempt c p r).next_probe_at ≡ some (r.now + p.cooldown_seconds * 1000))
unfolding circuit_after_attempt
counted_last p c r h k = ground arith

stays_closed :
    (p : CircuitBreakerPolicy) (c : CircuitRuntimeState) (rs : List CircuitResult)
    → c.state ≡ closed
    → All IsCountedFailure rs
    → c.consecutive_failures + length rs < p.failure_threshold
    → ((after_all p c rs).state ≡ closed)
      × ((after_all p c rs).consecutive_failures ≡ c.consecutive_failures + length rs)
unfolding after_all
stays_closed p c [] e h k = (e, omega arith)
stays_closed p c (r ∷ rs) e h k =
    let (still, more) = counted_once p c r h.0 (omega arith) in
    let (last, sum) = stays_closed p (circuit_after_attempt c p r) rs still h.1 (omega arith) in
    (last, omega arith)

-- A closed circuit stays closed through counted failures in a row that do not reach the threshold,
-- and the failure that reaches it opens the circuit, until its instant and the cooldown.
pub after_all-opens :
    (p : CircuitBreakerPolicy) (c : CircuitRuntimeState) (rs : List CircuitResult)
    (r : CircuitResult)
    → c.state ≡ closed
    → All IsCountedFailure rs
    → IsCountedFailure r
    → c.consecutive_failures + length rs + 1 ≡ p.failure_threshold
    → ((after_all p c rs).state ≡ closed)
      × ((circuit_after_attempt (after_all p c rs) p r).state ≡ open_circuit)
      × ((circuit_after_attempt (after_all p c rs) p r).next_probe_at
          ≡ some (r.now + p.cooldown_seconds * 1000))
after_all-opens p c rs r e h k reached =
    let (still, sum) = stays_closed p c rs e h (omega arith) in
    let (opened, until) = counted_last p (after_all p c rs) r k (omega arith) in
    (still, opened, until)
