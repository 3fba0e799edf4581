-- ===== src/Persistence/Rollups.antt =====
-- `rollupUpdates`, `hourOf` of packages/persistence/src/index.ts and `stableShard` of
-- packages/persistence/src/keys.ts.
use partner_integration_reli.Prelude.{
  ℕ, ◌+◌, ◌*◌, ◌/◌, ◌%◌, ◌^◌, Bool, true, false, not, ◌&&◌, ◌||◌, leb, get_or, List, [], ◌∷◌,
  if◌then◌else◌,
}
use partner_integration_reli.Domain.Types.{
  retry_scheduled, dead_lettered, succeeded, failed_terminal, ExecutionType, original, replay,
  DeliveryExecution,
}
use partner_integration_reli.Domain.Records.{AttemptOutcome, DeliveryAttempt}
use partner_integration_reli.Domain.Transition.{state_eq}
use partner_integration_reli.Store.Keys.{by_shard, by_target}
use partner_integration_reli.Store.Tables.{
  LatencyBucket, le_100, le_250, le_500, le_1000, le_2500, gt_2500, Rollup, Write, add_to_rollup,
}

-- A hash over the characters of a text, which wraps around at 2 ^ 32.
unfoldable pub hash_from : ℕ → List ℕ → ℕ
hash_from hash [] = hash
hash_from hash (c ∷ cs) = hash_from ((hash * 31 + c) % 2 ^ 32) cs

unfoldable pub stable_shard : List ℕ → ℕ → ℕ
unfolding hash_from
stable_shard text count = hash_from 0 text % count

-- The hour of an instant: `value.slice(0, 13)` of its ISO form.
abbrev pub hour_of : ℕ → ℕ
hour_of at = at / 3_600_000

bucket : ℕ → LatencyBucket
bucket duration =
    if leb duration 100
    then le_100
    else if leb duration 250
    then le_250
    else if leb duration 500
    then le_500
    else if leb duration 1000
    then le_1000
    else if leb duration 2500
    then le_2500
    else gt_2500

abbrev bucket_index : LatencyBucket → ℕ
bucket_index le_100 = 0
bucket_index le_250 = 1
bucket_index le_500 = 2
bucket_index le_1000 = 3
bucket_index le_2500 = 4
bucket_index gt_2500 = 5

abbrev pub one_if : Bool → ℕ
one_if true = 1
one_if false = 0

abbrev pub is_replay : ExecutionType → Bool
is_replay original = false
is_replay replay = true

abbrev pub outcome_is_succeeded : AttemptOutcome → Bool
outcome_is_succeeded AttemptOutcome.succeeded = true
outcome_is_succeeded _ = false

abbrev pub outcome_is_failed : AttemptOutcome → Bool
outcome_is_failed AttemptOutcome.failed = true
outcome_is_failed _ = false

abbrev pub outcome_is_started : AttemptOutcome → Bool
outcome_is_started AttemptOutcome.started = true
outcome_is_started _ = false

same_bucket : LatencyBucket → LatencyBucket → Bool
same_bucket a b = leb (bucket_index a) (bucket_index b) && leb (bucket_index b) (bucket_index a)

unfoldable pub rollup_values : DeliveryAttempt → DeliveryExecution → Rollup
unfolding bucket same_bucket
rollup_values a d =
    let again = is_replay d.execution_type in
    let duration = get_or a.duration_ms 0 in
    record {
      delivery_attempts = one_if (not again);
      delivery_successes = one_if (not again && outcome_is_succeeded a.outcome);
      delivery_failures = one_if (not again && outcome_is_failed a.outcome);
      retries_scheduled = one_if (not again && state_eq d.state retry_scheduled);
      dead_letters = one_if (not again && state_eq d.state dead_lettered);
      replay_successes = one_if (again && state_eq d.state succeeded);
      replay_failures =
          one_if (again && (state_eq d.state dead_lettered || state_eq d.state failed_terminal));
      latency_total_ms = if again then 0 else duration;
      latency_count = one_if (not again);
      buckets = λ l. one_if (not again && same_bucket (bucket duration) l);
    }

-- `spell` gives the characters of an identifier.
unfoldable pub rollup_updates :
    (ℕ → List ℕ) → ℕ → ℕ → ℕ → ℕ → DeliveryAttempt → DeliveryExecution → List Write
rollup_updates spell tenant destination stable_id at a d =
    let values = rollup_values a d in
    let hour = hour_of at in
    add_to_rollup (by_shard tenant hour (stable_shard (spell stable_id) 8)) values
    ∷ add_to_rollup (by_target tenant hour destination) values
    ∷ []
