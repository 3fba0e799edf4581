-- ===== src/Store/Database.antt =====
-- What the program relies on of DynamoDB: `TransactWriteItems` (and a single put or update, which
-- is a transaction of one write) as a record that the operations take.
use partner_integration_reli.Prelude.{◌≡◌, ◌⊎◌, true, List, if◌then◌else◌, arith}
use partner_integration_reli.Store.Tables.{Tables, Write, allow, commit}

-- A transaction is committed, or cancelled by a failed condition or a conflict, or ends in any other
-- error, of which the caller cannot tell whether it was applied.
pub data Verdict : Type 0 where
  committed cancelled broken : Verdict

-- All the writes are applied, under conditions that all held before, or none.
pub record Database : Type 1 where
  pub Store : Type 0
  pub tables : Store → Tables
  pub transact : Store → List Write → Store × Verdict
  pub committed_law :
      (s : Store) (ws : List Write)
      → (transact s ws).1 ≡ committed
      → (allow (tables s) ws ≡ true) × (tables (transact s ws).0 ≡ commit (tables s) ws)
  pub cancelled_law :
      (s : Store) (ws : List Write)
      → (transact s ws).1 ≡ cancelled
      → tables (transact s ws).0 ≡ tables s
  pub broken_law :
      (s : Store) (ws : List Write)
      → (transact s ws).1 ≡ broken
      → (tables (transact s ws).0 ≡ tables s)
        ⊎ (allow (tables s) ws ≡ true) × (tables (transact s ws).0 ≡ commit (tables s) ws)

-- A database in memory, which meets the laws.
unfoldable pub memory_transact : Tables → List Write → Tables × Verdict
memory_transact t ws = if allow t ws then (commit t ws, committed) else (t, cancelled)

pub memory_committed :
    (t : Tables) (ws : List Write)
    → (memory_transact t ws).1 ≡ committed
    → (allow t ws ≡ true) × ((memory_transact t ws).0 ≡ commit t ws)
unfolding memory_transact
memory_committed t ws h = ground arith

pub memory_cancelled :
    (t : Tables) (ws : List Write)
    → (memory_transact t ws).1 ≡ cancelled
    → (memory_transact t ws).0 ≡ t
unfolding memory_transact
memory_cancelled t ws h = ground arith

pub memory_broken : (t : Tables) (ws : List Write) → ¬ ((memory_transact t ws).1 ≡ broken)
unfolding memory_transact
memory_broken t ws h = ground arith

abbrev pub memory : Database
memory = record {
  Store = Tables;
  tables = λ t. t;
  transact = memory_transact;
  committed_law = memory_committed;
  cancelled_law = memory_cancelled;
  broken_law = λ t ws h. absurd (memory_broken t ws h);
}
