-- ===== src/Persistence/Steps.antt =====
-- Any interleaving of the workers: the transactions of the operations, one after another, each after
-- reads of its own.
pub mod Laws
pub mod Loops
use partner_integration_reli.Prelude.{ℕ, ◌+◌, ◌≡◌, ◌<◌, List}
use partner_integration_reli.Store.Tables.{Tables}
use partner_integration_reli.Store.Keys.{TenantKey}
use partner_integration_reli.Store.Database.{Database}
use partner_integration_reli.Persistence.Rounds.{Round}
use partner_integration_reli.Persistence.Lease.{AcquireLease, acquire_lease}
use partner_integration_reli.Persistence.Attempt.{
  StartAttempt, start_attempt, DeferDelivery, defer_delivery,
}
use partner_integration_reli.Persistence.Finalize.{FinalizeAttempt, finalize_round}
use partner_integration_reli.Persistence.Routing.{CreateDelivery, create_round, complete_round}
use partner_integration_reli.Persistence.Replace.{ReplaceDelivery, replace_if_version}
use partner_integration_reli.Persistence.Resume.{ResumeDestination, resume_one}
use partner_integration_reli.Persistence.Circuit.{CircuitRequest, circuit_round}
use partner_integration_reli.Persistence.RatePermit.{RateRequest, rate_round}

-- The deliveries that the callers pass are at the version they expect when an attempt starts, and
-- newer when they replace one.
pub data Step (db : Database) (spell : ℕ → List ℕ) (s : db.Store) : db.Store → Type 0 where
  leases :
      (seen : Tables) (read_at acquired_at : ℕ) (i : AcquireLease)
      → Step db spell s (acquire_lease db s seen read_at acquired_at i).0
  starts :
      (i : StartAttempt)
      → i.delivery.version ≡ i.expected_version
      → Step db spell s (start_attempt db i s).0
  finalizes :
      (i : FinalizeAttempt) (round : Round db)
      → i.expected_version < i.delivery.version
      → Step db spell s (finalize_round db spell i round s).0
  defers :
      (i : DeferDelivery) (seen : Tables) (now : ℕ)
      → i.expected_version < i.delivery.version
      → Step db spell s (defer_delivery db i seen now s).0
  creates :
      (i : CreateDelivery) (round : Round db) → Step db spell s (create_round db spell i round s).0
  completes : (k : TenantKey) (round : Round db) → Step db spell s (complete_round db k round s).0
  replaces :
      (i : ReplaceDelivery) (seen : Tables)
      → i.expected_version < i.delivery.version
      → Step db spell s (replace_if_version db i seen s).0
  resumes :
      (i : ResumeDestination) (round : Round db) (id : ℕ)
      → Step db spell s (resume_one db i round id s).0
  probes : (i : CircuitRequest) (round : Round db) → Step db spell s (circuit_round db i round s).0
  permits : (i : RateRequest) (round : Round db) → Step db spell s (rate_round db i round s).0

pub data Steps (db : Database) (spell : ℕ → List ℕ) (s : db.Store) : db.Store → Type 0 where
  stay : Steps db spell s s
  then_step : {t u : db.Store} → Steps db spell s t → Step db spell t u → Steps db spell s u
