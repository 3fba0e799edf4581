-- ===== src/Tests/Leases.antt =====
-- Leases over the database in memory.
use partner_integration_reli.Prelude.{◌≡◌, refl, some, ok, err}
use partner_integration_reli.Domain.Types.{
  scheduled, rate_limited, in_progress, issued, DeliveryExecution, forbidden_transition,
}
use partner_integration_reli.Domain.Transition.{
  transition_delivery, permitted_transitions, moved, is_terminal_delivery_state,
}
use partner_integration_reli.Store.Tables.{Tables, allow, allows, commit, write, epoch_seconds}
use partner_integration_reli.Store.Database.{memory, memory_transact}
use partner_integration_reli.Store.Commit.{Evolves-refl}
use partner_integration_reli.Persistence.Common.{domain, get_delivery, reindex}
use partner_integration_reli.Persistence.Lease.{
  AcquireLease, is_leasable, lease_transition, acquire_lease,
}
use partner_integration_reli.Persistence.Lease.Laws.{
  acquire-Granted, Granted, acquire_exclusive, acquire-rate_limited,
}
use partner_integration_reli.Tests.Fixtures.{delivery_in, key, holding}

abbrev pub request : AcquireLease
request = record {
  key = key;
  expected_version = 1;
  owner = 5;
  token = issued 77;
  expires_at = 15_000;
}

abbrev before : Tables
before = holding (delivery_in scheduled)

-- What the run grants.
abbrev granted : DeliveryExecution
unfolding moved is_terminal_delivery_state lease_transition
granted = moved (delivery_in scheduled) (lease_transition request 2000)

request-granted : (acquire_lease memory before before 2000 2000 request).1 ≡ ok (some granted)
unfolding acquire_lease get_delivery is_leasable transition_delivery permitted_transitions moved
    lease_transition memory_transact allow allows commit write epoch_seconds reindex
request-granted = refl

acquire-Granted_example :
    Granted request 2000 before (acquire_lease memory before before 2000 2000 request).0 granted
acquire-Granted_example =
    acquire-Granted memory before before 2000 2000 request granted request-granted

acquire_exclusive_example : ¬ (
    (acquire_lease memory
      (acquire_lease memory before before 2000 2000 request).0
      before
      2001
      2001
      request).1
    ≡ ok (some granted))
acquire_exclusive_example =
    acquire_exclusive memory before (acquire_lease memory before before 2000 2000 request).0 before
      before 2000 2000 2001 2001 request request granted granted refl refl request-granted
      (Evolves-refl (acquire_lease memory before before 2000 2000 request).0)

acquire-rate_limited_example :
    acquire_lease memory
      (holding (delivery_in rate_limited))
      (holding (delivery_in rate_limited))
      2000
      2000
      request
    ≡ (
      holding (delivery_in rate_limited),
      err (domain (forbidden_transition rate_limited in_progress)),
    )
unfolding get_delivery is_leasable
acquire-rate_limited_example =
    acquire-rate_limited memory (holding (delivery_in rate_limited))
      (holding (delivery_in rate_limited)) 2000 2000 request (delivery_in rate_limited) refl refl
      refl
