-- ===== src/Tests.antt =====
-- Runs of the code at concrete inputs, and the theorems applied there.
mod Fixtures
mod Policies
mod Redactions
mod Snapshots
mod Lifecycle
mod Leases
mod Attempts
mod Routing
mod Circuits
mod Partner
mod Deliveries
mod Transformations
