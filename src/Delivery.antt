-- ===== src/Delivery.antt =====
-- `DeliveryService` of packages/application/src/index.ts, beside its parts: what it is given.
pub mod Failure
pub mod Evidence
pub mod Deferral
pub mod Request
pub mod Outcome
pub mod Call
pub mod Wait
pub mod Stages
pub mod Service
