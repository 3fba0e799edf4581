-- ===== src/RoutingService.antt =====
-- `RoutingService` of packages/application/src/index.ts: the deliveries that an event becomes.
pub mod Plan
pub mod Route
