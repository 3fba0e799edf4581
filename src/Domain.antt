-- ===== src/Domain.antt =====
-- packages/domain/src/index.ts: the pure business types and policies.
pub mod Types
pub mod Records
pub mod Configuration
pub mod RetryAfter
pub mod Transition
pub mod Status
pub mod Rate
pub mod Retry
pub mod Classify
pub mod Replay
pub mod Policy
