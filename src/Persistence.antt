-- ===== src/Persistence.antt =====
-- The transactions of `DynamoPersistence` in packages/persistence/src/index.ts. A read is served
-- from tables `seen` that may be older than those a transaction meets: DynamoDB's reads are
-- eventually consistent, and other workers write in between.
pub mod Common
pub mod Rounds
pub mod Lease
pub mod Circuit
pub mod RatePermit
pub mod Rollups
pub mod Attempt
pub mod Finalize
pub mod Routing
pub mod Recovery
pub mod Told
pub mod Steps
pub mod Replace
pub mod Resume
