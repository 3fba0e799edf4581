-- ===== src/Store.antt =====
-- The tables of packages/persistence/src/index.ts, and the database that keeps them.
pub mod Condition
pub mod Keys
pub mod Tables
pub mod Commit
pub mod Database
pub mod Core
