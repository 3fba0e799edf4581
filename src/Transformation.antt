-- ===== src/Transformation.antt =====
-- `executeTransformation` of packages/transformation/src/index.ts, with the definitions that the
-- schema of packages/contracts/src/index.ts accepts.
pub mod Path
pub mod Stable
pub mod Text
pub mod Definition
pub mod Execute
