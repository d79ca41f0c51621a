-- ===== src/Verify.antt =====
-- internal/verify: the order of the failure codes, and the five-phase pipeline.
pub mod FailureOrder
pub mod Pipeline
