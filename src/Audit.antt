-- ===== src/Audit.antt =====
-- audit.rs and audit/: the audit of a workspace, by its parts, and the proofs on it.
pub mod Counts
pub mod Model
pub mod Tiers
pub mod Float
pub mod Density
pub mod Ceilings
pub mod Ranking
pub mod Categories
pub mod Aggregate
pub mod Score
pub mod Build
pub mod Validity
