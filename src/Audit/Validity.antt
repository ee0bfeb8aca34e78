-- ===== src/Audit/Validity.antt =====
-- Proofs on audit.rs and audit/: what its validity tests demand of what it builds.
pub mod Projected
pub mod Published
pub mod Repaired
pub mod Named
pub mod Tallied
pub mod Whole
pub mod Valid
