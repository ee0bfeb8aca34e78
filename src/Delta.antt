-- ===== src/Delta.antt =====
-- delta.rs and delta/diff_map.rs: the pairing of two scans, and the proofs on it.
pub mod Nearest
pub mod Matching
pub mod Summary
pub mod Occurrences
pub mod Balance
mod Pairing
mod Exhaustion
mod Collected
pub mod Passes
pub mod Conservation
pub mod Distance
pub mod DiffMap
