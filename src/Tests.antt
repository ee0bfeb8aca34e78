-- ===== src/Tests.antt =====
-- The theorems applied to concrete data, with the data that the tests share.
mod Data
mod Audits
mod Deltas
mod Gates
mod Merges
mod Patches
mod Policies
mod Structures
mod Texts
mod Views
