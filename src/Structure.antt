-- ===== src/Structure.antt =====
-- structure/: functions that are alike.
pub mod Components
pub mod Similarity
