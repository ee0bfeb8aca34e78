-- ===== src/Policy.antt =====
-- policy.rs and policy/: the levels of rules, the overrides of a request, and the plan that they and the
-- configuration of a workspace give.
pub mod Levels
pub mod Accepted
pub mod Plan
