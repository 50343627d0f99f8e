-- ===== src/Release.antt =====
-- The release package (subagentbridge/release): the gate over the CI of the exact commit, and the
-- inventory of evidence.
pub mod CiGate
pub mod Readiness
