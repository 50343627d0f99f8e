-- ===== src/Team.antt =====
-- The team package (subagentbridge/team) and its contracts (subagentbridge/domain).
pub mod Contracts
