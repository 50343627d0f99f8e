-- ===== src/Policy.antt =====
-- The policy package (subagentbridge/policy): the classification of operations.
pub mod Classification
