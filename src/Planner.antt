-- ===== src/Planner.antt =====
-- The planner package (subagentbridge/planner/budget.py): the in-memory and the durable budget
-- ledger, and the check of a task plan.
pub mod Budget
pub mod Durable
mod Examples
pub mod Plan
