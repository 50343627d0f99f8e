-- ===== src/Domain.antt =====
-- The domain package (subagentbridge/domain): contracts, registries, the task aggregate and the
-- dispatch tracker.
pub mod Contracts
pub mod Registry
pub mod Engine
pub mod World
pub mod Dispatch
mod Examples
