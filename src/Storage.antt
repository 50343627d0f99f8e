-- ===== src/Storage.antt =====
-- The storage package (subagentbridge/storage): the audit ledger and the team store.
pub mod Json
pub mod Audit
pub mod Team
pub mod Migration
