-- ===== src/Messaging.antt =====
-- The messaging package (subagentbridge/messaging): the durable message bus.
pub mod Bus
