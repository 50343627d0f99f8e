-- ===== src/Qa.antt =====
-- The qa package (subagentbridge/qa): the gate over executor evidence.
pub mod Adjudication
