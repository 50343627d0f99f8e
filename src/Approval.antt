-- ===== src/Approval.antt =====
-- The approval package (subagentbridge/approval): the broker of approval actions, the authority
-- that turns an approval into one execution ticket, and the worker's check of a ticket.
pub mod Crypto
pub mod Broker
pub mod Authority
mod Examples
