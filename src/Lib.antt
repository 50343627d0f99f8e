-- ===== src/Lib.antt =====
-- Simpul (the Python package subagentbridge): supervised coding tasks for several workers.
--
-- The parts, and where each is modelled:
--   Prelude           shared names, Boolean tests, lists, insertion-ordered dictionaries, the
--                     state-and-exception actions, text tests, signed integers, ORDER BY
--   Domain.Contracts  subagentbridge/domain/contracts.py: data contracts and their checks
--   Domain.Registry   subagentbridge/domain/registry.py: identities, executor receipts, evidence,
--                     QA verdicts, message admission (Equality, Provenance, Steps, Verdicts: proofs)
--   Domain.Engine     subagentbridge/domain/engine.py: the task aggregate (Honesty, Idle, Live)
--   Domain.World      the aggregate with the registries, under calls by anyone in any order
--   Domain.Dispatch   subagentbridge/domain/dispatch.py: the dispatch idempotency tracker
--   Planner.Budget    subagentbridge/planner/budget.py: BudgetLedger
--   Planner.Durable   subagentbridge/planner/budget.py: DurableBudgetLedger over its tables (Rows,
--                     Refines, Restarts: proofs)
--   Planner.Plan      subagentbridge/planner/budget.py: validate_task_dag (Fuel, Order, Sound,
--                     Validated, Cycles, Acyclic: proofs)
--   Approval.Broker   subagentbridge/approval/broker.py: ApprovalBroker (Vouched: proofs)
--   Approval.Authority  subagentbridge/approval/trusted_authority.py: TrustedApprovalAuthority and
--                     the check of a ticket (Consumes, Grants, Earned, Tickets: proofs)
--   Storage.Json      subagentbridge/storage/audit_ledger.py: payloads and `_scrub`
--   Storage.Audit     subagentbridge/storage/audit_ledger.py: AuditLedger over its tables (Chain,
--                     Appends, Ledger, Reconciled: proofs)
--   Team.Contracts    subagentbridge/domain/team_contracts.py: teams, sessions, queue items, handoffs
--   Storage.Team      subagentbridge/storage/team_store.py: TeamStore over its tables (Register, Queue,
--                     Handoff: the writing methods; Steps, Calls, Once, Next, Rows, Roster, Grown,
--                     Leads: proofs)
--   Storage.Migration  subagentbridge/storage/team_store.py: migrate_schema (Moves; Lossless, Schemas:
--                     proofs)
--   Policy.Classification  subagentbridge/policy/classification.py: the classifier of operations
--                     (Gates: proofs)
--   Qa.Adjudication   subagentbridge/qa/adjudication.py and subagentbridge/qa/test_pins.py: the gate
--                     over QA evidence and the check of a test path (Backed: proofs)
--   Release.CiGate    subagentbridge/release/ci_gate.py: verify_main_ci (Green, Attested: proofs)
--   Release.Readiness  subagentbridge/release/readiness.py: the evidence inventory (Claims: proofs)
--   Messaging.Bus     subagentbridge/messaging/bus.py: enqueue of DurableMessageBus
--   Approval.Crypto   what the approval package takes from hashlib, hmac and json, as parameters
--
-- A method is an action `S → Result A × S`: it returns the state beside its result or exception,
-- so what was written before an exception stays written. Methods that the source runs under a lock
-- or in one SQLite transaction are one step; `transaction` restores the state on an exception. The
-- statement of reconcile_closed at which SQLite fails is an argument of it (Fault).
-- Tests of the dynamic type of an argument are its static type here. Python's `int` is a natural
-- number where the program keeps it from being negative, and ℤ where it tests the sign. What
-- `uuid4`, `token_bytes` and `time.time` return is an argument of the operation that calls them.
-- Exceptions are told apart by their class, not by their message. Times are in milliseconds. What
-- the program takes from hashlib, hmac and json is a record of parameters (Crypto, Codec); theorems
-- name what they need of it, and speak of a collision where a digest stands for its text. The
-- loops are over finite lists and need no fuel, but for the search of validate_task_dag: its fuel
-- is one for each task and each dependency, and two more.
--
-- Not modelled: process control, Git, HTTP and file system calls, the MCP surface, and the reads
-- that only format fields.
pub mod Prelude
pub mod Domain
pub mod Planner
pub mod Approval
pub mod Storage
pub mod Policy
pub mod Messaging
pub mod Team
pub mod Qa
pub mod Release
