-- ===== src/Domain/World.antt =====
-- One task aggregate (domain/engine.py) with the registries that it shares (domain/registry.py),
-- under calls in any order by anyone: which worlds can be reached.
pub mod Verified
pub mod Attempts
use subagent_bridge.Prelude.{String, ◌≡◌, Bool, Option, none, List, []}
use subagent_bridge.Prelude.Int.{ℤ}
use subagent_bridge.Prelude.Dict.{get}
use subagent_bridge.Domain.Contracts.{Role, Evidence, Task}
use subagent_bridge.Domain.Registry.{
  Principal, QaVerdict, IdentityRegistry, ReceiptIssuerRegistry, Binding, Bytes, register, issue,
  create_evidence, create_qa_verdict,
}
use subagent_bridge.Domain.Engine.{
  TaskAggregate, new_aggregate, freeze, dispatch, process_succeed, qa_verify, mark_verified,
  change_tree, reconcile, block, recover_unknown,
}

pub record World : Type 0 where
  pub ids : IdentityRegistry
  pub registry : ReceiptIssuerRegistry
  pub agg : TaskAggregate

-- A call with its arguments, and what `token_bytes` or `uuid4` returns in it.
pub data Call : Type 0 where
  register_call : String → Role → Bytes → Call
  issue_call : Principal → Binding → ℤ → String → Call
  evidence_call : String → Binding → String → Call
  verdict_call : Principal → List Evidence → Binding → Bool → String → Call
  freeze_call : Principal → Call
  dispatch_call : Principal → String → String → Call
  succeed_call : String → String → Call
  verify_call : Principal → QaVerdict → Call
  mark_call : Principal → Call
  change_call : String → Call
  reconcile_call : Principal → Option String → Call
  block_call recover_call : Call

-- The world after the call, whether it returned or raised.
unfoldable pub after : Call → World → World
after (register_call who role secret) w = record w { ids = (register who role secret w.ids).1 }
after (issue_call p b code uuid) w = record w {
  registry = (issue w.ids p b code uuid w.registry).1;
}
after (evidence_call receipt b uuid) w = record w {
  registry = (create_evidence receipt b uuid w.registry).1;
}
after (verdict_call p evidence b accepted uuid) w = record w {
  registry = (create_qa_verdict w.ids p evidence b accepted uuid w.registry).1;
}
after (freeze_call p) w = record w { agg = (freeze w.ids p w.agg).1 }
after (dispatch_call p key uuid) w = record w { agg = (dispatch w.ids p key uuid w.agg).1 }
after (succeed_call id tree) w = record w { agg = (process_succeed id tree w.agg).1 }
after (verify_call p v) w = record w { agg = (qa_verify w.ids w.registry p v w.agg).1 }
after (mark_call p) w = record w { agg = (mark_verified w.ids p w.agg).1 }
after (change_call tree) w = record w { agg = (change_tree tree w.agg).1 }
after (reconcile_call p new) w = record w { agg = (reconcile w.ids p new w.agg).1 }
after block_call w = record w { agg = block w.agg }
after recover_call w = record w { agg = recover_unknown w.agg }

-- `uuid4` does not repeat the identifier of a receipt.
abbrev pub IsFresh : Call → World → Type 0
IsFresh (issue_call p b code uuid) w = get w.registry.receipts uuid ≡ none
IsFresh _ w = Unit

abbrev pub new_world : Task → World
new_world task = record {
  ids = record { members = [] };
  registry = record { receipts = []; evidence = []; verdicts = [] };
  agg = new_aggregate task;
}

pub data Reach (task : Task) : World → Type 0 where
  start : Reach task (new_world task)
  next : {w : World} → Reach task w → (c : Call) → IsFresh c w → Reach task (after c w)
