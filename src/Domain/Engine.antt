-- ===== src/Domain/Engine.antt =====
-- subagentbridge/domain/engine.py: the task aggregate. A method is an action on `TaskAggregate`;
-- the registries that the aggregate shares with others are arguments, and so is what `uuid4` returns.
pub mod Honesty
pub mod Idle
pub mod Live
use subagent_bridge.Prelude.{
  ℕ, ◌+◌, String, Bool, true, false, not, ◌&&◌, ◌||◌, Option, none, some, List, [], ◌∷◌, has, ◌==◌,
  ◌!=◌, if◌then◌else◌,
}
use subagent_bridge.Prelude.Exec.{
  Result, ok, err, Exec, pure, raise, lift, gets, modify, state, raise_if, ◌>>=◌, ◌>>◌, value_error,
  permission_error, invalid_transition, stale_dispatch,
}
use subagent_bridge.Prelude.Text.{is_blank}
use subagent_bridge.Domain.Contracts.{
  Task, TaskState, created, frozen, dispatched, process_succeeded, qa_verified, verified, blocked,
  recovery_required, Dispatch, make_task, make_dispatch, pm, qa,
}
use subagent_bridge.Domain.Registry.{
  Principal, QaVerdict, IdentityRegistry, ReceiptIssuerRegistry, Binding, require, require_verdict,
}

pub record TaskAggregate : Type 0 where
  pub task : Task
  pub status : TaskState
  pub active_dispatch : Option Dispatch
  pub verified_tree_sha : Option String
  pub qa_verdict : Option QaVerdict
  pub used_keys : List String
  pub attempt : ℕ

-- `__init__`
unfoldable pub new_aggregate : Task → TaskAggregate
new_aggregate task = record {
  task = task;
  status = created;
  active_dispatch = none;
  verified_tree_sha = none;
  qa_verdict = none;
  used_keys = [];
  attempt = 0;
}

abbrev pub can_freeze : TaskState → Bool
can_freeze created = true
can_freeze blocked = true
can_freeze _ = false

abbrev pub is_frozen : TaskState → Bool
is_frozen frozen = true
is_frozen _ = false

abbrev pub is_dispatched : TaskState → Bool
is_dispatched dispatched = true
is_dispatched _ = false

abbrev pub is_succeeded : TaskState → Bool
is_succeeded process_succeeded = true
is_succeeded _ = false

abbrev pub is_qa_verified : TaskState → Bool
is_qa_verified qa_verified = true
is_qa_verified _ = false

abbrev pub is_recovery : TaskState → Bool
is_recovery recovery_required = true
is_recovery _ = false

unfoldable pub freeze : IdentityRegistry → Principal → Exec TaskAggregate (Unit {0})
freeze ids who = do
  lift (require ids who pm)
  s ← state
  raise_if (not (can_freeze s.status)) invalid_transition
  modify (λ s. record s { status = frozen })

-- The key is used and the attempt is counted before `Dispatch(...)` checks its fields.
unfoldable pub dispatch :
    IdentityRegistry → Principal → String → String → Exec TaskAggregate Dispatch
dispatch ids who idempotency_key uuid = do
  lift (require ids who pm)
  s ← state
  raise_if (not (is_frozen s.status)) invalid_transition
  raise_if (is_blank idempotency_key || has idempotency_key s.used_keys) invalid_transition
  modify (λ s. record s { used_keys = idempotency_key ∷ s.used_keys })
  modify (λ s. record s { attempt = s.attempt + 1 })
  t ← state
  d ← lift (
      make_dispatch (record {
        dispatch_id = uuid;
        task_id = t.task.task_id;
        attempt = t.attempt;
        idempotency_key = idempotency_key;
        tree_sha = t.task.tree_sha;
        policy_revision = t.task.policy_revision;
      }))
  modify (λ s. record s { active_dispatch = some d })
  modify (λ s. record s { status = dispatched })
  pure d

-- The test of `_require_current`.
abbrev pub is_current : Option Dispatch → String → String → Task → Bool
is_current none dispatch_id tree_sha task = false
is_current (some d) dispatch_id tree_sha task =
    d.dispatch_id == dispatch_id && d.tree_sha == tree_sha && tree_sha == task.tree_sha

require_current : String → String → Exec TaskAggregate (Unit {0})
require_current dispatch_id tree_sha = do
  s ← state
  raise_if (not (is_current s.active_dispatch dispatch_id tree_sha s.task)) stale_dispatch

unfoldable pub process_succeed : String → String → Exec TaskAggregate (Unit {0})
unfolding require_current
process_succeed dispatch_id tree_sha = do
  require_current dispatch_id tree_sha
  s ← state
  raise_if (not (is_dispatched s.status)) invalid_transition
  modify (λ s. record s { status = process_succeeded })

abbrev present_verdict :
    ReceiptIssuerRegistry → Principal → QaVerdict → Option Dispatch → Exec TaskAggregate (Unit {0})
present_verdict receipts who verdict none = raise invalid_transition
present_verdict receipts who verdict (some d) = do
  s ← state
  lift (
      require_verdict receipts verdict (record {
        task_id = s.task.task_id;
        dispatch_id = d.dispatch_id;
        tree_sha = s.task.tree_sha;
      }))
  raise_if (verdict.qa_principal_id != who.principal_id) permission_error
  modify (λ s. record s { qa_verdict = some verdict })
  modify (λ s. record s { status = qa_verified })

unfoldable pub qa_verify :
    IdentityRegistry → ReceiptIssuerRegistry → Principal → QaVerdict → Exec TaskAggregate (Unit {0})
qa_verify ids receipts who verdict = do
  lift (require ids who qa)
  s ← state
  raise_if (not (is_succeeded s.status)) invalid_transition
  present_verdict receipts who verdict s.active_dispatch

abbrev finalize : Principal → Option QaVerdict → Exec TaskAggregate (Unit {0})
finalize who none = raise invalid_transition
finalize who (some verdict) = do
  raise_if (verdict.qa_principal_id != who.principal_id) permission_error
  modify (λ s. record s { status = verified })
  modify (λ s. record s { verified_tree_sha = some s.task.tree_sha })

unfoldable pub mark_verified : IdentityRegistry → Principal → Exec TaskAggregate (Unit {0})
mark_verified ids who = do
  lift (require ids who qa)
  s ← state
  raise_if (not (is_qa_verified s.status)) invalid_transition
  finalize who s.qa_verdict

-- A new tree: the task is checked again by its constructor, and goes back to FROZEN.
abbrev rebind : String → Exec TaskAggregate (Unit {0})
rebind tree = do
  s ← state
  task ← lift (make_task (record s.task { tree_sha = tree }))
  modify (λ s. record s {
    task = task;
    status = frozen;
    active_dispatch = none;
    verified_tree_sha = none;
    qa_verdict = none;
  })

unfoldable pub change_tree : String → Exec TaskAggregate (Unit {0})
change_tree new_tree_sha = do
  raise_if (is_blank new_tree_sha) value_error
  s ← state
  if new_tree_sha == s.task.tree_sha
      then pure tt
      else do raise_if (is_recovery s.status) invalid_transition; rebind new_tree_sha

-- `new_tree_sha or self.task.tree_sha`
abbrev or_else : Option String → String → String
or_else none old = old
or_else (some new) old = if is_blank new then old else new

unfoldable pub reconcile :
    IdentityRegistry → Principal → Option String → Exec TaskAggregate (Unit {0})
reconcile ids who new_tree_sha = do
  lift (require ids who pm)
  s ← state
  raise_if (not (is_recovery s.status)) invalid_transition
  rebind (or_else new_tree_sha s.task.tree_sha)

unfoldable pub block : TaskAggregate → TaskAggregate
block s = record s { status = blocked; qa_verdict = none; verified_tree_sha = none }

unfoldable pub recover_unknown : TaskAggregate → TaskAggregate
recover_unknown s = record s {
  status = recovery_required;
  qa_verdict = none;
  verified_tree_sha = none;
}
