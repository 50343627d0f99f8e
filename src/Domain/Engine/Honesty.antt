-- ===== src/Domain/Engine/Honesty.antt =====
-- What holds of a task aggregate between two calls: a live dispatch is for the task's own tree, and
-- a QA verdict that is held is a sound one for that dispatch.
use subagent_bridge.Prelude.{◌≡◌, Bool, true, false, none, some, arith, if◌then◌else◌}
use subagent_bridge.Domain.Contracts.{
  TaskState, dispatched, process_succeeded, qa_verified, verified, Dispatch,
}
use subagent_bridge.Domain.Registry.{QaVerdict, IdentityRegistry, ReceiptIssuerRegistry}
use subagent_bridge.Domain.Registry.Provenance.{IsSound, Extends, Extends-IsSound}
use subagent_bridge.Domain.Engine.{TaskAggregate}

-- A dispatch is on its way or has been judged.
abbrev pub is_live : TaskState → Bool
is_live dispatched = true
is_live process_succeeded = true
is_live qa_verified = true
is_live verified = true
is_live _ = false

abbrev pub is_judged : TaskState → Bool
is_judged qa_verified = true
is_judged verified = true
is_judged _ = false

abbrev pub is_verified : TaskState → Bool
is_verified verified = true
is_verified _ = false

-- The active dispatch is one of this task and of its present tree.
abbrev pub HasCurrent : TaskAggregate → Type 0
HasCurrent a =
    (d : Dispatch) × (a.active_dispatch ≡ some d)
    × (d.task_id ≡ a.task.task_id)
    × (d.tree_sha ≡ a.task.tree_sha)

-- The verdict held is accepting, sound, and about the active dispatch and the present tree.
abbrev pub HasVerdict : IdentityRegistry → ReceiptIssuerRegistry → TaskAggregate → Type 0
HasVerdict ids s a =
    (d : Dispatch) × (v : QaVerdict) × (a.active_dispatch ≡ some d)
    × (a.qa_verdict ≡ some v)
    × (v.accepted ≡ true)
    × (v.task_id ≡ a.task.task_id)
    × (v.dispatch_id ≡ d.dispatch_id)
    × (v.tree_sha ≡ a.task.tree_sha)
    × IsSound ids s v

pub record IsHonest (ids : IdentityRegistry) (s : ReceiptIssuerRegistry) (a : TaskAggregate)
    : Type 0 where
  pub current : is_live a.status ≡ true → HasCurrent a
  pub judged : is_judged a.status ≡ true → HasVerdict ids s a
  pub sealed : a.verified_tree_sha ≡ (if is_verified a.status then some a.task.tree_sha else none)

-- The registries may grow under an aggregate.
pub Extends-IsHonest :
    {ids ids' : IdentityRegistry} {s s' : ReceiptIssuerRegistry} (a : TaskAggregate)
    → Extends ids s ids' s'
    → IsHonest ids s a
    → IsHonest ids' s' a
Extends-IsHonest a x h = record {
  current = h.current;
  judged = λ e.
      let (d, v, at, held, acc, t, g, tree, sound) = h.judged e in
      (d, v, at, held, acc, t, g, tree, Extends-IsSound x sound);
  sealed = h.sealed;
}

-- A state with no dispatch on its way has nothing to be honest about but the seal.
pub idle-IsHonest :
    (ids : IdentityRegistry) (s : ReceiptIssuerRegistry) (a : TaskAggregate)
    → is_live a.status ≡ false
    → a.verified_tree_sha ≡ none
    → IsHonest ids s a
idle-IsHonest ids s a idle unsealed = record {
  current = λ e. absurd (ground arith);
  judged = λ e. absurd (ground arith);
  sealed = ground arith;
}
