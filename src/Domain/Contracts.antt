-- ===== src/Domain/Contracts.antt =====
-- subagentbridge/domain/contracts.py: the data contracts and their `__post_init__` checks. A
-- constructor that may raise is a function into `Result`. The tests on the dynamic type of a field
-- are the field's static type here.
use subagent_bridge.Prelude.{
  ℕ, String, Bool, true, false, not, ◌&&◌, ◌||◌, List, [], ◌∷◌, ltb, all, distinct, is_empty,
  if◌then◌else◌,
}
use subagent_bridge.Prelude.Exec.{Result, ok, err, value_error}
use subagent_bridge.Prelude.Text.{strips_to_nothing, text_length, has_control}

abbrev pub schema_version : ℕ
schema_version = 1

-- `_identity` does not raise: bounded printable text.
unfoldable pub is_identity : String → Bool
unfolding strips_to_nothing text_length has_control
is_identity value =
    not (strips_to_nothing value || ltb 4096 (text_length value) || has_control value)

pub data Role : Type 0 where
  pm developer qa specialist executor : Role

abbrev pub role_eq : Role → Role → Bool
role_eq pm pm = true
role_eq developer developer = true
role_eq qa qa = true
role_eq specialist specialist = true
role_eq executor executor = true
role_eq _ _ = false

pub data TaskState : Type 0 where
  created frozen dispatched process_succeeded qa_verified verified blocked recovery_required :
      TaskState

pub record Task : Type 0 where
  pub task_id : String
  pub run_id : String
  pub acceptance_criteria : List String
  pub tree_sha : String
  pub policy_revision : String

-- `Task.__post_init__` on criteria: nonempty, unique, each nonblank and bounded.
criterion_ok : String → Bool
criterion_ok x = not (strips_to_nothing x || ltb 4096 (text_length x))

criteria_ok : List String → Bool
unfolding criterion_ok
criteria_ok xs = not (is_empty xs) && all criterion_ok xs && distinct xs

unfoldable pub task_ok : Task → Bool
unfolding criteria_ok
task_ok t =
    all is_identity (t.task_id ∷ t.run_id ∷ t.tree_sha ∷ t.policy_revision ∷ [])
    && criteria_ok t.acceptance_criteria

-- `Task(...)`
unfoldable pub make_task : Task → Result Task
make_task t = if task_ok t then ok t else err value_error

pub record Dispatch : Type 0 where
  pub dispatch_id : String
  pub task_id : String
  pub attempt : ℕ
  pub idempotency_key : String
  pub tree_sha : String
  pub policy_revision : String

unfoldable pub dispatch_ok : Dispatch → Bool
dispatch_ok d =
    all is_identity
      (d.dispatch_id ∷ d.task_id ∷ d.idempotency_key ∷ d.tree_sha ∷ d.policy_revision ∷ [])
    && ltb 0 d.attempt

-- `Dispatch(...)`
unfoldable pub make_dispatch : Dispatch → Result Dispatch
make_dispatch d = if dispatch_ok d then ok d else err value_error

pub record Message : Type 0 where
  pub message_id : String
  pub from_principal : String
  pub to_principal : String
  pub task_id : String
  pub dispatch_id : String
  pub payload : String

pub record Evidence : Type 0 where
  pub evidence_id : String
  pub receipt_id : String
  pub task_id : String
  pub dispatch_id : String
  pub tree_sha : String
