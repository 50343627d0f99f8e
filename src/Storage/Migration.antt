-- ===== src/Storage/Migration.antt =====
-- subagentbridge/storage/team_store.py: `migrate_schema`, from the legacy orca_* tables to the
-- simpul_* tables, in one BEGIN IMMEDIATE transaction. Rows are by their columns here: a JSON
-- column is its text. The backup of the file is an argument: its result. The simpul_* tables
-- declare no foreign keys, so PRAGMA foreign_key_check finds nothing in them.
mod Examples
pub mod Moves
use subagent_bridge.Prelude.{
  ℕ, ◌+◌, ◌-◌, String, Bool, true, false, not, ◌&&◌, ◌||◌, Option, none, some, List, [], ◌∷◌, all,
  any, is_some, is_none, ltb, leb, nat_eq, opt_eq, ◌==◌, if◌then◌else◌,
}
use subagent_bridge.Prelude.Exec.{
  Error, Result, ok, err, Exec, pure, lift, gets, modify, state, raise_if, transaction, ◌>>=◌, ◌>>◌,
  migration_conflict, migration_integrity,
}
use subagent_bridge.Prelude.Int.{ℤ, pos, negsuc}
use subagent_bridge.Prelude.Dict.{Dict, get, put}

pub record TeamRow : Type 0 where
  pub lead_session_id : String
  pub title : String
  pub created_at : ℕ

-- The legacy table calls the column `role` or `orca_role`.
pub record SessionRow : Type 0 where
  pub role : String
  pub team_id : String
  pub status : String
  pub config_json : String
  pub created_at : ℕ
  pub updated_at : ℕ

pub record QueueRow : Type 0 where
  pub team_id : String
  pub from_session_id : String
  pub to_session_id : String
  pub task_id : String
  pub payload_json : String
  pub status : String
  pub dedup_key : Option String
  pub priority : ℤ
  pub steering_json : String
  pub created_at : ℕ
  pub updated_at : ℕ

-- A row of simpul_worktrees, by worker.
pub record WorktreeRow : Type 0 where
  pub team_id : String
  pub worktree_path : String
  pub branch_name : String
  pub created_at : ℕ

pub record HandoffColumns : Type 0 where
  pub team_id : String
  pub from_worker_id : String
  pub to_lead_id : String
  pub status : String
  pub summary : String
  pub artifacts_json : String
  pub metrics_json : String
  pub submitted_at : ℕ

pub record MessageRow : Type 0 where
  pub team_id : String
  pub from_session_id : String
  pub to_session_id : String
  pub content : String
  pub role : String
  pub created_at : ℕ

pub record CheckpointRow : Type 0 where
  pub worker_id : String
  pub team_id : String
  pub step_index : ℕ
  pub state_summary : String
  pub tokens_consumed : ℕ
  pub context_json : String
  pub created_at : ℕ

pub record SimpulTables : Type 0 where
  pub teams : Dict TeamRow
  pub sessions : Dict SessionRow
  pub queue : Dict QueueRow
  pub worktrees : Dict WorktreeRow
  pub handoffs : Dict HandoffColumns
  pub messages : Dict MessageRow
  pub checkpoints : Dict CheckpointRow

-- orca_queue with the optional columns that it has; a column that is missing is not read.
pub record LegacyQueue : Type 0 where
  pub has_dedup_key : Bool
  pub has_priority : Bool
  pub has_steering : Bool
  pub rows : Dict QueueRow

-- The legacy tables that exist; the file holds no other table whose name starts with orca_.
pub record LegacyTables : Type 0 where
  pub teams : Option (Dict TeamRow)
  pub sessions : Option (Dict SessionRow)
  pub queue : Option LegacyQueue
  pub worktrees : Option (Dict WorktreeRow)
  pub handoffs : Option (Dict HandoffColumns)
  pub messages : Option (Dict MessageRow)
  pub checkpoints : Option (Dict CheckpointRow)

-- `version` is the greatest of simpul_schema_version, or 0; `views` says that the views exist.
pub record Schema : Type 0 where
  pub legacy : LegacyTables
  pub tables : SimpulTables
  pub version : ℕ
  pub views : Bool

-- `ABS(a - b) <= 0.001`, in milliseconds
abbrev pub near : ℕ → ℕ → Bool
near a b = leb ((a - b) + (b - a)) 1

abbrev pub int_eq : ℤ → ℤ → Bool
int_eq (pos a) (pos b) = nat_eq a b
int_eq (negsuc a) (negsuc b) = nat_eq a b
int_eq (pos a) (negsuc b) = false
int_eq (negsuc a) (pos b) = false

abbrev pub str_eq : String → String → Bool
str_eq a b = a == b

unfoldable pub same_team : TeamRow → TeamRow → Bool
same_team a b =
    a.lead_session_id == b.lead_session_id && a.title == b.title && near a.created_at b.created_at

unfoldable pub same_session : SessionRow → SessionRow → Bool
same_session a b =
    a.role == b.role
    && a.team_id == b.team_id
    && a.status == b.status
    && a.config_json == b.config_json
    && near a.created_at b.created_at
    && near a.updated_at b.updated_at

abbrev pub same_queue_columns : QueueRow → QueueRow → Bool
same_queue_columns a b =
    a.team_id == b.team_id
    && a.from_session_id == b.from_session_id
    && a.to_session_id == b.to_session_id
    && a.task_id == b.task_id
    && a.payload_json == b.payload_json
    && a.status == b.status
    && opt_eq str_eq a.dedup_key b.dedup_key
    && int_eq a.priority b.priority
    && a.steering_json == b.steering_json

-- `tuple(current) == values`, and the comparison after the inserts.
unfoldable pub equal_queue : QueueRow → QueueRow → Bool
equal_queue a b =
    same_queue_columns a b && nat_eq a.created_at b.created_at && nat_eq a.updated_at b.updated_at

unfoldable pub same_queue : QueueRow → QueueRow → Bool
same_queue a b =
    same_queue_columns a b && near a.created_at b.created_at && near a.updated_at b.updated_at

unfoldable pub same_worktree : WorktreeRow → WorktreeRow → Bool
same_worktree a b =
    a.team_id == b.team_id
    && a.worktree_path == b.worktree_path
    && a.branch_name == b.branch_name
    && near a.created_at b.created_at

unfoldable pub same_handoff : HandoffColumns → HandoffColumns → Bool
same_handoff a b =
    a.team_id == b.team_id
    && a.from_worker_id == b.from_worker_id
    && a.to_lead_id == b.to_lead_id
    && a.status == b.status
    && a.summary == b.summary
    && a.artifacts_json == b.artifacts_json
    && a.metrics_json == b.metrics_json
    && near a.submitted_at b.submitted_at

unfoldable pub same_message : MessageRow → MessageRow → Bool
same_message a b =
    a.team_id == b.team_id
    && a.from_session_id == b.from_session_id
    && a.to_session_id == b.to_session_id
    && a.content == b.content
    && a.role == b.role
    && near a.created_at b.created_at

unfoldable pub same_checkpoint : CheckpointRow → CheckpointRow → Bool
same_checkpoint a b =
    a.worker_id == b.worker_id
    && a.team_id == b.team_id
    && nat_eq a.step_index b.step_index
    && a.state_summary == b.state_summary
    && nat_eq a.tokens_consumed b.tokens_consumed
    && a.context_json == b.context_json
    && near a.created_at b.created_at
