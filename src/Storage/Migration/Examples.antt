-- ===== src/Storage/Migration/Examples.antt =====
-- A legacy file and its migration.
use subagent_bridge.Prelude.{◌≡◌, refl, true, false, none, some, [], ◌∷◌}
use subagent_bridge.Prelude.Exec.{ok, err, migration_conflict}
use subagent_bridge.Prelude.Int.{pos}
use subagent_bridge.Prelude.Dict.{get, put}
use subagent_bridge.Storage.Migration.{
  TeamRow, QueueRow, SimpulTables, LegacyQueue, Schema, same_team, same_queue, equal_queue,
}
use subagent_bridge.Storage.Migration.Moves.{
  no_legacy, insert_missing, migrate_rows, queue_values, insert_queue, migrate_queue, references_ok,
  check_references, migrate_checkpoints, migrate_messages, migrate_handoffs, migrate_worktrees,
  migrate_dispatches, migrate_sessions, migrate_tables, move_legacy, migration, migrate_schema,
}
use subagent_bridge.Storage.Migration.Moves.Schemas.{
  IsAllOrNothing, migrate_schema-IsAllOrNothing, migration_is_idempotent,
}

abbrev crew : TeamRow
crew = record { lead_session_id = "l-1"; title = "Crew"; created_at = 10 }

abbrev job : QueueRow
job = record {
  team_id = "t-1";
  from_session_id = "l-1";
  to_session_id = "w-1";
  task_id = "task-1";
  payload_json = "{}";
  status = "PENDING";
  dedup_key = some "unread";
  priority = pos 7;
  steering_json = "[1]";
  created_at = 11;
  updated_at = 11;
}

abbrev no_tables : SimpulTables
no_tables = record {
  teams = [];
  sessions = [];
  queue = [];
  worktrees = [];
  handoffs = [];
  messages = [];
  checkpoints = [];
}

-- A queue without the columns dedup_key and steering_json.
abbrev old_queue : LegacyQueue
old_queue = record {
  has_dedup_key = false;
  has_priority = true;
  has_steering = false;
  rows = ("d-1", job) ∷ [];
}

abbrev old : Schema
old = record {
  legacy = record no_legacy { teams = some (("t-1", crew) ∷ []); queue = some old_queue };
  tables = no_tables;
  version = 0;
  views = false;
}

migrate_schema-IsAllOrNothing_example : IsAllOrNothing (ok tt) old
migrate_schema-IsAllOrNothing_example = migrate_schema-IsAllOrNothing (ok tt) old refl

abbrev new : Schema
new = record {
  legacy = no_legacy;
  tables = record no_tables {
    teams = ("t-1", crew) ∷ [];
    queue = ("d-1", record job { dedup_key = none; steering_json = "[]" }) ∷ [];
  };
  version = 2;
  views = true;
}

old_is_migrated : migrate_schema (ok tt) old ≡ (ok tt, new)
unfolding migrate_schema migration move_legacy migrate_tables migrate_sessions migrate_dispatches
    migrate_worktrees migrate_handoffs migrate_messages migrate_checkpoints check_references
    references_ok migrate_queue insert_queue queue_values migrate_rows insert_missing same_team
    same_queue equal_queue get put
old_is_migrated = refl

old_is_migrated_well : (migrate_schema (ok tt) old).0 ≡ ok tt
unfolding migrate_schema migration move_legacy migrate_tables migrate_sessions migrate_dispatches
    migrate_worktrees migrate_handoffs migrate_messages migrate_checkpoints check_references
    references_ok migrate_queue insert_queue queue_values migrate_rows insert_missing same_team
    same_queue equal_queue get put
old_is_migrated_well = refl

migration_is_idempotent_example :
    migrate_schema (ok tt) (migrate_schema (ok tt) old).1 ≡ (ok tt, (migrate_schema (ok tt) old).1)
migration_is_idempotent_example = migration_is_idempotent (ok tt) (ok tt) old old_is_migrated_well

-- A row that differs from the legacy row of its key stops the migration.
abbrev renamed : Schema
renamed = record old {
  tables = record no_tables { teams = ("t-1", record crew { title = "Other" }) ∷ [] };
}

conflict_is_refused : migrate_schema (ok tt) renamed ≡ (err migration_conflict, renamed)
unfolding migrate_schema migration move_legacy migrate_tables migrate_rows insert_missing same_team
    get put
conflict_is_refused = refl
