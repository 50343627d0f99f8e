-- ===== src/Storage/Migration/Moves.antt =====
-- subagentbridge/storage/team_store.py: how `migrate_schema` moves the rows of one table, the check
-- of the references, and the whole migration.
pub mod Lossless
pub mod Schemas
use subagent_bridge.Prelude.{
  ℕ, String, Bool, true, false, not, ◌&&◌, ◌||◌, Option, none, some, List, [], ◌∷◌, all, any,
  is_some, is_none, ltb, leb, ◌==◌, if◌then◌else◌,
}
use subagent_bridge.Prelude.Exec.{
  Error, Result, ok, err, Exec, pure, lift, continue, gets, modify, state, raise_if, transaction,
  ◌>>=◌, ◌>>◌, migration_conflict, migration_integrity,
}
use subagent_bridge.Prelude.Int.{pos}
use subagent_bridge.Prelude.Dict.{Dict, get, put}
use subagent_bridge.Storage.Migration.{
  QueueRow, SimpulTables, LegacyQueue, LegacyTables, Schema, same_team, same_session, equal_queue,
  same_queue, same_worktree, same_handoff, same_message, same_checkpoint,
}

-- `INSERT … SELECT … WHERE key NOT IN (…)`
unfoldable pub insert_missing {ℓ} : {V : Type ℓ} → Dict V → Dict V → Dict V
insert_missing [] rows = rows
insert_missing ((k, v) ∷ legacy) rows =
    insert_missing legacy (if is_some (get rows k) then rows else put rows k v)

module _ {ℓ} {V : Type ℓ} (same : V → V → Bool) where
  abbrev pub conflicts : V → Option V → Bool
  conflicts v none = false
  conflicts v (some w) = not (same v w)

  -- The equivalence check of a row after the inserts.
  abbrev pub matched : V → Option V → Bool
  matched v none = false
  matched v (some w) = same v w

  -- Conflicts, inserts, and the check of every legacy row.
  unfoldable pub migrate_rows : Dict V → Dict V → Result (Dict V)
  migrate_rows legacy rows =
      let new = insert_missing legacy rows in
      if any (λ r. conflicts r.1 (get rows r.0)) legacy
      then err migration_conflict
      else if not (all (λ r. matched r.1 (get new r.0)) legacy)
      then err migration_integrity
      else ok new

  -- Nothing is done for a table that does not exist.
  abbrev pub migrate_table : Option (Dict V) → Dict V → Result (Dict V)
  migrate_table none rows = ok rows
  migrate_table (some legacy) rows = migrate_rows legacy rows

-- The values of a legacy row, with the defaults for columns that the table lacks.
unfoldable pub queue_values : LegacyQueue → QueueRow → QueueRow
queue_values t r = record r {
  dedup_key = if t.has_dedup_key then r.dedup_key else none;
  priority = if t.has_priority then r.priority else pos 0;
  steering_json = if t.has_steering then r.steering_json else "[]";
}

abbrev pub with_values : LegacyQueue → Dict QueueRow → Dict QueueRow
with_values t [] = []
with_values t ((k, r) ∷ rows) = (k, queue_values t r) ∷ with_values t rows

-- The loop over orca_queue: a row that is there must be equal, and one that is not is inserted.
unfoldable pub insert_queue : Dict QueueRow → Dict QueueRow → Result (Dict QueueRow)
insert_queue [] rows = ok rows
insert_queue ((k, v) ∷ legacy) rows =
    let kept = insert_queue legacy rows in
    let added = insert_queue legacy (put rows k v) in
    if conflicts equal_queue v (get rows k)
    then err migration_conflict
    else if is_some (get rows k)
    then kept
    else added

abbrev pub check_queue : Dict QueueRow → Result (Dict QueueRow) → Result (Dict QueueRow)
check_queue legacy (err e) = err e
check_queue legacy (ok rows) =
    if not (all (λ r. matched same_queue r.1 (get rows r.0)) legacy)
    then err migration_integrity
    else ok rows

unfoldable pub migrate_queue : Option LegacyQueue → Dict QueueRow → Result (Dict QueueRow)
migrate_queue none rows = ok rows
migrate_queue (some t) rows =
    let legacy = with_values t t.rows in check_queue legacy (insert_queue legacy rows)

-- `_verify_application_referential_integrity`
unfoldable pub references_ok : SimpulTables → Bool
references_ok t =
    all (λ r. is_some (get t.teams r.1.team_id)) t.sessions
    && all (λ r. is_some (get t.teams r.1.team_id)) t.queue
    && all (λ r. is_some (get t.teams r.1.team_id)) t.worktrees
    && all (λ r. is_some (get t.sessions r.0)) t.worktrees
    && all (λ r. is_some (get t.teams r.1.team_id)) t.handoffs
    && all (λ r. is_some (get t.teams r.1.team_id)) t.messages
    && all (λ r. is_some (get t.teams r.1.team_id)) t.checkpoints
    && all (λ r. is_some (get t.sessions r.1.worker_id)) t.checkpoints

-- One table: its new rows are computed and written.
abbrev pub move :
    {A : Type 0}
    → (SimpulTables → Result A)
    → (A → SimpulTables → SimpulTables)
    → Exec SimpulTables (Unit {0})
move read write s = continue (lift (read s) s) (λ rows. modify (write rows))

unfoldable pub check_references : Exec SimpulTables (Unit {0})
check_references = do t ← state; raise_if (not (references_ok t)) migration_integrity

-- The tables one after the other: each of these moves its table and goes on with the next.
unfoldable pub migrate_checkpoints : LegacyTables → Exec SimpulTables (Unit {0})
migrate_checkpoints l =
    move (λ s. migrate_table same_checkpoint l.checkpoints s.checkpoints)
      (λ rows s. record s { checkpoints = rows })
    >> check_references

unfoldable pub migrate_messages : LegacyTables → Exec SimpulTables (Unit {0})
migrate_messages l =
    move (λ s. migrate_table same_message l.messages s.messages)
      (λ rows s. record s { messages = rows })
    >> migrate_checkpoints l

unfoldable pub migrate_handoffs : LegacyTables → Exec SimpulTables (Unit {0})
migrate_handoffs l =
    move (λ s. migrate_table same_handoff l.handoffs s.handoffs)
      (λ rows s. record s { handoffs = rows })
    >> migrate_messages l

unfoldable pub migrate_worktrees : LegacyTables → Exec SimpulTables (Unit {0})
migrate_worktrees l =
    move (λ s. migrate_table same_worktree l.worktrees s.worktrees)
      (λ rows s. record s { worktrees = rows })
    >> migrate_handoffs l

unfoldable pub migrate_dispatches : LegacyTables → Exec SimpulTables (Unit {0})
migrate_dispatches l =
    move (λ s. migrate_queue l.queue s.queue) (λ rows s. record s { queue = rows })
    >> migrate_worktrees l

unfoldable pub migrate_sessions : LegacyTables → Exec SimpulTables (Unit {0})
migrate_sessions l =
    move (λ s. migrate_table same_session l.sessions s.sessions)
      (λ rows s. record s { sessions = rows })
    >> migrate_dispatches l

unfoldable pub migrate_tables : LegacyTables → Exec SimpulTables (Unit {0})
migrate_tables l =
    move (λ s. migrate_table same_team l.teams s.teams) (λ rows s. record s { teams = rows })
    >> migrate_sessions l

abbrev pub no_legacy : LegacyTables
no_legacy = record {
  teams = none;
  sessions = none;
  queue = none;
  worktrees = none;
  handoffs = none;
  messages = none;
  checkpoints = none;
}

abbrev pub any_legacy : LegacyTables → Bool
any_legacy l =
    is_some l.teams
    || is_some l.sessions
    || is_some l.queue
    || is_some l.worktrees
    || is_some l.handoffs
    || is_some l.messages
    || is_some l.checkpoints

-- The part that runs when there are legacy tables: the backup, the moves, and the DROPs.
abbrev pub put_tables : {A : Type 0} → Schema → Result A × SimpulTables → Result A × Schema
put_tables s (r, t) = (r, record s { tables = t })

abbrev pub on_tables : {A : Type 0} → Exec SimpulTables A → Exec Schema A
on_tables m s = put_tables s (m s.tables)

unfoldable pub move_legacy : Result (Unit {0}) → Exec Schema (Unit {0})
move_legacy backup = do
  lift backup
  s ← state
  on_tables (migrate_tables s.legacy)
  modify (λ s. record s { legacy = no_legacy })

unfoldable pub migration : Result (Unit {0}) → Exec Schema (Unit {0})
migration backup = do
  s ← state
  if leb 2 s.version && not (any_legacy s.legacy)
      then modify (λ s. record s { views = true })
      else (do
        if any_legacy s.legacy then move_legacy backup else pure tt
        modify (λ s. record s { views = true; version = if ltb s.version 2 then 2 else s.version }))

unfoldable pub migrate_schema : Result (Unit {0}) → Exec Schema (Unit {0})
migrate_schema backup = transaction (migration backup)
