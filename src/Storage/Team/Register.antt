-- ===== src/Storage/Team/Register.antt =====
-- subagentbridge/storage/team_store.py: the registration of teams and workers. Each method is one
-- BEGIN IMMEDIATE transaction after the checks of its arguments.
use Prim.Native.String.{◌++◌ as ◌+++◌}
use subagent_bridge.Prelude.{
  ℕ, ◌+◌, String, Bool, false, not, ◌&&◌, ◌||◌, Option, none, some, List, [], ◌∷◌, length, map, any,
  has, distinct, count_if, is_some, is_empty, ltb, leb, ◌==◌, ◌!=◌,
}
use subagent_bridge.Prelude.Exec.{
  Exec, pure, gets, modify, state, raise_if, or_raise, transaction, ◌>>=◌, ◌>>◌, value_error,
  permission_error, integrity_error,
}
use subagent_bridge.Prelude.Text.{strips_to_nothing, text_length}
use subagent_bridge.Prelude.Dict.{get, put}
use subagent_bridge.Team.Contracts.{
  WorkerConfig, default_config, AgentTeam, AgentSession, WorktreeAssignment, lead, worker, idle,
  is_lead, is_archived,
}
use subagent_bridge.Storage.Team.{TeamTables, values_of}

-- A registered lead of this team.
abbrev pub is_lead_of : String → Option AgentSession → Bool
is_lead_of team_id none = false
is_lead_of team_id (some s) = is_lead s.role && s.team_id == team_id

abbrev pub bounded_id : String → Bool
bounded_id s = not (strips_to_nothing s) && leb (text_length s) 128

abbrev pub lead_session : String → String → ℕ → AgentSession
lead_session team_id lead_session_id now = record {
  session_id = lead_session_id;
  role = lead;
  team_id = team_id;
  status = idle;
  config = default_config lead_session_id team_id "lead";
  created_at = now;
  updated_at = now;
}

abbrev pub new_team : String → String → String → ℕ → AgentTeam
new_team team_id lead_session_id title now = record {
  team_id = team_id;
  lead_session_id = lead_session_id;
  title = title;
  created_at = now;
}

-- With a row of the team, it must be the same registration; without one, both rows are inserted.
abbrev pub create_or_return :
    String → String → String → ℕ → Option AgentTeam → Exec TeamTables AgentTeam
create_or_return team_id lead_session_id title now (some existing) = do
  raise_if (existing.lead_session_id != lead_session_id || existing.title != title) permission_error
  found ← gets (λ s. get s.sessions lead_session_id)
  raise_if (not (is_lead_of team_id found)) permission_error
  pure (new_team team_id lead_session_id title existing.created_at)
create_or_return team_id lead_session_id title now none = do
  found ← gets (λ s. get s.sessions lead_session_id)
  raise_if (is_some found) permission_error
  let team = new_team team_id lead_session_id title now
  modify (λ s. record s { teams = put s.teams team_id team })
  let session = lead_session team_id lead_session_id now
  modify (λ s. record s { sessions = put s.sessions lead_session_id session })
  pure team

unfoldable pub create_team_with_lead_once : String → String → String → ℕ → Exec TeamTables AgentTeam
create_team_with_lead_once team_id lead_session_id title now = do
  raise_if (not (bounded_id team_id && bounded_id lead_session_id && leb (text_length title) 256))
      value_error
  existing ← gets (λ s. get s.teams team_id)
  transaction (create_or_return team_id lead_session_id title now existing)

-- The row of a new worker.
abbrev pub worker_session : String → WorkerConfig → ℕ → AgentSession
worker_session team_id config now = record {
  session_id = config.worker_id;
  role = worker;
  team_id = team_id;
  status = idle;
  config = config;
  created_at = now;
  updated_at = now;
}

-- `branch_name or f"worker/{config.worker_id}"`
abbrev pub branch_or_default : Option String → String → String
branch_or_default none worker_id = "worker/" +++ worker_id
branch_or_default (some branch) worker_id = branch

-- `path is not None and (not path.strip() or len(path) > limit)`
abbrev pub is_unbounded : Option String → ℕ → Bool
is_unbounded none limit = false
is_unbounded (some s) limit = strips_to_nothing s || ltb limit (text_length s)

-- `if worktree_path: INSERT …`; a second row for the worker raises IntegrityError.
abbrev pub add_worktree :
    String → WorkerConfig → Option String → Option String → ℕ → Exec TeamTables (Unit {0})
add_worktree team_id config none branch now = pure tt
add_worktree team_id config (some path) branch now = do
  old ← gets (λ s. get s.worktrees config.worker_id)
  raise_if (is_some old) integrity_error
  let row : WorktreeAssignment = record {
    worker_id = config.worker_id;
    team_id = team_id;
    worktree_path = path;
    branch_name = branch_or_default branch config.worker_id;
    created_at = now;
  }
  modify (λ s. record s { worktrees = put s.worktrees config.worker_id row })

abbrev pub adopts_process : WorkerConfig → Bool
adopts_process config = is_some config.pid || is_some config.process_create_time

unfoldable pub single_transaction :
    String → WorkerConfig → Option String → Option String → ℕ → Exec TeamTables AgentSession
single_transaction team_id config path branch now = do
  found ← gets (λ s. get s.teams team_id)
  team ← or_raise found value_error
  raise_if (team.lead_session_id == config.worker_id) permission_error
  known ← gets (λ s. get s.sessions config.worker_id)
  raise_if (is_some known) value_error
  let session = worker_session team_id config now
  modify (λ s. record s { sessions = put s.sessions config.worker_id session })
  add_worktree team_id config path branch now
  pure session

-- `lower` is Python's `str.lower`.
unfoldable pub register_single_worker_once :
    (String → String)
    → String
    → WorkerConfig
    → Option String
    → Option String
    → ℕ
    → Exec TeamTables AgentSession
register_single_worker_once lower team_id config path branch now = do
  raise_if
      (strips_to_nothing team_id
        || not (bounded_id config.worker_id)
        || config.team_id != team_id
        || strips_to_nothing config.role
        || lower config.role == "lead")
      value_error
  raise_if (adopts_process config) permission_error
  raise_if (is_unbounded path 4096) value_error
  raise_if (is_unbounded branch 256) value_error
  transaction (single_transaction team_id config path branch now)

abbrev pub roster_roles : List String
roster_roles = "worker" ∷ "pm" ∷ "developer" ∷ "qa" ∷ "specialist" ∷ []

-- The check of each config of a batch, in the order of the loop.
unfoldable pub check_configs : String → String → List WorkerConfig → Exec TeamTables (Unit {0})
check_configs team_id lead_session_id [] = pure tt
check_configs team_id lead_session_id (config ∷ rest) = do
  raise_if
      (strips_to_nothing config.worker_id
        || config.team_id != team_id
        || config.worker_id == lead_session_id
        || not (has config.role roster_roles))
      value_error
  raise_if (adopts_process config) permission_error
  check_configs team_id lead_session_id rest

-- `team_id = ? AND role = 'worker' AND status != 'ARCHIVED'`
abbrev pub on_roster : String → AgentSession → Bool
on_roster team_id s = s.team_id == team_id && not (is_lead s.role) && not (is_archived s.status)

abbrev pub is_led_by : String → Option AgentTeam → Bool
is_led_by lead_session_id none = false
is_led_by lead_session_id (some t) = t.lead_session_id == lead_session_id

-- The inserts; the process fields of a config are None, which was checked.
unfoldable pub insert_workers : String → List WorkerConfig → ℕ → Exec TeamTables (List AgentSession)
insert_workers team_id [] now = pure []
insert_workers team_id (config ∷ rest) now = do
  let session = worker_session team_id config now
  modify (λ s. record s { sessions = put s.sessions config.worker_id session })
  created ← insert_workers team_id rest now
  pure (session ∷ created)

unfoldable pub batch_transaction :
    String → String → List WorkerConfig → ℕ → ℕ → Exec TeamTables (List AgentSession)
batch_transaction team_id lead_session_id configs max_workers now = do
  s ← state
  raise_if (not (is_led_by lead_session_id (get s.teams team_id))) permission_error
  raise_if (not (is_lead_of team_id (get s.sessions lead_session_id))) permission_error
  let used = count_if (on_roster team_id) (values_of s.sessions)
  raise_if (ltb max_workers (used + length configs)) value_error
  raise_if (any (λ c. is_some (get s.sessions c.worker_id)) configs) value_error
  insert_workers team_id configs now

unfoldable pub register_worker_batch_once :
    String → String → List WorkerConfig → ℕ → ℕ → Exec TeamTables (List AgentSession)
register_worker_batch_once team_id lead_session_id configs max_workers now = do
  raise_if (strips_to_nothing team_id) value_error
  raise_if (strips_to_nothing lead_session_id) value_error
  raise_if (is_empty configs || ltb 16 (length configs)) value_error
  raise_if (not (leb 1 max_workers && leb max_workers 64)) value_error
  check_configs team_id lead_session_id configs
  raise_if (not (distinct (map (λ c. c.worker_id) configs))) value_error
  transaction (batch_transaction team_id lead_session_id configs max_workers now)
