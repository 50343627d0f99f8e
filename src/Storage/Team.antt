-- ===== src/Storage/Team.antt =====
-- subagentbridge/storage/team_store.py: the tables of `TeamStore`, each by its primary key, and the
-- methods that read or write one row. A JSON column is modelled by the value it encodes, and a row
-- by the object that the store makes of it. A method is one transaction; `now` is `time.time()`.
mod Examples
pub mod Register
pub mod Queue
pub mod Handoff
pub mod Steps
pub mod Calls
pub mod Once
pub mod Next
pub mod Rows
pub mod Roster
pub mod Grown
pub mod Leads
use subagent_bridge.Prelude.{
  ℕ, String, Bool, true, false, not, ◌&&◌, ◌||◌, Option, none, some, List, [], ◌∷◌, ◌++◌, ltb, leb,
  nat_eq, keep_if, take, map, ◌==◌, if◌then◌else◌,
}
use subagent_bridge.Prelude.Exec.{Exec, pure, gets, modify}
use subagent_bridge.Prelude.Dict.{Dict, get, put, remove}
use subagent_bridge.Prelude.Order.{sort_by, first_by}
use subagent_bridge.Team.Contracts.{
  AgentTeam, AgentSession, QueueItem, WorktreeAssignment, HandoffEvidence, ChannelMessage,
  WorkerCheckpoint,
}

-- A row of simpul_handoffs.
pub record HandoffRow : Type 0 where
  pub team_id : String
  pub evidence : HandoffEvidence

pub record TeamTables : Type 0 where
  pub teams : Dict AgentTeam
  pub sessions : Dict AgentSession
  pub queue : Dict QueueItem
  pub worktrees : Dict WorktreeAssignment
  pub handoffs : Dict HandoffRow
  pub messages : Dict ChannelMessage
  pub checkpoints : Dict WorkerCheckpoint

-- `INSERT … ON CONFLICT(key) DO UPDATE SET …`, where `update old` is what the conflict leaves.
abbrev pub on_conflict {ℓ} : {V : Type ℓ} → Option V → V → (V → V) → V
on_conflict none new update = new
on_conflict (some old) new update = update old

abbrev pub insert_or_update {ℓ} : {V : Type ℓ} → Dict V → String → V → (V → V) → Dict V
insert_or_update rows key new update = put rows key (on_conflict (get rows key) new update)

abbrev pub values_of {ℓ} : {V : Type ℓ} → Dict V → List V
values_of [] = []
values_of ((k, v) ∷ rows) = v ∷ values_of rows

unfoldable pub save_team : AgentTeam → Exec TeamTables (Unit {0})
save_team team = modify (λ s. record s {
  teams =
      insert_or_update s.teams team.team_id team
        (λ old. record old { lead_session_id = team.lead_session_id; title = team.title });
})

unfoldable pub load_team : String → TeamTables → Option AgentTeam
load_team team_id s = get s.teams team_id

unfoldable pub save_session : AgentSession → Exec TeamTables (Unit {0})
save_session session = modify (λ s. record s {
  sessions = insert_or_update s.sessions session.session_id session (λ old. record old {
    status = session.status;
    config = session.config;
    updated_at = session.updated_at;
  });
})

unfoldable pub load_session : String → TeamTables → Option AgentSession
load_session session_id s = get s.sessions session_id

abbrev pub older_session : AgentSession → AgentSession → Bool
older_session a b = ltb a.created_at b.created_at

unfoldable pub list_all_sessions : TeamTables → List AgentSession
list_all_sessions s = sort_by older_session (values_of s.sessions)

unfoldable pub list_sessions_by_team : String → TeamTables → List AgentSession
list_sessions_by_team team_id s =
    sort_by older_session (keep_if (λ x. x.team_id == team_id) (values_of s.sessions))

unfoldable pub save_queue_item : QueueItem → Exec TeamTables (Unit {0})
save_queue_item item = modify (λ s. record s {
  queue = insert_or_update s.queue item.dispatch_id item (λ old. record old {
    status = item.status;
    payload = item.payload;
    dedup_key = item.dedup_key;
    priority = item.priority;
    steering_instructions = item.steering_instructions;
    updated_at = item.updated_at;
  });
})

unfoldable pub load_queue_item : String → TeamTables → Option QueueItem
load_queue_item dispatch_id s = get s.queue dispatch_id

unfoldable pub save_channel_message : ChannelMessage → Exec TeamTables (Unit {0})
save_channel_message msg = modify (λ s. record s {
  messages =
      insert_or_update s.messages msg.message_id msg (λ old. record old { content = msg.content });
})

abbrev pub older_message : ChannelMessage → ChannelMessage → Bool
older_message a b = ltb a.created_at b.created_at

unfoldable pub list_channel_messages_by_team : String → ℕ → TeamTables → List ChannelMessage
list_channel_messages_by_team team_id limit s =
    take limit (sort_by older_message (keep_if (λ x. x.team_id == team_id) (values_of s.messages)))

unfoldable pub save_worktree : WorktreeAssignment → Exec TeamTables (Unit {0})
save_worktree assignment = modify (λ s. record s {
  worktrees = insert_or_update s.worktrees assignment.worker_id assignment (λ old. record old {
    worktree_path = assignment.worktree_path;
    branch_name = assignment.branch_name;
  });
})

unfoldable pub load_worktree : String → TeamTables → Option WorktreeAssignment
load_worktree worker_id s = get s.worktrees worker_id

unfoldable pub delete_worktree : String → Exec TeamTables (Unit {0})
delete_worktree worker_id = modify (λ s. record s { worktrees = remove s.worktrees worker_id })

unfoldable pub save_checkpoint : WorkerCheckpoint → Exec TeamTables (Unit {0})
save_checkpoint checkpoint = modify (λ s. record s {
  checkpoints = insert_or_update s.checkpoints checkpoint.checkpoint_id checkpoint (λ old.
      record old {
        step_index = checkpoint.step_index;
        state_summary = checkpoint.state_summary;
        tokens_consumed = checkpoint.tokens_consumed;
        context_snapshot = checkpoint.context_snapshot;
      });
})

-- `ORDER BY step_index DESC, created_at DESC`
abbrev pub later_checkpoint : WorkerCheckpoint → WorkerCheckpoint → Bool
later_checkpoint a b =
    ltb b.step_index a.step_index
    || nat_eq a.step_index b.step_index && ltb b.created_at a.created_at

unfoldable pub load_latest_checkpoint : String → TeamTables → Option WorkerCheckpoint
load_latest_checkpoint worker_id s =
    first_by later_checkpoint (keep_if (λ x. x.worker_id == worker_id) (values_of s.checkpoints))

unfoldable pub list_checkpoints : String → TeamTables → List WorkerCheckpoint
list_checkpoints worker_id s =
    sort_by (λ a b. later_checkpoint b a)
      (keep_if (λ x. x.worker_id == worker_id) (values_of s.checkpoints))
