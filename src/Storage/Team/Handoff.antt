-- ===== src/Storage/Team/Handoff.antt =====
-- subagentbridge/storage/team_store.py: handoffs, as one process sees them: the lock of the store makes
-- a method one step. Its reads are outside the write lock of the file, which other processes take.
use subagent_bridge.Prelude.{ℕ, String, Option, none, some, List, keep_if, map, is_some, ltb, ◌==◌}
use subagent_bridge.Prelude.Exec.{
  Exec, gets, modify, state, raise_if, or_raise, transaction, ◌>>=◌, ◌>>◌, value_error, key_error,
}
use subagent_bridge.Prelude.Dict.{Dict, get, put}
use subagent_bridge.Prelude.Order.{sort_by}
use subagent_bridge.Team.Contracts.{
  QueueTaskStatus, QueueItem, AgentSession, HandoffEvidence, idle, is_final,
}
use subagent_bridge.Storage.Team.{HandoffRow, TeamTables, insert_or_update, values_of}

abbrev pub handoff_row : String → HandoffEvidence → HandoffRow
handoff_row team_id evidence = record { team_id = team_id; evidence = evidence }

unfoldable pub save_handoff : String → HandoffEvidence → Exec TeamTables (Unit {0})
save_handoff team_id evidence = modify (λ s. record s {
  handoffs = insert_or_update s.handoffs evidence.dispatch_id (handoff_row team_id evidence) (λ old.
      record old {
        evidence = record evidence {
          dispatch_id = old.evidence.dispatch_id;
          from_worker_id = old.evidence.from_worker_id;
          to_lead_id = old.evidence.to_lead_id;
        };
      });
})

-- `UPDATE simpul_queue SET status = ?, updated_at = ? WHERE dispatch_id = ?`
abbrev pub set_status :
    Option QueueItem → String → QueueTaskStatus → ℕ → Dict QueueItem → Dict QueueItem
set_status none id status now rows = rows
set_status (some item) id status now rows =
    put rows id (record item { status = status; updated_at = now })

abbrev pub update_queue : String → Option QueueTaskStatus → ℕ → TeamTables → TeamTables
update_queue id none now s = s
update_queue id (some status) now s = record s {
  queue = set_status (get s.queue id) id status now s.queue;
}

-- `UPDATE simpul_sessions SET status = 'IDLE', updated_at = ? WHERE session_id = ?`
abbrev pub set_idle : Option AgentSession → String → ℕ → Dict AgentSession → Dict AgentSession
set_idle none id now rows = rows
set_idle (some session) id now rows =
    put rows id (record session { status = idle; updated_at = now })

abbrev pub update_session : String → ℕ → TeamTables → TeamTables
update_session id now s = record s { sessions = set_idle (get s.sessions id) id now s.sessions }

-- The writes, after the worker of the dispatch was read.
unfoldable pub write_handoff :
    String → HandoffEvidence → Option QueueTaskStatus → String → ℕ → Exec TeamTables (Unit {0})
write_handoff team_id evidence status worker_id now = do
  old ← gets (λ s. get s.handoffs evidence.dispatch_id)
  raise_if (is_some old) value_error
  let row = handoff_row team_id evidence
  modify (λ s. record s { handoffs = put s.handoffs evidence.dispatch_id row })
  modify (update_queue evidence.dispatch_id status now)
  modify (update_session worker_id now)

unfoldable pub finalize_handoff_transaction :
    String → HandoffEvidence → Option QueueTaskStatus → ℕ → Exec TeamTables (Unit {0})
finalize_handoff_transaction team_id evidence status now = transaction (do
  s ← state
  item ← or_raise (get s.queue evidence.dispatch_id) key_error
  raise_if (is_final item.status) value_error
  raise_if (is_some (get s.handoffs evidence.dispatch_id)) value_error
  write_handoff team_id evidence status item.to_session_id now)

unfoldable pub list_handoffs_by_team : String → TeamTables → List HandoffEvidence
list_handoffs_by_team team_id s =
    map (λ r. r.evidence)
      (sort_by (λ a b. ltb a.evidence.submitted_at b.evidence.submitted_at)
        (keep_if (λ r. r.team_id == team_id) (values_of s.handoffs)))
