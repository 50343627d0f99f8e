-- ===== src/Storage/Team/Once.antt =====
-- A handoff is finalized at most once.
use subagent_bridge.Prelude.{
  ℕ, String, ◌≡◌, inl, inr, refl, sym, ap, ◌∙◌, Option, none, some, arith, Bool-cases,
}
use subagent_bridge.Prelude.Exec.{ok, err, value_error}
use subagent_bridge.Prelude.Dict.{get, get-put_self}
use subagent_bridge.Team.Contracts.{QueueItem, QueueTaskStatus, HandoffEvidence, is_final}
use subagent_bridge.Storage.Team.{HandoffRow, TeamTables}
use subagent_bridge.Storage.Team.Handoff.{handoff_row, finalize_handoff_transaction}
use subagent_bridge.Storage.Team.Steps.{handed_over, finalize_cases}

finalize_refused :
    (team_id : String) (evidence : HandoffEvidence) (status : Option QueueTaskStatus) (now : ℕ)
    (s : TeamTables) (x : QueueItem) (row : HandoffRow)
    → get s.queue evidence.dispatch_id ≡ some x
    → get s.handoffs evidence.dispatch_id ≡ some row
    → finalize_handoff_transaction team_id evidence status now s ≡ (err value_error, s)
unfolding finalize_handoff_transaction
finalize_refused team_id evidence status now s x row found there =
    elim (Bool-cases (is_final x.status)) [
      | inl over ↦ rw (found, over) refl
      | inr still ↦ rw (found, still, there) refl
    ]

-- The dispatch is still in the queue after its handoff.
still_queued :
    (team_id : String) (evidence : HandoffEvidence) (status : Option QueueTaskStatus)
    (old : QueueItem) (now : ℕ) (s : TeamTables)
    → get s.queue evidence.dispatch_id ≡ some old
    → (x : QueueItem) × (get
          (handed_over team_id evidence status old now s).queue
          evidence.dispatch_id
        ≡ some x)
still_queued team_id evidence none old now s found = (old, found)
still_queued team_id evidence (some status) old now s found =
    let new = record old { status = status; updated_at = now } in
    (new, rw found (get-put_self s.queue evidence.dispatch_id new))

row_written :
    (team_id : String) (evidence : HandoffEvidence) (status : Option QueueTaskStatus)
    (old : QueueItem) (now : ℕ) (s : TeamTables)
    → get (handed_over team_id evidence status old now s).handoffs evidence.dispatch_id
      ≡ some (handoff_row team_id evidence)
row_written team_id evidence none old now s =
    get-put_self s.handoffs evidence.dispatch_id (handoff_row team_id evidence)
row_written team_id evidence (some status) old now s =
    get-put_self s.handoffs evidence.dispatch_id (handoff_row team_id evidence)

-- After a handoff was finalized, a second one of the same dispatch raises ValueError and changes
-- nothing, whatever its evidence, its team, its status and its time.
pub finalized_once :
    (team_id team_id' : String) (evidence evidence' : HandoffEvidence)
    (status status' : Option QueueTaskStatus) (now now' : ℕ) (s : TeamTables)
    → evidence'.dispatch_id ≡ evidence.dispatch_id
    → (finalize_handoff_transaction team_id evidence status now s).0 ≡ ok tt
    → finalize_handoff_transaction team_id' evidence' status' now'
        (finalize_handoff_transaction team_id evidence status now s).1
      ≡ (err value_error, (finalize_handoff_transaction team_id evidence status now s).1)
finalized_once team_id team_id' evidence evidence' status status' now now' s same e =
    elim (finalize_cases team_id evidence status now s) [
      | inl (x, refused) ↦ absurd (ground (arith, sym (ap (λ r. r.0) refused) ∙ e))
      | inr (old, found, still, fresh, done) ↦
          let t = handed_over team_id evidence status old now s in
          let (x, queued) = still_queued team_id evidence status old now s found in
          rw done (
            finalize_refused team_id' evidence' status' now' t x (handoff_row team_id evidence)
              (ap (λ i. get t.queue i) same ∙ queued)
              (ap (λ i. get t.handoffs i) same ∙ row_written team_id evidence status old now s))
    ]
