-- ===== src/Storage/Team/Examples.antt =====
-- A team with its queue, and the theorems of this part at them.
use subagent_bridge.Prelude.{◌≡◌, refl, none, some, List, [], ◌∷◌, arith}
use subagent_bridge.Prelude.Exec.{ok, err, value_error}
use subagent_bridge.Prelude.Int.{pos}
use subagent_bridge.Prelude.Text.{strips_to_nothing, text_length}
use subagent_bridge.Prelude.Dict.{get, put}
use subagent_bridge.Storage.Json.{Codec, null, text}
use subagent_bridge.Team.Contracts.{
  QueueItem, HandoffEvidence, WorkerCheckpoint, WorkerConfig, default_config, pending, completed,
}
use subagent_bridge.Storage.Team.{TeamTables}
use subagent_bridge.Storage.Team.Register.{
  lead_session, new_team, create_team_with_lead_once, register_worker_batch_once, worker_session,
  check_configs, insert_workers, batch_transaction,
}
use subagent_bridge.Storage.Team.Queue.{fetch_next_pending_task}
use subagent_bridge.Storage.Team.Handoff.{finalize_handoff_transaction, write_handoff}
use subagent_bridge.Storage.Team.Calls.{
  Call, insert_call, steer_call, cancel_call, resume_call, run, IsDeduplicated, final_items_stay,
  queue-IsDeduplicated,
}
use subagent_bridge.Storage.Team.Once.{finalized_once}
use subagent_bridge.Storage.Team.Next.{
  IsWaiting, IsGiven, fetched-IsGiven, IsResumed, latest-IsResumed,
}
use subagent_bridge.Storage.Team.Roster.{IsAllOrNothing, register_batch-IsAllOrNothing}
use subagent_bridge.Storage.Team.Leads.{
  Registration, create_call, single_call, batch_call, register_all, IsLed, register_all-IsLed,
}

abbrev empty : TeamTables
empty = record {
  teams = [];
  sessions = [];
  queue = [];
  worktrees = [];
  handoffs = [];
  messages = [];
  checkpoints = [];
}

abbrev simple : Codec
simple = record {
  lower = λ s. s;
  dumps = λ v. ok "{}";
  dumps_row = λ version stream seq key kind body prev. key;
  loads = λ s. null;
  sha256 = λ s. s;
}

abbrev worker : WorkerConfig
worker = default_config "w-1" "t-1" "worker"

abbrev helper : WorkerConfig
helper = default_config "w-2" "t-1" "qa"

abbrev registrations : List Registration
registrations =
    batch_call "t-1" "l-1" (worker ∷ helper ∷ []) 2 12
    ∷ single_call "t-1" (default_config "w-1" "t-1" "worker") none none 11
    ∷ create_call "t-1" "l-1" "Team" 10
    ∷ []

no_team-IsLed : IsLed empty
unfolding get
no_team-IsLed team_id team e = absurd (ground arith)

register_all-IsLed_example : IsLed (register_all (λ s. s) empty registrations)
register_all-IsLed_example = register_all-IsLed (λ s. s) empty registrations no_team-IsLed

abbrev led : TeamTables
led = record empty {
  teams = ("t-1", new_team "t-1" "l-1" "Team" 10) ∷ [];
  sessions = ("l-1", lead_session "t-1" "l-1" 10) ∷ [];
}

team_is_created :
    create_team_with_lead_once "t-1" "l-1" "Team" 10 empty
    ≡ (ok (new_team "t-1" "l-1" "Team" 10), led)
unfolding create_team_with_lead_once strips_to_nothing text_length get put
team_is_created = refl

batch_is_registered :
    (register_worker_batch_once "t-1" "l-1" (worker ∷ helper ∷ []) 2 12 led).0
    ≡ ok (worker_session "t-1" worker 12 ∷ worker_session "t-1" helper 12 ∷ [])
unfolding register_worker_batch_once check_configs batch_transaction insert_workers
    strips_to_nothing get put
batch_is_registered = refl

register_batch-IsAllOrNothing_example :
    IsAllOrNothing "t-1"
      (worker ∷ helper ∷ [])
      2
      led
      (register_worker_batch_once "t-1" "l-1" (worker ∷ helper ∷ []) 2 12 led)
register_batch-IsAllOrNothing_example =
    register_batch-IsAllOrNothing "t-1" "l-1" (worker ∷ helper ∷ []) 2 12 led

abbrev task : QueueItem
task = record {
  dispatch_id = "d-1";
  team_id = "t-1";
  from_session_id = "l-1";
  to_session_id = "w-1";
  task_id = "task-1";
  payload = null;
  status = pending;
  dedup_key = some "key-1";
  priority = pos 0;
  steering_instructions = [];
  created_at = 20;
  updated_at = 20;
}

abbrev urgent : QueueItem
urgent = record task { dispatch_id = "d-2"; dedup_key = none; priority = pos 5; created_at = 21 }

abbrev busy : TeamTables
busy = record led { queue = ("d-1", task) ∷ ("d-2", urgent) ∷ [] }

task_is_first : get busy.queue "d-1" ≡ some task
unfolding get
task_is_first = refl

task-IsWaiting : IsWaiting "t-1" "w-1" task
task-IsWaiting = record { of_team = refl; for_worker = refl; is_open = refl }

fetched-IsGiven_example : IsGiven "t-1" "w-1" busy task
fetched-IsGiven_example = fetched-IsGiven busy "t-1" "w-1" "d-1" task task_is_first task-IsWaiting

urgent_is_fetched : fetch_next_pending_task "t-1" "w-1" busy ≡ some urgent
unfolding fetch_next_pending_task
urgent_is_fetched = refl

abbrev note : WorkerCheckpoint
note = record {
  checkpoint_id = "c-1";
  worker_id = "w-1";
  team_id = "t-1";
  step_index = 3;
  state_summary = "half way";
  tokens_consumed = 100;
  context_snapshot = null;
  created_at = 30;
}

abbrev saved : TeamTables
saved = record busy {
  checkpoints = ("c-1", note) ∷ ("c-2", record note { checkpoint_id = "c-2"; step_index = 4 }) ∷ [];
}

note_is_saved : get saved.checkpoints "c-1" ≡ some note
unfolding get
note_is_saved = refl

latest-IsResumed_example : IsResumed "w-1" saved note
latest-IsResumed_example = latest-IsResumed saved "w-1" "c-1" note note_is_saved refl

-- The last call first: the copy of d-1 that arrives while d-1 is pending is not inserted.
abbrev calls : List Call
calls =
    insert_call (record task { dispatch_id = "d-4" })
    ∷ cancel_call "d-1" "l-1" "not needed" 24
    ∷ steer_call "l-1" "d-1" (some (text "be brief")) (some (pos 2)) 23
    ∷ insert_call (record task { dispatch_id = "d-3" })
    ∷ insert_call task
    ∷ []

no_item-IsDeduplicated : IsDeduplicated led
unfolding get
no_item-IsDeduplicated team key j k x y named hx = absurd (ground arith)

queue-IsDeduplicated_example : IsDeduplicated (run simple led calls)
queue-IsDeduplicated_example =
    queue-IsDeduplicated simple led calls (tt, (tt, (tt, (tt, (tt, tt))))) no_item-IsDeduplicated

abbrev done : QueueItem
done = record task { status = completed }

abbrev finished : TeamTables
finished = record led { queue = ("d-1", done) ∷ [] }

done_is_first : get finished.queue "d-1" ≡ some done
unfolding get
done_is_first = refl

final_items_stay_example :
    get
      (run simple finished (resume_call "d-1" 25 ∷ cancel_call "d-1" "l-1" "late" 24 ∷ [])).queue
      "d-1"
    ≡ some done
final_items_stay_example =
    final_items_stay simple finished (resume_call "d-1" 25 ∷ cancel_call "d-1" "l-1" "late" 24 ∷ [])
      "d-1" done done_is_first refl

abbrev evidence : HandoffEvidence
evidence = record {
  dispatch_id = "d-1";
  from_worker_id = "w-1";
  to_lead_id = "l-1";
  status = "COMPLETED";
  summary = "done";
  artifacts = [];
  metrics = null;
  submitted_at = 26;
}

handoff_is_finalized : (finalize_handoff_transaction "t-1" evidence none 26 busy).0 ≡ ok tt
unfolding finalize_handoff_transaction write_handoff get put
handoff_is_finalized = refl

-- The same dispatch, by another worker.
abbrev late : HandoffEvidence
late = record evidence { from_worker_id = "w-2"; summary = "done again"; submitted_at = 27 }

finalized_once_example :
    finalize_handoff_transaction "t-1" late
      (some completed)
      27
      (finalize_handoff_transaction "t-1" evidence none 26 busy).1
    ≡ (err value_error, (finalize_handoff_transaction "t-1" evidence none 26 busy).1)
finalized_once_example =
    finalized_once "t-1" "t-1" evidence late none (some completed) 26 27 busy refl
      handoff_is_finalized
