-- ===== src/Team/Contracts.antt =====
-- subagentbridge/domain/team_contracts.py: teams, sessions, queued work, worktrees, handoffs,
-- channel messages and checkpoints. A payload, a metric or a snapshot is a value of Json.
use subagent_bridge.Prelude.{ℕ, String, Bool, true, false, Option, none, some, List}
use subagent_bridge.Prelude.Int.{ℤ}
use subagent_bridge.Storage.Json.{Json}

pub data AgentRole : Type 0 where
  lead worker : AgentRole

pub data WorkerStatus : Type 0 where
  idle worker_running paused worker_interrupted worker_completed : WorkerStatus
  worker_failed archived : WorkerStatus

pub data QueueTaskStatus : Type 0 where
  pending dispatched running interrupted : QueueTaskStatus
  completed cancelled failed ambiguous : QueueTaskStatus

pub record WorkerConfig : Type 0 where
  pub worker_id : String
  pub team_id : String
  pub role : String
  pub harness : String
  pub model : Option String
  pub provider : Option String
  pub system_prompt : Option String
  pub working_dir : Option String
  pub effort : Option String
  pub budget_tokens : Option ℤ
  pub pid : Option ℕ
  pub process_create_time : Option ℕ
  pub tokens_consumed : ℕ
  pub fallback_to_native : Bool

-- `WorkerConfig(worker_id=…, team_id=…, role=…)` with the defaults.
abbrev pub default_config : String → String → String → WorkerConfig
default_config worker_id team_id role = record {
  worker_id = worker_id;
  team_id = team_id;
  role = role;
  harness = "native";
  model = none;
  provider = none;
  system_prompt = none;
  working_dir = none;
  effort = none;
  budget_tokens = none;
  pid = none;
  process_create_time = none;
  tokens_consumed = 0;
  fallback_to_native = false;
}

pub record AgentTeam : Type 0 where
  pub team_id : String
  pub lead_session_id : String
  pub title : String
  pub created_at : ℕ

pub record AgentSession : Type 0 where
  pub session_id : String
  pub role : AgentRole
  pub team_id : String
  pub status : WorkerStatus
  pub config : WorkerConfig
  pub created_at : ℕ
  pub updated_at : ℕ

abbrev pub or_default {ℓ} : {A : Type ℓ} → Option A → A → A
or_default none d = d
or_default (some a) d = a

-- `AgentSession.__init__`
unfoldable pub init_session :
    String
    → Option AgentRole
    → String
    → WorkerStatus
    → Option WorkerConfig
    → Option ℕ
    → Option ℕ
    → Option AgentRole
    → ℕ
    → AgentSession
init_session session_id role team_id status config created_at updated_at orca_role now = record {
  session_id = session_id;
  role = or_default role (or_default orca_role worker);
  team_id = team_id;
  status = status;
  config = or_default config (default_config "" "" "worker");
  created_at = or_default created_at now;
  updated_at = or_default updated_at now;
}

-- An entry of `steering_instructions`: guidance of a lead, or the reason of a cancellation.
pub data Steering : Type 0 where
  guidance_entry : Json → String → ℕ → Steering
  cancellation_entry : String → String → ℕ → Steering

pub record QueueItem : Type 0 where
  pub dispatch_id : String
  pub team_id : String
  pub from_session_id : String
  pub to_session_id : String
  pub task_id : String
  pub payload : Json
  pub status : QueueTaskStatus
  pub dedup_key : Option String
  pub priority : ℤ
  pub steering_instructions : List Steering
  pub created_at : ℕ
  pub updated_at : ℕ

pub record WorktreeAssignment : Type 0 where
  pub worker_id : String
  pub team_id : String
  pub worktree_path : String
  pub branch_name : String
  pub created_at : ℕ

pub record HandoffEvidence : Type 0 where
  pub dispatch_id : String
  pub from_worker_id : String
  pub to_lead_id : String
  pub status : String
  pub summary : String
  pub artifacts : List String
  pub metrics : Json
  pub submitted_at : ℕ

pub record ChannelMessage : Type 0 where
  pub message_id : String
  pub team_id : String
  pub from_session_id : String
  pub to_session_id : String
  pub content : String
  pub role : String
  pub created_at : ℕ

pub record WorkerCheckpoint : Type 0 where
  pub checkpoint_id : String
  pub worker_id : String
  pub team_id : String
  pub step_index : ℕ
  pub state_summary : String
  pub tokens_consumed : ℕ
  pub context_snapshot : Json
  pub created_at : ℕ

-- PENDING, DISPATCHED and RUNNING
abbrev pub is_unfinished : QueueTaskStatus → Bool
is_unfinished pending = true
is_unfinished dispatched = true
is_unfinished running = true
is_unfinished _ = false

-- COMPLETED and CANCELLED
abbrev pub is_final : QueueTaskStatus → Bool
is_final completed = true
is_final cancelled = true
is_final _ = false

-- FAILED and CANCELLED, which leave their deduplication key to another item.
abbrev pub is_retryable : QueueTaskStatus → Bool
is_retryable failed = true
is_retryable cancelled = true
is_retryable _ = false

abbrev pub is_pending : QueueTaskStatus → Bool
is_pending pending = true
is_pending _ = false

abbrev pub is_running : QueueTaskStatus → Bool
is_running running = true
is_running _ = false

abbrev pub is_lead : AgentRole → Bool
is_lead lead = true
is_lead worker = false

abbrev pub is_archived : WorkerStatus → Bool
is_archived archived = true
is_archived _ = false
