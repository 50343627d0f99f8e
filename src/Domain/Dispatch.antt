-- ===== src/Domain/Dispatch.antt =====
-- subagentbridge/domain/dispatch.py: the dispatch idempotency tracker. `_active_attempts` is a
-- dictionary from task to its latest attempt, `_history` what was superseded or has ended.
pub mod Ledger
pub mod Latest
use subagent_bridge.Prelude.{
  ℕ, ◌+◌, String, Bool, true, false, not, Option, none, some, List, [], ◌∷◌, ◌++◌, ◌==◌, ◌!=◌,
  if◌then◌else◌, ◌≡◌, refl,
}
use subagent_bridge.Prelude.Exec.{
  Result, ok, err, Exec, pure, raise, gets, modify, state, raise_if, or_raise, ◌>>=◌, ◌>>◌,
  key_error, permission_error,
}
use subagent_bridge.Prelude.Dict.{Dict, get, put}

pub data DispatchStatus : Type 0 where
  initialized active completed failed superseded : DispatchStatus

pub record DispatchAttempt : Type 0 where
  pub dispatch_id : String
  pub task_id : String
  pub run_id : String
  pub attempt_number : ℕ
  pub tree_sha : String
  pub policy_revision : String
  pub status : DispatchStatus

pub record Tracker : Type 0 where
  pub active_attempts : Dict DispatchAttempt
  pub history : List DispatchAttempt

abbrev pub new_tracker : Tracker
new_tracker = record { active_attempts = []; history = [] }

abbrev pub is_active : DispatchStatus → Bool
is_active active = true
is_active _ = false

-- `(prior.attempt_number + 1) if prior else 1`
abbrev pub next_number : Option DispatchAttempt → ℕ
next_number none = 1
next_number (some prior) = prior.attempt_number + 1

-- The arguments of `start_dispatch`.
pub record Start : Type 0 where
  pub dispatch_id : String
  pub task_id : String
  pub run_id : String
  pub tree_sha : String
  pub policy_revision : String

abbrev pub attempt_of : Start → ℕ → DispatchAttempt
attempt_of a number = record {
  dispatch_id = a.dispatch_id;
  task_id = a.task_id;
  run_id = a.run_id;
  attempt_number = number;
  tree_sha = a.tree_sha;
  policy_revision = a.policy_revision;
  status = active;
}

-- The history with the prior attempt superseded, if it is still active.
abbrev pub supersede : Option DispatchAttempt → List DispatchAttempt → List DispatchAttempt
supersede none history = history
supersede (some prior) history =
    if is_active prior.status then history ++ record prior { status = superseded } ∷ [] else history

unfoldable pub start_dispatch : Start → Exec Tracker DispatchAttempt
start_dispatch a = do
  prior ← gets (λ s. get s.active_attempts a.task_id)
  modify (λ s. record s { history = supersede prior s.history })
  let attempt = attempt_of a (next_number prior)
  modify (λ s. record s { active_attempts = put s.active_attempts a.task_id attempt })
  pure attempt

unfoldable pub validate_active_dispatch : String → String → Exec Tracker DispatchAttempt
validate_active_dispatch task_id dispatch_id = do
  found ← gets (λ s. get s.active_attempts task_id)
  latest ← or_raise found key_error
  raise_if (latest.dispatch_id != dispatch_id) permission_error
  raise_if (not (is_active latest.status)) permission_error
  pure latest

-- `COMPLETED if success else FAILED`
abbrev pub ended : Bool → DispatchAttempt → DispatchAttempt
ended success a = record a { status = if success then completed else failed }

unfoldable pub complete_dispatch : String → String → Bool → Exec Tracker DispatchAttempt
unfolding validate_active_dispatch
complete_dispatch task_id dispatch_id success = do
  latest ← validate_active_dispatch task_id dispatch_id
  let done = ended success latest
  modify (λ s. record s { active_attempts = put s.active_attempts task_id done })
  modify (λ s. record s { history = s.history ++ done ∷ [] })
  pure done
