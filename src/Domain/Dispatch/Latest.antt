-- ===== src/Domain/Dispatch/Latest.antt =====
-- Only the latest active dispatch of a task completes, and only once.
use subagent_bridge.Prelude.{String, ◌≡◌, ◌≢◌, Bool, some, ==_refl, ==_ne, ◌==◌, if◌then◌else◌}
use subagent_bridge.Prelude.Exec.{err, permission_error}
use subagent_bridge.Prelude.Dict.{get, get-put}
use subagent_bridge.Domain.Dispatch.{
  Tracker, next_number, Start, attempt_of, start_dispatch, complete_dispatch,
}

-- After a start the task's only entry is the new attempt; entries of other tasks stay.
pub get-start_dispatch :
    (a : Start) (s : Tracker) (task : String)
    → get (start_dispatch a s).1.active_attempts task ≡ (
        if a.task_id == task
        then some (attempt_of a (next_number (get s.active_attempts a.task_id)))
        else get s.active_attempts task)
unfolding start_dispatch
get-start_dispatch a s task = rw get-put

-- A dispatch that was superseded by a later start of the same task cannot complete or fail it, and
-- the attempt changes nothing: the completion raises PermissionError.
pub superseded_cannot_complete :
    (a : Start) (s : Tracker) (old : String) (success : Bool)
    → a.dispatch_id ≢ old
    → complete_dispatch a.task_id old success (start_dispatch a s).1
      ≡ (err permission_error, (start_dispatch a s).1)
unfolding complete_dispatch
superseded_cannot_complete a s old success other =
    rw (get-start_dispatch a s a.task_id, ==_refl a.task_id, ==_ne a.dispatch_id old other)
