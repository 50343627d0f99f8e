-- ===== src/Domain/Examples.antt =====
-- A task taken from CREATED to VERIFIED, and the theorems of this package at it.
use subagent_bridge.Prelude.{◌≡◌, ◌≢◌, refl, true, false, List, [], ◌∷◌, arith, eq_iff, length, ◌+◌}
use subagent_bridge.Prelude.Exec.{ok, err, stale_dispatch, permission_error}
use subagent_bridge.Prelude.Int.{pos}
use subagent_bridge.Prelude.Dict.{get, put}
use subagent_bridge.Domain.Contracts.{
  Task, Evidence, verified, pm, qa, executor, make_task, make_dispatch, is_identity, task_ok,
  dispatch_ok,
}
use subagent_bridge.Domain.Registry.{
  Principal, QaVerdict, Binding, register, require, issue, create_evidence, create_qa_verdict,
  require_verdict, evidence_ok, verdict_ok, new_verdict, new_evidence, is_registered,
}
use subagent_bridge.Domain.Engine.{
  TaskAggregate, new_aggregate, freeze, dispatch, process_succeed, qa_verify, mark_verified,
  change_tree,
}
use subagent_bridge.Domain.Dispatch.{
  Tracker, new_tracker, Start, attempt_of, ended, start_dispatch, complete_dispatch,
}
use subagent_bridge.Domain.Dispatch.Latest.{superseded_cannot_complete}
use subagent_bridge.Domain.Dispatch.Ledger
use subagent_bridge.Domain.Dispatch.Ledger.{
  run, completes_once, every_start_is_accounted, in_progress, attempts_are_numbered, latest_number,
}
use subagent_bridge.Domain.World.{
  World, after, new_world, Reach, start, next, register_call, issue_call, evidence_call,
  verdict_call, freeze_call, dispatch_call, succeed_call, verify_call, mark_call,
}
use subagent_bridge.Domain.World.Verified.{
  IsEarned, IsJudgedByAnother, verified-IsEarned, verified_by_another,
}
use subagent_bridge.Domain.World.Attempts.{IsCounted, attempts-IsCounted, stale_after_change}

abbrev demo : Task
demo = record {
  task_id = "task-1";
  run_id = "run-1";
  acceptance_criteria = "tests pass" ∷ [];
  tree_sha = "tree-a";
  policy_revision = "policy-1";
}

abbrev manager : Principal
manager = record { principal_id = "pm-1"; role = pm; registry_secret = 1 ∷ [] }

abbrev judge : Principal
judge = record { principal_id = "qa-1"; role = qa; registry_secret = 2 ∷ [] }

abbrev worker : Principal
worker = record { principal_id = "ex-1"; role = executor; registry_secret = 3 ∷ [] }

abbrev about : Binding
about = record { task_id = "task-1"; dispatch_id = "d-1"; tree_sha = "tree-a" }

abbrev proof : Evidence
proof = new_evidence "r-1" about "e-1"

abbrev verdict : QaVerdict
verdict = new_verdict judge (proof ∷ []) about true "v-1"

abbrev staffed : World
staffed = after (register_call "ex-1" executor (3 ∷ [])) (
    after (register_call "qa-1" qa (2 ∷ []))
      (after (register_call "pm-1" pm (1 ∷ [])) (new_world demo)))

abbrev sent : World
sent = after (dispatch_call manager "key-1" "d-1") (after (freeze_call manager) staffed)

abbrev finished : World
finished = after (mark_call judge) (
    after (verify_call judge verdict) (
      after (verdict_call judge (proof ∷ []) about true "v-1") (
        after (evidence_call "r-1" about "e-1") (
          after (issue_call worker about (pos 0) "r-1")
            (after (succeed_call "d-1" "tree-a") sent)))))

Reach-sent : Reach demo sent
Reach-sent =
    next
      (next
        (next
          (next (next start (register_call "pm-1" pm (1 ∷ [])) tt)
            (register_call "qa-1" qa (2 ∷ [])) tt)
          (register_call "ex-1" executor (3 ∷ [])) tt)
        (freeze_call manager) tt)
      (dispatch_call manager "key-1" "d-1") tt

Reach-finished : Reach demo finished
unfolding after register freeze dispatch process_succeed get
Reach-finished =
    next
      (next
        (next
          (next
            (next (next Reach-sent (succeed_call "d-1" "tree-a") tt)
              (issue_call worker about (pos 0) "r-1") refl)
            (evidence_call "r-1" about "e-1") tt)
          (verdict_call judge (proof ∷ []) about true "v-1") tt)
        (verify_call judge verdict) tt)
      (mark_call judge) tt

finished_is_verified : finished.agg.status ≡ verified
unfolding after register require is_registered issue create_evidence create_qa_verdict
    require_verdict evidence_ok verdict_ok new_aggregate freeze dispatch process_succeed qa_verify
    mark_verified make_dispatch dispatch_ok is_identity get put
finished_is_verified = refl

verified-IsEarned_example : IsEarned finished
verified-IsEarned_example = verified-IsEarned Reach-finished finished_is_verified

verified_by_another_example : IsJudgedByAnother finished
verified_by_another_example = verified_by_another Reach-finished finished_is_verified

attempts-IsCounted_example : IsCounted finished.agg
attempts-IsCounted_example = attempts-IsCounted Reach-finished

abbrev moved : TaskAggregate
moved = (change_tree "tree-b" sent.agg).1

moved_returns : change_tree "tree-b" sent.agg ≡ (ok tt, moved)
unfolding after register require is_registered new_aggregate freeze dispatch change_tree
    make_dispatch make_task task_ok dispatch_ok is_identity get put
moved_returns = refl

new_tree : "tree-b" ≢ sent.agg.task.tree_sha
unfolding after register require is_registered new_aggregate freeze dispatch make_dispatch
    dispatch_ok is_identity get put
new_tree = ground (arith, eq_iff "tree-b" "tree-a")

stale_after_change_example : process_succeed "d-1" "tree-a" moved ≡ (err stale_dispatch, moved)
stale_after_change_example =
    stale_after_change sent.agg moved "tree-b" moved_returns new_tree "d-1" "tree-a"

abbrev again : Start
again = record {
  dispatch_id = "d-2";
  task_id = "task-1";
  run_id = "run-1";
  tree_sha = "tree-a";
  policy_revision = "policy-1";
}

abbrev first : Start
first = record again { dispatch_id = "d-1" }

superseded_cannot_complete_example :
    complete_dispatch "task-1" "d-1" true
      (start_dispatch again (start_dispatch first new_tracker).1).1
    ≡ (err permission_error, (start_dispatch again (start_dispatch first new_tracker).1).1)
superseded_cannot_complete_example =
    superseded_cannot_complete again (start_dispatch first new_tracker).1 "d-1" true
      (ground (arith, eq_iff "d-2" "d-1"))

abbrev tracked : Tracker
tracked = (start_dispatch first new_tracker).1

tracked_completes :
    (complete_dispatch "task-1" "d-1" true tracked).0 ≡ ok (ended true (attempt_of first 1))
unfolding complete_dispatch start_dispatch get put
tracked_completes = refl

completes_once_example :
    complete_dispatch "task-1" "d-1" false (complete_dispatch "task-1" "d-1" true tracked).1
    ≡ (err permission_error, (complete_dispatch "task-1" "d-1" true tracked).1)
completes_once_example =
    completes_once "task-1" "d-1" "d-1" true false tracked (ended true (attempt_of first 1))
      tracked_completes

abbrev tracker_calls : List Ledger.Call
tracker_calls = Ledger.start again ∷ Ledger.complete "task-1" "d-1" true ∷ Ledger.start first ∷ []

every_start_is_accounted_example :
    length (run tracker_calls).history + in_progress (run tracker_calls) ≡ 2
every_start_is_accounted_example = every_start_is_accounted tracker_calls

attempts_are_numbered_example : latest_number "task-1" (run tracker_calls) ≡ 2
attempts_are_numbered_example = attempts_are_numbered "task-1" tracker_calls
