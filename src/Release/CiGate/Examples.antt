-- ===== src/Release/CiGate/Examples.antt =====
-- A commit that passes the gate, and the theorem of this part at it.
use subagent_bridge.Prelude.{ℕ, String, ◌≡◌, refl, true, ◌==◌, if◌then◌else◌}
use subagent_bridge.Prelude.Exec.{Result, ok, err, runtime_error}
use subagent_bridge.Prelude.Int.{pos}
use subagent_bridge.Prelude.Text.{text_length}
use subagent_bridge.Storage.Json.{
  Json, Fields, integer, text, array, object, no_items, item, no_fields, field,
}
use subagent_bridge.Release.CiGate.{
  is_sha, is_main_run, succeeded, any_run, runs_url, verify_main_ci,
}
use subagent_bridge.Release.CiGate.Attested.{IsReleasable, verified_ci-IsReleasable}

abbrev commit : String
commit = "0123456789abcdef0123456789abcdef01234567"

abbrev job : String → Json
job name = object (
    field "name" (text name)
      (field "status" (text "completed") (field "conclusion" (text "success") no_fields)))

abbrev jobs : Fields
jobs =
    field "jobs"
      (array (
        item (job "Baseline tests / ubuntu-latest / Python 3.11") (
          item (job "Baseline tests / ubuntu-latest / Python 3.13") (
            item (job "Baseline tests / windows-latest / Python 3.11")
              (item (job "Baseline tests / windows-latest / Python 3.13") no_items)))))
      no_fields

abbrev push_run : Json
push_run = object (
    field "head_sha" (text commit) (
      field "head_branch" (text "main") (
        field "event" (text "push") (
          field "path" (text ".github/workflows/ci.yml") (
            field "status" (text "completed")
              (field "conclusion" (text "success") (field "id" (integer (pos 7)) no_fields)))))))

abbrev runs : Fields
runs = field "workflow_runs" (array (item push_run no_items)) no_fields

abbrev show : ℕ → String
show n = "7"

abbrev answers : String → Result Fields
answers url =
    if url == runs_url "rzqllh/SubagentBridge" commit
    then ok runs
    else if url
        == "https://api.github.com/repos/rzqllh/SubagentBridge/actions/runs/7/jobs?per_page=100&filter=latest"
    then ok jobs
    else err runtime_error

commit_passes : verify_main_ci answers show "rzqllh/SubagentBridge" commit "token" ≡ ok true
unfolding verify_main_ci is_sha any_run is_main_run succeeded text_length
commit_passes = refl

verified_ci-IsReleasable_example : IsReleasable answers show "rzqllh/SubagentBridge" commit
verified_ci-IsReleasable_example =
    verified_ci-IsReleasable answers show "rzqllh/SubagentBridge" commit "token" commit_passes
