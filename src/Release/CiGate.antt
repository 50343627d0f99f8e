-- ===== src/Release/CiGate.antt =====
-- subagentbridge/release/ci_gate.py: `verify_main_ci`. The HTTP getter is a parameter: a URL gives
-- the members of the mapping that was returned, or an exception. `show` writes a number.
mod Examples
pub mod Green
pub mod Attested
use Prim.Native.String.{String, ◌++◌ as ◌+++◌}
use subagent_bridge.Prelude.{
  ℕ, zero, suc, Bool, true, false, not, ◌&&◌, ◌||◌, Option, none, some, List, [], ◌∷◌, all, has,
  leb, nat_eq, ◌==◌, ◌!=◌, if◌then◌else◌,
}
use subagent_bridge.Prelude.Exec.{Error, Result, ok, err, value_error, type_error}
use subagent_bridge.Prelude.Int.{ℤ, pos, negsuc}
use subagent_bridge.Prelude.Text.{codes, is_blank, text_length}
use subagent_bridge.Storage.Json.{
  Json, Items, Fields, null, boolean, integer, float, text, array, object, other, no_items, item,
  no_fields, field, odd_key,
}

-- `_REQUIRED_JOBS`
abbrev pub required_jobs : List String
required_jobs =
    "Baseline tests / ubuntu-latest / Python 3.11" ∷ "Baseline tests / ubuntu-latest / Python 3.13"
    ∷ "Baseline tests / windows-latest / Python 3.11"
    ∷ "Baseline tests / windows-latest / Python 3.13" ∷ []

-- `payload.get(key)` of a JSON object, whose keys differ; None and a missing key are `null`.
abbrev pub member : Fields → String → Json
member no_fields key = null
member (field k v rest) key = let found = member rest key in if k == key then v else found
member (odd_key rest) key = member rest key

-- `value == text`
abbrev pub is_text : String → Json → Bool
is_text t (text s) = s == t
is_text t _ = false

abbrev pub is_hex : ℕ → Bool
is_hex c = leb 48 c && leb c 57 || leb 97 c && leb c 102

-- `re.fullmatch(r"[0-9a-f]{40}", commit_sha)`
unfoldable pub is_sha : String → Bool
is_sha s = nat_eq (text_length s) 40 && all is_hex (codes s)

-- A completed, successful push run of the workflow on main, for this commit.
unfoldable pub is_main_run : String → Fields → Bool
is_main_run commit_sha run =
    is_text commit_sha (member run "head_sha")
    && is_text "main" (member run "head_branch")
    && is_text "push" (member run "event")
    && is_text ".github/workflows/ci.yml" (member run "path")
    && is_text "completed" (member run "status")
    && is_text "success" (member run "conclusion")

-- `type(run_id) is int and run_id > 0`
abbrev pub positive : Json → Option ℕ
positive (integer (pos (suc n))) = some (suc n)
positive _ = none

-- The id of a run that counts; the loop goes on to the next run where there is none.
abbrev pub run_id : String → Json → Option ℕ
run_id commit_sha (object run) =
    let id = positive (member run "id") in if is_main_run commit_sha run then id else none
run_id commit_sha _ = none

abbrev pub is_success : Fields → Bool
is_success job =
    is_text "completed" (member job "status") && is_text "success" (member job "conclusion")

-- A name goes into the set of names; a list or a mapping cannot be in a set. Only texts can be
-- required, so that other names are left out.
abbrev pub add_name : Json → Result (List String) → Result (List String)
add_name (text name) (ok names) = ok (name ∷ names)
add_name (array xs) (ok names) = err type_error
add_name (object fs) (ok names) = err type_error
add_name _ (ok names) = ok names
add_name name (err e) = err e

-- The names of the jobs that succeeded.
unfoldable pub succeeded : Items → Result (List String)
succeeded no_items = ok []
succeeded (item (object job) rest) =
    let names = succeeded rest in
    if is_success job then add_name (member job "name") names else names
succeeded (item _ rest) = succeeded rest

abbrev pub jobs_of : Json → Result (List String)
jobs_of (array jobs) = succeeded jobs
jobs_of _ = err value_error

abbrev pub and_jobs : Result Fields → Result (List String)
and_jobs (ok payload) = jobs_of (member payload "jobs")
and_jobs (err e) = err e

-- `_REQUIRED_JOBS.issubset(completed)`
abbrev pub has_all : List String → Bool
has_all names = all (λ job. has job names) required_jobs

-- The run is enough, or the loop goes on.
abbrev pub or_next : Result (List String) → Result Bool → Result Bool
or_next (ok names) next = if has_all names then ok true else next
or_next (err e) next = err e

abbrev pub base_url : String → String
base_url repo = "https://api.github.com/repos/" +++ repo

abbrev pub runs_url : String → String → String
runs_url repo commit_sha =
    base_url repo
    +++ "/actions/workflows/ci.yml/runs?head_sha="
    +++ commit_sha
    +++ "&branch=main&event=push&per_page=100"

module _ (get_json : String → Result Fields) (show : ℕ → String) where
  abbrev pub jobs_url : String → ℕ → String
  jobs_url repo id =
      base_url repo +++ "/actions/runs/" +++ show id +++ "/jobs?per_page=100&filter=latest"

  abbrev pub try_run : String → Option ℕ → Result Bool → Result Bool
  try_run repo none next = next
  try_run repo (some id) next = or_next (and_jobs (get_json (jobs_url repo id))) next

  -- The loop over the runs.
  unfoldable pub any_run : String → String → Items → Result Bool
  any_run repo commit_sha no_items = ok false
  any_run repo commit_sha (item run rest) =
      try_run repo (run_id commit_sha run) (any_run repo commit_sha rest)

  abbrev pub runs_of : String → String → Json → Result Bool
  runs_of repo commit_sha (array runs) = any_run repo commit_sha runs
  runs_of repo commit_sha _ = err value_error

  abbrev pub and_runs : String → String → Result Fields → Result Bool
  and_runs repo commit_sha (ok payload) = runs_of repo commit_sha (member payload "workflow_runs")
  and_runs repo commit_sha (err e) = err e

  unfoldable pub verify_main_ci : String → String → String → Result Bool
  verify_main_ci repo commit_sha token =
      if repo != "rzqllh/SubagentBridge" || not (is_sha commit_sha) || is_blank token
      then err value_error
      else and_runs repo commit_sha (get_json (runs_url repo commit_sha))
