-- ===== src/Release/CiGate/Attested.antt =====
-- A commit passes the gate only with a run of its own that succeeded on all platforms.
use Prim.Native.String.{◌++◌ as ◌+++◌}
use subagent_bridge.Prelude.{
  ℕ, suc, String, true, not, ◌||◌, ◌≡◌, inl, inr, refl, sym, ◌∙◌, subst, List, has, arith, ◌!=◌,
  ==→eq, Bool-cases, Option-cases,
}
use subagent_bridge.Prelude.Exec.{Result, ok, err, Result-cases}
use subagent_bridge.Prelude.Text.{is_blank}
use subagent_bridge.Storage.Json.{
  Json, Items, Fields, null, boolean, integer, float, text, array, object, other, no_items, item,
}
use subagent_bridge.Release.CiGate.{
  member, is_sha, run_id, succeeded, jobs_of, and_jobs, has_all, runs_url, jobs_url, any_run,
  runs_of, verify_main_ci,
}
use subagent_bridge.Release.CiGate.Green.{
  IsItem, here, there, IsGreenRun, IsGreenJob, IsCounted, run_id-IsCounted, succeeded-IsGreenJob,
}

-- The name of the job of one platform.
abbrev platform_job : String → String → String
platform_job os version = "Baseline tests / " +++ os +++ " / Python " +++ version

-- All four platforms have a job that succeeded.
pub record IsGreenMatrix (jobs : Items) : Type 0 where
  pub ubuntu_11 : IsGreenJob (platform_job "ubuntu-latest" "3.11") jobs
  pub ubuntu_13 : IsGreenJob (platform_job "ubuntu-latest" "3.13") jobs
  pub windows_11 : IsGreenJob (platform_job "windows-latest" "3.11") jobs
  pub windows_13 : IsGreenJob (platform_job "windows-latest" "3.13") jobs

matrix_green :
    (jobs : Items) (names : List String)
    → succeeded jobs ≡ ok names
    → has_all names ≡ true
    → IsGreenMatrix jobs
matrix_green jobs names h k =
    let green = λ (name : String) (found : has name names ≡ true).
      succeeded-IsGreenJob jobs names name h found in
    record {
      ubuntu_11 = green (platform_job "ubuntu-latest" "3.11") (ground (arith, k));
      ubuntu_13 = green (platform_job "ubuntu-latest" "3.13") (ground (arith, k));
      windows_11 = green (platform_job "windows-latest" "3.11") (ground (arith, k));
      windows_13 = green (platform_job "windows-latest" "3.13") (ground (arith, k));
    }

-- The answer for the jobs of a run.
jobs_cases :
    (r : Result Fields) (names : List String)
    → and_jobs r ≡ ok names
    → (payload : Fields) × (jobs : Items) × (r ≡ ok payload)
      × (member payload "jobs" ≡ array jobs)
      × (succeeded jobs ≡ ok names)
jobs_cases (err e) names h = absurd (ground (arith, h))
jobs_cases (ok payload) names h =
    let (jobs, is_list, done) = list_of (member payload "jobs") h in
    (payload, jobs, refl, is_list, done)
  where
    list_of :
        (v : Json)
        → jobs_of v ≡ ok names
        → (jobs : Items) × (v ≡ array jobs) × (succeeded jobs ≡ ok names)
    list_of (array jobs) h = (jobs, refl, h)
    list_of null h = absurd (ground (arith, h))
    list_of (boolean b) h = absurd (ground (arith, h))
    list_of (integer n) h = absurd (ground (arith, h))
    list_of (float x) h = absurd (ground (arith, h))
    list_of (text x) h = absurd (ground (arith, h))
    list_of (object fs) h = absurd (ground (arith, h))
    list_of other h = absurd (ground (arith, h))

module _ (get_json : String → Result Fields) (show : ℕ → String) where
  -- One of these runs is green for the commit, and so are its jobs on all platforms.
  pub record IsAttested (repo commit_sha : String) (runs : Items) : Type 0 where
    pub run : Fields
    pub number : ℕ
    pub answer : Fields
    pub jobs : Items
    pub listed : IsItem (object run) runs
    pub green_run : IsGreenRun commit_sha number run
    pub answered : get_json (jobs_url get_json show repo (suc number)) ≡ ok answer
    pub has_jobs : member answer "jobs" ≡ array jobs
    pub green_jobs : IsGreenMatrix jobs

  counted-IsAttested :
      (repo commit_sha : String) (run : Json) (rest : Items) (id : ℕ) (names : List String)
      → IsCounted commit_sha id run
      → and_jobs (get_json (jobs_url get_json show repo id)) ≡ ok names
      → has_all names ≡ true
      → IsAttested repo commit_sha (item run rest)
  counted-IsAttested repo commit_sha run rest id names c h k =
      let (answer, jobs, answered, is_list, done) =
        jobs_cases (get_json (jobs_url get_json show repo id)) names h in
      record {
        run = c.fields;
        number = c.number;
        answer = answer;
        jobs = jobs;
        listed = subst (λ v. IsItem v (item run rest)) c.is_object here;
        green_run = c.green;
        answered =
            subst (λ i. get_json (jobs_url get_json show repo i) ≡ ok answer) c.numbered answered;
        has_jobs = is_list;
        green_jobs = matrix_green jobs names done k;
      }

  any_run-IsAttested :
      (repo commit_sha : String) (runs : Items)
      → any_run get_json show repo commit_sha runs ≡ ok true
      → IsAttested repo commit_sha runs
  unfolding any_run
  any_run-IsAttested repo commit_sha no_items h = absurd (ground (arith, h))
  any_run-IsAttested repo commit_sha (item run rest) h =
      let loop = any_run get_json show repo commit_sha in
      elim (Option-cases (run_id commit_sha run)) [
        | inl skipped ↦
            let next : loop (item run rest) ≡ loop rest = rw skipped refl in
            later (any_run-IsAttested repo commit_sha rest (sym next ∙ h))
        | inr (id, counts) ↦
            elim (Result-cases (and_jobs (get_json (jobs_url get_json show repo id)))) [
              | inr (e, bad) ↦
                  let stopped : loop (item run rest) ≡ err e = rw (counts, bad) refl in
                  absurd (ground (arith, sym stopped ∙ h))
              | inl (names, jobs) ↦ elim (Bool-cases (has_all names)) [
                | inl complete ↦
                    counted-IsAttested repo commit_sha run rest id names
                      (run_id-IsCounted commit_sha run id counts) jobs complete
                | inr lacking ↦
                    let next : loop (item run rest) ≡ loop rest = rw (counts, jobs, lacking) refl in
                    later (any_run-IsAttested repo commit_sha rest (sym next ∙ h))
              ]
            ]
      ]
    where
      later : IsAttested repo commit_sha rest → IsAttested repo commit_sha (item run rest)
      later r = record {
        run = r.run;
        number = r.number;
        answer = r.answer;
        jobs = r.jobs;
        listed = there r.listed;
        green_run = r.green_run;
        answered = r.answered;
        has_jobs = r.has_jobs;
        green_jobs = r.green_jobs;
      }

  -- The repository is the program's own, the commit is a text of 40 hexadecimal digits, and one of
  -- the runs that the API lists for the commit is attested.
  abbrev pub IsReleasable : String → String → Type 0
  IsReleasable repo commit_sha =
      (repo ≡ "rzqllh/SubagentBridge")
      × (is_sha commit_sha ≡ true)
      × (payload : Fields) × (runs : Items) × (get_json (runs_url repo commit_sha) ≡ ok payload)
      × (member payload "workflow_runs" ≡ array runs)
      × IsAttested repo commit_sha runs

  array_of :
      (repo commit_sha : String) (v : Json)
      → runs_of get_json show repo commit_sha v ≡ ok true
      → (runs : Items) × (v ≡ array runs) × (any_run get_json show repo commit_sha runs ≡ ok true)
  array_of repo commit_sha (array runs) h = (runs, refl, h)
  array_of repo commit_sha null h = absurd (ground (arith, h))
  array_of repo commit_sha (boolean b) h = absurd (ground (arith, h))
  array_of repo commit_sha (integer n) h = absurd (ground (arith, h))
  array_of repo commit_sha (float x) h = absurd (ground (arith, h))
  array_of repo commit_sha (text x) h = absurd (ground (arith, h))
  array_of repo commit_sha (object fs) h = absurd (ground (arith, h))
  array_of repo commit_sha other h = absurd (ground (arith, h))

  -- A commit passes only if the API lists a completed and successful push run of the CI workflow on
  -- main for exactly this commit, and the jobs of that run have a completed and successful one for
  -- Ubuntu and for Windows under both Python 3.11 and 3.13.
  pub verified_ci-IsReleasable :
      (repo commit_sha token : String)
      → verify_main_ci get_json show repo commit_sha token ≡ ok true
      → IsReleasable repo commit_sha
  unfolding verify_main_ci
  verified_ci-IsReleasable repo commit_sha token h =
      elim (Bool-cases
        (repo != "rzqllh/SubagentBridge" || not (is_sha commit_sha) || is_blank token)) [
          | inl odd ↦ absurd (ground (arith, odd, h))
          | inr trusted ↦ elim (Result-cases (get_json (runs_url repo commit_sha))) [
            | inr (e, bad) ↦
                let stopped : verify_main_ci get_json show repo commit_sha token ≡ err e =
                  rw (trusted, bad) refl in
                absurd (ground (arith, sym stopped ∙ h))
            | inl (payload, answer) ↦
                let listed : verify_main_ci get_json show repo commit_sha token
                    ≡ runs_of get_json show repo commit_sha (member payload "workflow_runs") =
                  rw (trusted, answer) refl in
                let (runs, is_list, some_run) =
                  array_of repo commit_sha (member payload "workflow_runs") (sym listed ∙ h) in
                (
                  ==→eq repo "rzqllh/SubagentBridge" (ground (arith, trusted)),
                  ground (arith, trusted),
                  payload,
                  runs,
                  answer,
                  is_list,
                  any_run-IsAttested repo commit_sha runs some_run,
                )
          ]
        ]
