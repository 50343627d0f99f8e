-- ===== src/Release/Readiness.antt =====
-- subagentbridge/release/readiness.py: the inventory of release evidence.
mod Examples
pub mod Claims
use subagent_bridge.Prelude.{
  String, Bool, true, false, not, Option, none, some, List, [], ◌∷◌, keep_if, ◌==◌,
}
use subagent_bridge.Prelude.Dict.{Dict, get}

-- `REQUIRED`
abbrev pub required_evidence : List String
required_evidence =
    "clean_windows_setup" ∷ "native_no_orca_e2e" ∷ "local_9router_authenticated"
    ∷ "independent_qa_exact_tree" ∷ "human_gate_negative" ∷ "crash_restart_recovery"
    ∷ "skills_tamper_denial" ∷ "permission_bypass_denial" ∷ "worker_concurrency" ∷ "security_review"
    ∷ "ci_linux" ∷ "ci_windows" ∷ "windows_process_tree_cleanup" ∷ []

pub record ReleaseDecision : Type 0 where
  pub status : String
  pub missing : List String
  pub rejected : List String

-- `evidence.get(k) == status`
abbrev pub has_status : String → Option String → Bool
has_status status none = false
has_status status (some s) = s == status

abbrev pub decide_release : List String → List String → ReleaseDecision
decide_release missing (k ∷ ks) = record {
  status = "REJECTED";
  missing = missing;
  rejected = k ∷ ks;
}
decide_release (k ∷ ks) [] = record { status = "UNVERIFIED"; missing = k ∷ ks; rejected = [] }
decide_release [] [] = record { status = "CLAIMS_PRESENT_UNVERIFIED"; missing = []; rejected = [] }

-- `ReleaseGate.evaluate`
unfoldable pub evaluate : Dict String → ReleaseDecision
evaluate evidence =
    decide_release (keep_if (λ k. not (has_status "PASS" (get evidence k))) required_evidence)
      (keep_if (λ k. has_status "REJECTED" (get evidence k)) required_evidence)
