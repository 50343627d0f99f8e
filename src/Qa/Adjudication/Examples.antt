-- ===== src/Qa/Adjudication/Examples.antt =====
-- A submission to the gate, and the theorem of this part at it.
use subagent_bridge.Prelude.{◌≡◌, refl, true, false, [], ◌∷◌, String}
use subagent_bridge.Prelude.Exec.{ok}
use subagent_bridge.Prelude.Int.{pos}
use subagent_bridge.Prelude.Text.{strips_to_nothing, text_length}
use subagent_bridge.Prelude.Dict.{Dict, get, put}
use subagent_bridge.Domain.Contracts.{Evidence, qa}
use subagent_bridge.Domain.Registry.{
  Principal, Binding, IdentityRegistry, ReceiptIssuerRegistry, ExecutorReceipt, new_evidence,
  new_verdict, create_qa_verdict, evidence_ok, is_registered,
}
use subagent_bridge.Qa.Adjudication.{
  QaEvidenceGate, Submission, new_gate, test_path_ok, check, verified_outcome,
}
use subagent_bridge.Qa.Adjudication.Backed.{IsBacked, check-IsBacked}

abbrev judge : Principal
judge = record { principal_id = "qa-1"; role = qa; registry_secret = 2 ∷ [] }

abbrev staff : IdentityRegistry
staff = record { members = ("qa-1", (qa, 2 ∷ [])) ∷ [] }

abbrev about : Binding
about = record { task_id = "task-1"; dispatch_id = "d-1"; tree_sha = "tree-a" }

abbrev proof : Evidence
proof = new_evidence "r-1" about "e-1"

abbrev receipt : ExecutorReceipt
receipt = record {
  receipt_id = "r-1";
  issuer_id = "ex-1";
  task_id = "task-1";
  dispatch_id = "d-1";
  tree_sha = "tree-a";
  exit_code = pos 0;
}

abbrev registry : ReceiptIssuerRegistry
registry = record {
  receipts = ("r-1", receipt) ∷ [];
  evidence = ("e-1", proof) ∷ [];
  verdicts = [];
}

abbrev pin : Dict String
pin = ("tests/test_a.py", "0123456789abcdef0123456789abcdef0123456789abcdef0123456789abcdef") ∷ []

abbrev gate : QaEvidenceGate
gate = record { criteria = "tests pass" ∷ []; test_hashes = pin }

gate_is_new : new_gate ("tests pass" ∷ []) pin ≡ ok gate
unfolding new_gate test_path_ok strips_to_nothing text_length
gate_is_new = refl

climbing_is_refused : test_path_ok "tests/../secret" ≡ false
unfolding test_path_ok
climbing_is_refused = refl

abbrev submission : Submission
submission = record {
  qa = judge;
  evidence = proof ∷ [];
  covered_criteria = "tests pass" ∷ [];
  actual_test_hashes = pin;
  task_id = "task-1";
  dispatch_id = "d-1";
  expected_tree = "tree-a";
  actual_tree = "tree-a";
  checkout_clean = true;
  fix_round = pos 1;
  human_waiver = false;
}

submission_is_verified :
    (check staff gate submission "v-1" registry).0
    ≡ ok (verified_outcome (new_verdict judge (proof ∷ []) about true "v-1"))
unfolding check create_qa_verdict evidence_ok is_registered get put
submission_is_verified = refl

check-IsBacked_example :
    IsBacked gate submission registry (check staff gate submission "v-1" registry)
check-IsBacked_example = check-IsBacked staff gate submission "v-1" registry
