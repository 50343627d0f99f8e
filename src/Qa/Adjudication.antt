-- ===== src/Qa/Adjudication.antt =====
-- subagentbridge/qa/adjudication.py and `validate_qa_test_path` of subagentbridge/qa/test_pins.py:
-- the QA evidence gate over the receipt registry. What `uuid4` returns is an argument.
mod Examples
pub mod Backed
use Prim.Native.String.{String, ◌++◌ as ◌+++◌}
use subagent_bridge.Prelude.{
  ℕ, Bool, true, false, not, ◌&&◌, ◌||◌, Option, none, some, List, [], ◌∷◌, length, all, any, has,
  is_empty, keep_if, ltb, leb, nat_eq, ◌==◌, ◌!=◌, if◌then◌else◌,
}
use subagent_bridge.Prelude.Exec.{
  Error, Result, ok, err, Exec, pure, value_error, permission_error, type_error, attribute_error,
}
use subagent_bridge.Prelude.Int.{ℤ, pos, negsuc}
use subagent_bridge.Prelude.Text.{codes, is_blank, strips_to_nothing, text_length}
use subagent_bridge.Prelude.Dict.{Dict, get}
use subagent_bridge.Domain.Contracts.{Evidence}
use subagent_bridge.Domain.Registry.{
  Principal, QaVerdict, Binding, IdentityRegistry, ReceiptIssuerRegistry, create_qa_verdict,
}

abbrev pub prepend : String → List String → List String
prepend c [] = c ∷ []
prepend c (x ∷ xs) = (c +++ x) ∷ xs

-- `relative.split('/')`
abbrev pub split_slash : String → List String
split_slash String.[] = "" ∷ []
split_slash (String.◌∷◌ c s) =
    let rest = split_slash s in
    let one = String.◌∷◌ c String.[] in if one == "/" then "" ∷ rest else prepend one rest

abbrev pub starts_with : List ℕ → List ℕ → Bool
starts_with [] s = true
starts_with (x ∷ xs) [] = false
starts_with (x ∷ xs) (y ∷ ys) = nat_eq x y && starts_with xs ys

abbrev pub is_odd_piece : String → Bool
is_odd_piece s = is_blank s || s == "." || s == ".."

-- `PurePosixPath(relative).parts` of a path that does not start with a slash
abbrev pub parts : List String → List String
parts pieces = keep_if (λ s. not (is_blank s || s == ".")) pieces

abbrev pub starts_in_tests : List String → Bool
starts_in_tests [] = false
starts_in_tests (x ∷ xs) = x == "tests"

-- Backslash, colon and NUL.
abbrev pub is_foreign : ℕ → Bool
is_foreign c = nat_eq c 92 || nat_eq c 58 || nat_eq c 0

-- `validate_qa_test_path`, whether it returns.
unfoldable pub test_path_ok : String → Bool
test_path_ok relative =
    not (is_blank relative || any is_foreign (codes relative))
    && starts_with (codes "tests/") (codes relative)
    && not (any is_odd_piece (split_slash relative))
    && leb 2 (length (parts (split_slash relative)))
    && starts_in_tests (parts (split_slash relative))

-- A digit or one of a to f.
abbrev pub is_hex : ℕ → Bool
is_hex c = leb 48 c && leb c 57 || leb 97 c && leb c 102

abbrev pub digest_ok : String → Bool
digest_ok digest = nat_eq (text_length digest) 64 && all is_hex (codes digest)

pub record QaEvidenceGate : Type 0 where
  pub criteria : List String
  pub test_hashes : Dict String

-- `QaEvidenceGate.__init__`
unfoldable pub new_gate : List String → Dict String → Result QaEvidenceGate
new_gate frozen_criteria qa_test_hashes =
    if is_empty frozen_criteria || any strips_to_nothing frozen_criteria
    then err value_error
    else if is_empty qa_test_hashes
    then err value_error
    else if not (all (λ r. test_path_ok r.0 && digest_ok r.1) qa_test_hashes)
    then err value_error
    else ok (record { criteria = frozen_criteria; test_hashes = qa_test_hashes })

pub record EvidenceDecision : Type 0 where
  pub status : String
  pub reason : String

-- The keyword arguments of `check`.
pub record Submission : Type 0 where
  pub qa : Principal
  pub evidence : List Evidence
  pub covered_criteria : List String
  pub actual_test_hashes : Dict String
  pub task_id : String
  pub dispatch_id : String
  pub expected_tree : String
  pub actual_tree : String
  pub checkout_clean : Bool
  pub fix_round : ℤ
  pub human_waiver : Bool

abbrev pub Outcome : Type 0
Outcome = EvidenceDecision × Option QaVerdict

abbrev pub unverified : String → Outcome
unverified reason = (record { status = "UNVERIFIED"; reason = reason }, none)

abbrev pub blocked : Outcome
blocked =
    (record { status = "BLOCKED"; reason = "three fix rounds exhausted: human required" }, none)

abbrev pub is_negative : ℤ → Bool
is_negative (pos n) = false
is_negative (negsuc n) = true

abbrev pub at_least_three : ℤ → Bool
at_least_three (pos n) = leb 3 n
at_least_three (negsuc n) = false

abbrev pub is_value : String → Option String → Bool
is_value v none = false
is_value v (some w) = w == v

-- `==` of dictionaries, which have each key once.
abbrev pub dict_eq : Dict String → Dict String → Bool
dict_eq a b = nat_eq (length a) (length b) && all (λ r. is_value r.1 (get b r.0)) a

-- `set(a) == set(b)`
abbrev pub same_set : List String → List String → Bool
same_set a b = all (λ x. has x b) a && all (λ x. has x a) b

abbrev pub binding : Submission → Binding
binding x = record { task_id = x.task_id; dispatch_id = x.dispatch_id; tree_sha = x.expected_tree }

abbrev pub verified_outcome : QaVerdict → Outcome
verified_outcome v = (
  record { status = "QA_VERIFIED"; reason = "registered, matched evidence for frozen criteria" },
  some v,
)

-- `except (PermissionError, ValueError, TypeError, AttributeError)`; other exceptions go on.
abbrev pub rejected : Error → Result Outcome
rejected permission_error = ok (unverified "provenance rejected: PermissionError")
rejected value_error = ok (unverified "provenance rejected: ValueError")
rejected type_error = ok (unverified "provenance rejected: TypeError")
rejected attribute_error = ok (unverified "provenance rejected: AttributeError")
rejected e = err e

abbrev pub adjudicate :
    Result QaVerdict × ReceiptIssuerRegistry → Result Outcome × ReceiptIssuerRegistry
adjudicate (ok v, s) = (ok (verified_outcome v), s)
adjudicate (err e, s) = (rejected e, s)

-- `QaEvidenceGate.check`
unfoldable pub check :
    IdentityRegistry → QaEvidenceGate → Submission → String → Exec ReceiptIssuerRegistry Outcome
check ids gate x uuid s =
    if is_negative x.fix_round
    then (ok (unverified "invalid fix-round counter"), s)
    else if at_least_three x.fix_round
    then (ok blocked, s)
    else if not x.checkout_clean || is_blank x.expected_tree || x.actual_tree != x.expected_tree
    then (ok (unverified "dirty checkout or wrong tree"), s)
    else if not (dict_eq gate.test_hashes x.actual_test_hashes)
    then (ok (unverified "QA tests changed, missing or substituted"), s)
    else if not (same_set x.covered_criteria gate.criteria)
        || not (nat_eq (length x.covered_criteria) (length gate.criteria))
    then (ok (unverified "frozen acceptance criteria not fully covered"), s)
    else if x.human_waiver
    then (ok (unverified "human waiver is not QA evidence"), s)
    else if is_empty x.evidence
    then (ok (unverified "executor receipts required"), s)
    else adjudicate (create_qa_verdict ids x.qa x.evidence (binding x) true uuid s)
