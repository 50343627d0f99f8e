-- ===== src/Domain/Registry.antt =====
-- subagentbridge/domain/registry.py: identities, executor receipts, evidence, QA verdicts and
-- message admission. What `token_bytes` and `uuid4` return is an argument of the operation.
pub mod Equality
pub mod Provenance
pub mod Steps
pub mod Verdicts
use subagent_bridge.Prelude.{
  ℕ, zero, suc, String, Bool, true, false, not, ◌&&◌, ◌||◌, Option, none, some, List, [], ◌∷◌, map,
  all, any, distinct, is_empty, length, is_some, is_none, ◌==◌, strs_eq, if◌then◌else◌, nat_eq,
}
use subagent_bridge.Prelude.Exec.{
  Result, ok, err, Exec, pure, raise, lift, gets, modify, state, raise_if, or_raise, ◌>>=◌, ◌>>◌,
  value_error, permission_error,
}
use subagent_bridge.Prelude.Text.{is_blank}
use subagent_bridge.Prelude.Int.{ℤ, pos, negsuc}
use subagent_bridge.Prelude.Dict.{Dict, get, put}
use subagent_bridge.Domain.Contracts.{Role, role_eq, qa, executor, Message, Evidence}

abbrev pub Bytes : Type 0
Bytes = List ℕ

abbrev pub bytes_eq : Bytes → Bytes → Bool
bytes_eq [] [] = true
bytes_eq (x ∷ xs) (y ∷ ys) = nat_eq x y && bytes_eq xs ys
bytes_eq _ _ = false

pub record Principal : Type 0 where
  pub principal_id : String
  pub role : Role
  pub registry_secret : Bytes

pub record ExecutorReceipt : Type 0 where
  pub receipt_id : String
  pub issuer_id : String
  pub task_id : String
  pub dispatch_id : String
  pub tree_sha : String
  pub exit_code : ℤ

pub record QaVerdict : Type 0 where
  pub verdict_id : String
  pub qa_principal_id : String
  pub task_id : String
  pub dispatch_id : String
  pub tree_sha : String
  pub receipt_ids : List String
  pub accepted : Bool

abbrev pub bool_eq : Bool → Bool → Bool
bool_eq true b = b
bool_eq false b = not b

-- `==` of the frozen dataclasses compares every field.
unfoldable pub verdict_eq : QaVerdict → QaVerdict → Bool
verdict_eq a b =
    a.verdict_id == b.verdict_id
    && a.qa_principal_id == b.qa_principal_id
    && a.task_id == b.task_id
    && a.dispatch_id == b.dispatch_id
    && a.tree_sha == b.tree_sha
    && strs_eq a.receipt_ids b.receipt_ids
    && bool_eq a.accepted b.accepted

unfoldable pub evidence_eq : Evidence → Evidence → Bool
evidence_eq a b =
    a.evidence_id == b.evidence_id
    && a.receipt_id == b.receipt_id
    && a.task_id == b.task_id
    && a.dispatch_id == b.dispatch_id
    && a.tree_sha == b.tree_sha

unfoldable pub message_eq : Message → Message → Bool
message_eq a b =
    a.message_id == b.message_id
    && a.from_principal == b.from_principal
    && a.to_principal == b.to_principal
    && a.task_id == b.task_id
    && a.dispatch_id == b.dispatch_id
    && a.payload == b.payload

-- IdentityRegistry
pub record IdentityRegistry : Type 0 where
  pub members : Dict (Role × Bytes)

unfoldable pub register : String → Role → Bytes → Exec IdentityRegistry Principal
register principal_id role secret = do
  ids ← state
  raise_if (is_blank principal_id) value_error
  raise_if (is_some (get ids.members principal_id)) value_error
  modify (λ s. record s { members = put s.members principal_id (role, secret) })
  pure (record { principal_id = principal_id; role = role; registry_secret = secret })

-- The test of `IdentityRegistry.require`.
abbrev entry_matches : Principal → Role → Option (Role × Bytes) → Bool
entry_matches principal role none = false
entry_matches principal role (some (registered, secret)) =
    role_eq registered role
    && role_eq principal.role role
    && bytes_eq principal.registry_secret secret

unfoldable pub is_registered : IdentityRegistry → Principal → Role → Bool
is_registered ids principal role =
    entry_matches principal role (get ids.members principal.principal_id)

unfoldable pub require : IdentityRegistry → Principal → Role → Result (Unit {0})
require ids principal role =
    if is_registered ids principal role then ok tt else err permission_error

-- ReceiptIssuerRegistry; the identity registry that it holds is an argument of its methods.
pub record ReceiptIssuerRegistry : Type 0 where
  pub receipts : Dict ExecutorReceipt
  pub evidence : Dict Evidence
  pub verdicts : Dict QaVerdict

-- What a receipt, a piece of evidence or a verdict is about.
pub record Binding : Type 0 where
  pub task_id : String
  pub dispatch_id : String
  pub tree_sha : String

abbrev pub bound_to : String → String → String → Binding → Bool
bound_to task_id dispatch_id tree_sha b =
    task_id == b.task_id && dispatch_id == b.dispatch_id && tree_sha == b.tree_sha

abbrev pub is_zero : ℤ → Bool
is_zero (pos zero) = true
is_zero _ = false

abbrev pub new_receipt : Principal → Binding → ℤ → String → ExecutorReceipt
new_receipt principal b exit_code uuid = record {
  receipt_id = uuid;
  issuer_id = principal.principal_id;
  task_id = b.task_id;
  dispatch_id = b.dispatch_id;
  tree_sha = b.tree_sha;
  exit_code = exit_code;
}

unfoldable pub issue :
    IdentityRegistry → Principal → Binding → ℤ → String → Exec ReceiptIssuerRegistry ExecutorReceipt
unfolding require
issue ids principal b exit_code uuid = do
  lift (require ids principal executor)
  raise_if (is_blank b.task_id || is_blank b.dispatch_id || is_blank b.tree_sha) value_error
  let r = new_receipt principal b exit_code uuid
  modify (λ s. record s { receipts = put s.receipts uuid r })
  pure r

abbrev pub new_evidence : String → Binding → String → Evidence
new_evidence receipt_id b uuid = record {
  evidence_id = uuid;
  receipt_id = receipt_id;
  task_id = b.task_id;
  dispatch_id = b.dispatch_id;
  tree_sha = b.tree_sha;
}

unfoldable pub create_evidence : String → Binding → String → Exec ReceiptIssuerRegistry Evidence
create_evidence receipt_id b uuid = do
  found ← gets (λ s. get s.receipts receipt_id)
  receipt ← or_raise found permission_error
  raise_if (not (bound_to receipt.task_id receipt.dispatch_id receipt.tree_sha b)) permission_error
  raise_if (not (is_zero receipt.exit_code)) permission_error
  let e = new_evidence receipt_id b uuid
  modify (λ s. record s { evidence = put s.evidence uuid e })
  pure e

abbrev pub receipt_succeeded : Binding → Option ExecutorReceipt → Bool
receipt_succeeded b none = false
receipt_succeeded b (some r) = bound_to r.task_id r.dispatch_id r.tree_sha b && is_zero r.exit_code

abbrev evidence_known : Evidence → Option Evidence → Bool
evidence_known item none = false
evidence_known item (some e) = evidence_eq e item

-- The body of the loop over `evidence`: `false` where it raises PermissionError.
unfoldable pub evidence_ok : ReceiptIssuerRegistry → Binding → Evidence → Bool
unfolding evidence_eq
evidence_ok s b item =
    evidence_known item (get s.evidence item.evidence_id)
    && bound_to item.task_id item.dispatch_id item.tree_sha b
    && receipt_succeeded b (get s.receipts item.receipt_id)

abbrev pub new_verdict : Principal → List Evidence → Binding → Bool → String → QaVerdict
new_verdict principal evidence b accepted uuid = record {
  verdict_id = uuid;
  qa_principal_id = principal.principal_id;
  task_id = b.task_id;
  dispatch_id = b.dispatch_id;
  tree_sha = b.tree_sha;
  receipt_ids = map (λ e. e.receipt_id) evidence;
  accepted = accepted;
}

unfoldable pub create_qa_verdict :
    IdentityRegistry
    → Principal
    → List Evidence
    → Binding
    → Bool
    → String
    → Exec ReceiptIssuerRegistry QaVerdict
unfolding require
create_qa_verdict ids principal evidence b accepted uuid = do
  lift (require ids principal qa)
  raise_if (is_empty evidence) permission_error
  raise_if (not (distinct (map (λ e. e.evidence_id) evidence))) permission_error
  registry ← state
  raise_if (not (all (evidence_ok registry b) evidence)) permission_error
  let v = new_verdict principal evidence b accepted uuid
  modify (λ s. record s { verdicts = put s.verdicts uuid v })
  pure v

abbrev pub verdict_known : QaVerdict → Option QaVerdict → Bool
verdict_known v none = false
verdict_known v (some w) = verdict_eq w v

-- The tests of `require_verdict`, each of which raises PermissionError.
unfoldable pub verdict_ok : ReceiptIssuerRegistry → QaVerdict → Binding → Bool
unfolding verdict_eq
verdict_ok s v b =
    verdict_known v (get s.verdicts v.verdict_id)
    && bound_to v.task_id v.dispatch_id v.tree_sha b
    && v.accepted
    && not (is_empty v.receipt_ids)
    && not (any (λ i. is_none (get s.receipts i)) v.receipt_ids)

unfoldable pub require_verdict : ReceiptIssuerRegistry → QaVerdict → Binding → Result (Unit {0})
require_verdict s v b = if verdict_ok s v b then ok tt else err permission_error

-- MessageRegistry; the lock makes `record` one step.
admit : Message → Option Message → Exec (Dict Message) Bool
admit message (some old) = do raise_if (not (message_eq old message)) value_error; pure false
admit message none = do modify (λ s. put s message.message_id message); pure true

unfoldable pub record_message : Message → String → String → Exec (Dict Message) Bool
unfolding message_eq admit
record_message message task_id dispatch_id = do
  raise_if (not (message.task_id == task_id && message.dispatch_id == dispatch_id)) permission_error
  raise_if (message.to_principal == "*" || message.from_principal == "*") permission_error
  seen ← gets (λ s. get s message.message_id)
  admit message seen
