-- ===== src/Domain/Registry/Equality.antt =====
-- The equality tests of registry records decide equality.
use subagent_bridge.Prelude.{
  ◌≡◌, refl, true, [], ◌∷◌, arith, eq_iff, strs_eq→eq, String, Option, none, some, and_left,
  and_right, ap,
}
use subagent_bridge.Prelude.Int.{ℤ, pos}
use subagent_bridge.Prelude.Dict.{get}
use subagent_bridge.Domain.Contracts.{Role, role_eq, Evidence}
use subagent_bridge.Domain.Registry.{
  ExecutorReceipt, Binding, ReceiptIssuerRegistry, bound_to, is_zero, receipt_succeeded,
  evidence_ok, verdict_ok, verdict_known, QaVerdict, verdict_eq, evidence_eq, Bytes, bytes_eq,
}

pub role_eq→eq : (a b : Role) → role_eq a b ≡ true → a ≡ b
role_eq→eq a b h = ground arith

pub bytes_eq→eq : (xs ys : Bytes) → bytes_eq xs ys ≡ true → xs ≡ ys
bytes_eq→eq [] [] h = refl
bytes_eq→eq [] (y ∷ ys) h = ground arith
bytes_eq→eq (x ∷ xs) [] h = ground arith
bytes_eq→eq (x ∷ xs) (y ∷ ys) h = ground (arith, bytes_eq→eq xs ys)

pub bytes_eq_refl : (xs : Bytes) → bytes_eq xs xs ≡ true
bytes_eq_refl [] = refl
bytes_eq_refl (x ∷ xs) = ground (arith, bytes_eq_refl xs)

pub verdict_eq→eq : (a b : QaVerdict) → verdict_eq a b ≡ true → a ≡ b
unfolding verdict_eq
verdict_eq→eq a b h = ground (
  arith,
  eq_iff a.verdict_id b.verdict_id,
  eq_iff a.qa_principal_id b.qa_principal_id,
  eq_iff a.task_id b.task_id,
  eq_iff a.dispatch_id b.dispatch_id,
  eq_iff a.tree_sha b.tree_sha,
  strs_eq→eq a.receipt_ids b.receipt_ids,
)

pub evidence_eq→eq : (a b : Evidence) → evidence_eq a b ≡ true → a ≡ b
unfolding evidence_eq
evidence_eq→eq a b h = ground (
  arith,
  eq_iff a.evidence_id b.evidence_id,
  eq_iff a.receipt_id b.receipt_id,
  eq_iff a.task_id b.task_id,
  eq_iff a.dispatch_id b.dispatch_id,
  eq_iff a.tree_sha b.tree_sha,
)

pub bound_to→eq :
    (task dispatch tree : String) (b : Binding)
    → bound_to task dispatch tree b ≡ true
    → (task ≡ b.task_id) × (dispatch ≡ b.dispatch_id) × (tree ≡ b.tree_sha)
bound_to→eq task dispatch tree b h =
    ground (arith, eq_iff task b.task_id, eq_iff dispatch b.dispatch_id, eq_iff tree b.tree_sha)

pub is_zero→eq : (z : ℤ) → is_zero z ≡ true → z ≡ pos 0
is_zero→eq z h = ground arith

pub receipt_succeeded→eq :
    (b : Binding) (o : Option ExecutorReceipt)
    → receipt_succeeded b o ≡ true
    → (r : ExecutorReceipt) × (o ≡ some r)
      × (r.task_id ≡ b.task_id)
      × (r.dispatch_id ≡ b.dispatch_id)
      × (r.tree_sha ≡ b.tree_sha)
      × (r.exit_code ≡ pos 0)
receipt_succeeded→eq b none h = absurd (ground arith)
receipt_succeeded→eq b (some r) h =
    let bound = bound_to→eq r.task_id r.dispatch_id r.tree_sha b (and_left _ _ h) in
    (r, refl, bound.0, bound.1, bound.2, is_zero→eq r.exit_code (and_right _ _ h))

-- Evidence that passes the loop of `create_qa_verdict` names a successful receipt.
pub evidence_ok→receipt :
    (s : ReceiptIssuerRegistry) (b : Binding) (item : Evidence)
    → evidence_ok s b item ≡ true
    → receipt_succeeded b (get s.receipts item.receipt_id) ≡ true
unfolding evidence_ok
evidence_ok→receipt s b item h = and_right _ _ h

-- What `require_verdict` has tested.
pub verdict_ok→parts :
    (s : ReceiptIssuerRegistry) (v : QaVerdict) (b : Binding)
    → verdict_ok s v b ≡ true
    → (verdict_known v (get s.verdicts v.verdict_id) ≡ true)
      × (bound_to v.task_id v.dispatch_id v.tree_sha b ≡ true)
      × (v.accepted ≡ true)
unfolding verdict_ok
verdict_ok→parts s v b h =
    let first = and_left _ _ (and_left _ _ h) in
    (and_left _ _ (and_left _ _ first), and_right _ _ (and_left _ _ first), and_right _ _ first)

pub verdict_known→eq :
    (v : QaVerdict) (o : Option QaVerdict) → verdict_known v o ≡ true → o ≡ some v
verdict_known→eq v none h = absurd (ground arith)
verdict_known→eq v (some w) h = ap {B = Option QaVerdict} some (verdict_eq→eq w v h)
