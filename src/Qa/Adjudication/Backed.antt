-- ===== src/Qa/Adjudication/Backed.antt =====
-- What a verdict of the gate stands on.
use subagent_bridge.Prelude.{
  String, Bool, true, false, not, ◌&&◌, ◌||◌, ◌≡◌, ◌⊎◌, inl, inr, refl, sym, subst, none, List, [],
  ◌∷◌, map, length, all, any, is_empty, is_none, arith, ◌==◌, ◌!=◌, ==_refl, nat_eq, strs_eq_refl,
  Bool-cases,
}
use subagent_bridge.Prelude.Exec.{
  Error, Result, ok, err, value_error, permission_error, key_error, type_error, runtime_error,
  attribute_error, invalid_transition, stale_dispatch, budget_exceeded, ledger_integrity,
  replay_conflict, out_of_fuel, integrity_error, migration_conflict, migration_integrity,
  operational_error,
}
use subagent_bridge.Prelude.Text.{is_blank}
use subagent_bridge.Prelude.Dict.{get, put, get-put_self}
use subagent_bridge.Domain.Contracts.{Evidence}
use subagent_bridge.Domain.Registry.{
  Principal, QaVerdict, Binding, IdentityRegistry, ReceiptIssuerRegistry, verdict_eq, evidence_ok,
  new_verdict, create_qa_verdict, verdict_ok,
}
use subagent_bridge.Domain.Registry.Verdicts.{create_qa_verdict_cases}
use subagent_bridge.Qa.Adjudication.{
  QaEvidenceGate, EvidenceDecision, Submission, Outcome, verified_outcome, is_negative,
  at_least_three, dict_eq, same_set, binding, adjudicate, check,
}

receipts_exist :
    (s : ReceiptIssuerRegistry) (b : Binding) (evidence : List Evidence)
    → all (evidence_ok s b) evidence ≡ true
    → any (λ i. is_none (get s.receipts i)) (map (λ e. e.receipt_id) evidence) ≡ false
unfolding evidence_ok
receipts_exist s b [] h = refl
receipts_exist s b (e ∷ evidence) h = ground (arith, receipts_exist s b evidence)

is_empty-map {ℓ κ} :
    {A : Type ℓ} {B : Type κ} (f : A → B) (xs : List A) → is_empty (map f xs) ≡ is_empty xs
is_empty-map f [] = refl
is_empty-map f (x ∷ xs) = refl

verdict_eq_refl : (v : QaVerdict) → verdict_eq v v ≡ true
unfolding verdict_eq
verdict_eq_refl v = ground (
  arith,
  ==_refl v.verdict_id,
  ==_refl v.qa_principal_id,
  ==_refl v.task_id,
  ==_refl v.dispatch_id,
  ==_refl v.tree_sha,
  strs_eq_refl v.receipt_ids,
)

-- A verdict that accepts is accepted by `require_verdict` right after its creation.
created_ok :
    (p : Principal) (evidence : List Evidence) (b : Binding) (uuid : String)
    (s : ReceiptIssuerRegistry)
    → is_empty evidence ≡ false
    → all (evidence_ok s b) evidence ≡ true
    → verdict_ok
        (record s { verdicts = put s.verdicts uuid (new_verdict p evidence b true uuid) })
        (new_verdict p evidence b true uuid)
        b
      ≡ true
unfolding verdict_ok
created_ok p evidence b uuid s full good =
    let v = new_verdict p evidence b true uuid in
    rw
      (
        get-put_self s.verdicts uuid v,
        verdict_eq_refl v,
        ==_refl b.task_id,
        ==_refl b.dispatch_id,
        ==_refl b.tree_sha,
        is_empty-map (λ e. e.receipt_id) evidence,
        full,
        receipts_exist s b evidence good,
      )
      refl

-- The tests of the gate before it asks the registry.
unfoldable pub passes : QaEvidenceGate → Submission → Bool
passes gate x =
    not (is_negative x.fix_round)
    && not (at_least_three x.fix_round)
    && x.checkout_clean
    && not (is_blank x.expected_tree)
    && x.actual_tree == x.expected_tree
    && dict_eq gate.test_hashes x.actual_test_hashes
    && same_set x.covered_criteria gate.criteria
    && nat_eq (length x.covered_criteria) (length gate.criteria)
    && not x.human_waiver

-- Nothing was registered, and an exception or a status other than QA_VERIFIED was returned.
abbrev pub IsRefused : ReceiptIssuerRegistry → Result Outcome × ReceiptIssuerRegistry → Type 0
IsRefused s r =
    (r.1 ≡ s)
    × (((e : Error) × (r.0 ≡ err e))
        ⊎ ((d : EvidenceDecision) × (r.0 ≡ ok (d, none)) × ((d.status == "QA_VERIFIED") ≡ false)))

-- A verdict was given out, for a submission that passes, or the submission was refused.
abbrev pub IsBacked :
    QaEvidenceGate
    → Submission
    → ReceiptIssuerRegistry
    → Result Outcome × ReceiptIssuerRegistry
    → Type 0
IsBacked gate x s r =
    ((v : QaVerdict) × (r.0 ≡ ok (verified_outcome v))
      × (passes gate x ≡ true)
      × (verdict_ok r.1 v (binding x) ≡ true))
    ⊎ IsRefused s r

rejected-IsRefused : (e : Error) (s : ReceiptIssuerRegistry) → IsRefused s (adjudicate (err e, s))
rejected-IsRefused permission_error s = (refl, inr (_, refl, refl))
rejected-IsRefused value_error s = (refl, inr (_, refl, refl))
rejected-IsRefused type_error s = (refl, inr (_, refl, refl))
rejected-IsRefused attribute_error s = (refl, inr (_, refl, refl))
rejected-IsRefused key_error s = (refl, inl (_, refl))
rejected-IsRefused runtime_error s = (refl, inl (_, refl))
rejected-IsRefused invalid_transition s = (refl, inl (_, refl))
rejected-IsRefused stale_dispatch s = (refl, inl (_, refl))
rejected-IsRefused budget_exceeded s = (refl, inl (_, refl))
rejected-IsRefused ledger_integrity s = (refl, inl (_, refl))
rejected-IsRefused replay_conflict s = (refl, inl (_, refl))
rejected-IsRefused out_of_fuel s = (refl, inl (_, refl))
rejected-IsRefused integrity_error s = (refl, inl (_, refl))
rejected-IsRefused migration_conflict s = (refl, inl (_, refl))
rejected-IsRefused migration_integrity s = (refl, inl (_, refl))
rejected-IsRefused operational_error s = (refl, inl (_, refl))

registry_cases :
    (ids : IdentityRegistry) (gate : QaEvidenceGate) (x : Submission) (uuid : String)
    (s : ReceiptIssuerRegistry)
    → passes gate x ≡ true
    → IsBacked gate x s (adjudicate (create_qa_verdict ids x.qa x.evidence (binding x) true uuid s))
registry_cases ids gate x uuid s passing =
    elim (create_qa_verdict_cases ids x.qa x.evidence (binding x) true uuid s) [
      | inl (e, bad) ↦ rw bad (inr (rejected-IsRefused e s))
      | inr (known, full, good, done) ↦ rw done (
          inl (
            new_verdict x.qa x.evidence (binding x) true uuid,
            refl,
            passing,
            created_ok x.qa x.evidence (binding x) uuid s full good,
          ))
    ]

tests_pass :
    (gate : QaEvidenceGate) (x : Submission)
    → is_negative x.fix_round ≡ false
    → at_least_three x.fix_round ≡ false
    → (not x.checkout_clean || is_blank x.expected_tree || x.actual_tree != x.expected_tree) ≡ false
    → dict_eq gate.test_hashes x.actual_test_hashes ≡ true
    → (not (same_set x.covered_criteria gate.criteria)
        || not (nat_eq (length x.covered_criteria) (length gate.criteria)))
      ≡ false
    → x.human_waiver ≡ false
    → passes gate x ≡ true
unfolding passes
tests_pass gate x counted few clean pinned covered earned = ground arith

-- The gate gives out a verdict only for a submission that passes its tests, together with
-- QA_VERIFIED, and the registry then holds the verdict and accepts it for the task, dispatch and
-- tree of the submission. In every other case the registry is as it was and the status is another.
pub check-IsBacked :
    (ids : IdentityRegistry) (gate : QaEvidenceGate) (x : Submission) (uuid : String)
    (s : ReceiptIssuerRegistry)
    → IsBacked gate x s (check ids gate x uuid s)
unfolding check
check-IsBacked ids gate x uuid s = elim (Bool-cases (is_negative x.fix_round)) [
  | inl negative ↦ rw negative (inr (refl, inr (_, refl, refl)))
  | inr counted ↦ elim (Bool-cases (at_least_three x.fix_round)) [
    | inl many ↦ rw (counted, many) (inr (refl, inr (_, refl, refl)))
    | inr few ↦
        elim (Bool-cases
          (not x.checkout_clean || is_blank x.expected_tree || x.actual_tree != x.expected_tree)) [
            | inl dirty ↦ rw (counted, few, dirty) (inr (refl, inr (_, refl, refl)))
            | inr clean ↦ elim (Bool-cases (dict_eq gate.test_hashes x.actual_test_hashes)) [
              | inr changed ↦ rw (counted, few, clean, changed) (inr (refl, inr (_, refl, refl)))
              | inl pinned ↦
                  elim (Bool-cases (
                    not (same_set x.covered_criteria gate.criteria)
                    || not (nat_eq (length x.covered_criteria) (length gate.criteria)))) [
                      | inl gaps ↦
                          rw (counted, few, clean, pinned, gaps) (inr (refl, inr (_, refl, refl)))
                      | inr covered ↦ elim (Bool-cases x.human_waiver) [
                        | inl waived ↦
                            rw (counted, few, clean, pinned, covered, waived)
                              (inr (refl, inr (_, refl, refl)))
                        | inr earned ↦ elim (Bool-cases (is_empty x.evidence)) [
                          | inl bare ↦
                              rw (counted, few, clean, pinned, covered, earned, bare)
                                (inr (refl, inr (_, refl, refl)))
                          | inr full ↦
                              let asked : check ids gate x uuid s
                                  ≡ adjudicate (
                                      create_qa_verdict ids x.qa x.evidence (binding x) true uuid
                                        s) =
                                rw (counted, few, clean, pinned, covered, earned, full) refl in
                              subst (λ r. IsBacked gate x s r) (sym asked)
                                (registry_cases ids gate x uuid s
                                  (tests_pass gate x counted few clean pinned covered earned))
                        ]
                      ]
                    ]
            ]
          ]
  ]
]
