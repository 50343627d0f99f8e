-- ===== src/Domain/Registry/Verdicts.antt =====
-- `create_evidence` and `create_qa_verdict` keep `IsProvenanced`, and `require_verdict` hands out
-- what it keeps.
use subagent_bridge.Prelude.{
  String, ◌≡◌, ◌≢◌, ◌⊎◌, ◌∙◌, and_left, and_right, refl, sym, Bool, true, false, List, [], ◌∷◌, map,
  All, all, distinct, arith, is_empty, Bool-cases, inl, inr,
}
use subagent_bridge.Prelude.Exec.{Error, ok, err, permission_error}
use subagent_bridge.Prelude.Dict.{put, get-put_cases}
use subagent_bridge.Domain.Contracts.{qa, Evidence}
use subagent_bridge.Domain.Registry.{
  new_verdict, Principal, QaVerdict, IdentityRegistry, ReceiptIssuerRegistry, Binding,
  is_registered, create_evidence, create_qa_verdict, evidence_ok, verdict_ok,
}
use subagent_bridge.Domain.Registry.Equality.{
  evidence_ok→receipt, receipt_succeeded→eq, verdict_ok→parts, verdict_known→eq, bound_to→eq,
}
use subagent_bridge.Domain.Registry.Provenance.{
  Succeeded, IsSound, IsProvenanced, Extends, Extends-IsSound, is_registered-Holds,
}
use subagent_bridge.Domain.Registry.Steps.{keep_judged}

map-ne-nil :
    (items : List Evidence)
    → is_empty items ≡ false
    → ◌≢◌ {A = List String} (map (λ e. e.receipt_id) items) []
map-ne-nil [] h = absurd (ground arith)
map-ne-nil (e ∷ es) h = λ same. ground arith

module _ (receipt_id : String) (b : Binding) (uuid : String) (s : ReceiptIssuerRegistry) where
  create_evidence_keeps :
      ((create_evidence receipt_id b uuid s).1.receipts ≡ s.receipts)
      × ((create_evidence receipt_id b uuid s).1.verdicts ≡ s.verdicts)
  unfolding create_evidence
  create_evidence_keeps = ground arith

  module _ (ids : IdentityRegistry) where
    pub create_evidence-Extends : Extends ids s ids (create_evidence receipt_id b uuid s).1
    create_evidence-Extends = record {
      members = λ k e h. h;
      receipts = λ k r h. rw create_evidence_keeps.0 h;
    }

    pub create_evidence-IsProvenanced :
        IsProvenanced ids s → IsProvenanced ids (create_evidence receipt_id b uuid s).1
    create_evidence-IsProvenanced before = record {
      issued = λ k r h. before.issued k r (rw create_evidence_keeps.0 at h);
      judged = keep_judged create_evidence-Extends before create_evidence_keeps.1;
    }

module _ (ids : IdentityRegistry) (p : Principal) (evidence : List Evidence) (b : Binding)
    (accepted : Bool) (uuid : String) (s : ReceiptIssuerRegistry) where
  pub create_qa_verdict_cases :
      ((e : Error) × (create_qa_verdict ids p evidence b accepted uuid s ≡ (err e, s)))
      ⊎ ((is_registered ids p qa ≡ true)
          × (is_empty evidence ≡ false)
          × (all (evidence_ok s b) evidence ≡ true)
          × (create_qa_verdict ids p evidence b accepted uuid s ≡ (
            ok (new_verdict p evidence b accepted uuid),
            record s { verdicts = put s.verdicts uuid (new_verdict p evidence b accepted uuid) },
          )))
  unfolding create_qa_verdict
  create_qa_verdict_cases = elim (Bool-cases (is_registered ids p qa)) [
    | inr unknown ↦ inl (permission_error, rw unknown)
    | inl known ↦ elim (Bool-cases (is_empty evidence)) [
      | inl empty ↦ inl (permission_error, rw (known, empty))
      | inr full ↦ elim (Bool-cases (distinct (map (λ e. e.evidence_id) evidence))) [
        | inr twice ↦ inl (permission_error, rw (known, full, twice))
        | inl once ↦ elim (Bool-cases (all (evidence_ok s b) evidence)) [
          | inr bad ↦ inl (permission_error, rw (known, full, once, bad))
          | inl good ↦ inr (known, full, good, rw (known, full, once, good))
        ]
      ]
    ]
  ]

  pub create_qa_verdict-Extends :
      Extends ids s ids (create_qa_verdict ids p evidence b accepted uuid s).1
  create_qa_verdict-Extends = elim create_qa_verdict_cases [
    | inl (e, failed) ↦ rw failed (record { members = λ k x h. h; receipts = λ k r h. h })
    | inr (known, full, good, done) ↦
        rw done (record { members = λ k x h. h; receipts = λ k r h. h })
  ]

module _ (ids : IdentityRegistry) (s : ReceiptIssuerRegistry) (p : IsProvenanced ids s)
    (b : Binding) (v : QaVerdict) (task : v.task_id ≡ b.task_id)
    (dispatch : v.dispatch_id ≡ b.dispatch_id) (tree : v.tree_sha ≡ b.tree_sha) where
  evidence_ok-Succeeded :
      (item : Evidence) → evidence_ok s b item ≡ true → Succeeded ids s v item.receipt_id
  evidence_ok-Succeeded item h =
      let (r, at, t, d, g, zero) = receipt_succeeded→eq b _ (evidence_ok→receipt s b item h) in
      (r, at, t ∙ sym task, d ∙ sym dispatch, g ∙ sym tree, zero, p.issued item.receipt_id r at)

  evidence_ok-All :
      (items : List Evidence)
      → all (evidence_ok s b) items ≡ true
      → All (Succeeded ids s v) (map (λ e. e.receipt_id) items)
  evidence_ok-All [] h = tt
  evidence_ok-All (item ∷ items) h =
      (evidence_ok-Succeeded item (and_left _ _ h), evidence_ok-All items (and_right _ _ h))

module _ (ids : IdentityRegistry) (p : Principal) (evidence : List Evidence) (b : Binding)
    (accepted : Bool) (uuid : String) (s : ReceiptIssuerRegistry)
    (before : IsProvenanced ids s) where
  new_verdict-IsSound :
      is_registered ids p qa ≡ true
      → is_empty evidence ≡ false
      → all (evidence_ok s b) evidence ≡ true
      → IsSound ids s (new_verdict p evidence b accepted uuid)
  new_verdict-IsSound known full good = record {
    by_qa = is_registered-Holds ids p qa known;
    some_receipt = map-ne-nil evidence full;
    each =
        evidence_ok-All ids s before b (new_verdict p evidence b accepted uuid) refl refl refl
          evidence good;
  }

  -- `create_qa_verdict` keeps the invariant, whether it raises or registers a verdict.
  pub create_qa_verdict-IsProvenanced :
      IsProvenanced ids (create_qa_verdict ids p evidence b accepted uuid s).1
  create_qa_verdict-IsProvenanced =
      elim (create_qa_verdict_cases ids p evidence b accepted uuid s) [
        | inl (e, failed) ↦ rw failed before
        | inr (known, full, good, done) ↦
            let v = new_verdict p evidence b accepted uuid in
            let after = record s { verdicts = put s.verdicts uuid v } in
            let x : Extends ids s ids after = record {
              members = λ k x h. h;
              receipts = λ k r h. h;
            } in
            rw done (record {
              issued = before.issued;
              judged = λ k w h. elim (get-put_cases s.verdicts uuid k v w h) [
                | inl (here, same) ↦
                    rw (← same) (Extends-IsSound x (new_verdict-IsSound known full good))
                | inr there ↦ Extends-IsSound x (before.judged k w there)
              ];
            })
      ]

-- A verdict that `require_verdict` accepts is one of the registered ones, bound and accepting.
pub verdict_ok-IsSound :
    (ids : IdentityRegistry) (s : ReceiptIssuerRegistry) (v : QaVerdict) (b : Binding)
    → IsProvenanced ids s
    → verdict_ok s v b ≡ true
    → IsSound ids s v
      × (v.accepted ≡ true)
      × (v.task_id ≡ b.task_id)
      × (v.dispatch_id ≡ b.dispatch_id)
      × (v.tree_sha ≡ b.tree_sha)
verdict_ok-IsSound ids s v b p h =
    let (known, bound, accepting) = verdict_ok→parts s v b h in
    let (t, d, g) = bound_to→eq v.task_id v.dispatch_id v.tree_sha b bound in
    (p.judged v.verdict_id v (verdict_known→eq v _ known), accepting, t, d, g)
