-- ===== src/Domain/Registry/Steps.antt =====
-- Each operation of the registries keeps `IsProvenanced` and loses nothing.
use subagent_bridge.Prelude.{
  String, ◌≡◌, ◌⊎◌, refl, true, ◌||◌, none, some, arith, Bool-cases, inl, inr,
}
use subagent_bridge.Prelude.Exec.{Error, ok, err, permission_error, value_error}
use subagent_bridge.Prelude.Text.{is_blank}
use subagent_bridge.Prelude.Int.{ℤ}
use subagent_bridge.Prelude.Dict.{get, put, get-put_fresh, get-put_cases}
use subagent_bridge.Domain.Contracts.{Role, executor}
use subagent_bridge.Domain.Registry.{
  Principal, ExecutorReceipt, QaVerdict, IdentityRegistry, ReceiptIssuerRegistry, Binding, Bytes,
  new_receipt, register, is_registered, issue,
}
use subagent_bridge.Domain.Registry.Provenance.{
  Holds, IsSound, IsProvenanced, Extends, Extends-Holds, Extends-IsSound, is_registered-Holds,
  register-members,
}

-- Without a change of the verdicts, an extension keeps what holds of them.
pub keep_judged :
    {ids ids' : IdentityRegistry} {s s' : ReceiptIssuerRegistry} (x : Extends ids s ids' s')
    → IsProvenanced ids s
    → s'.verdicts ≡ s.verdicts
    → (k : String) (v : QaVerdict) → get s'.verdicts k ≡ some v
    → IsSound ids' s' v
keep_judged {s = s} {s' = s'} x p same k v e =
    Extends-IsSound x (p.judged k v (ground (arith, same, e)))

module _ (who : String) (role : Role) (secret : Bytes) (ids : IdentityRegistry)
    (s : ReceiptIssuerRegistry) where
  pub register-Extends : Extends ids s (register who role secret ids).1 s
  register-Extends = record {
    members = register-members who role secret ids;
    receipts = λ k r e. e;
  }

  pub register-IsProvenanced :
      IsProvenanced ids s → IsProvenanced (register who role secret ids).1 s
  register-IsProvenanced p = record {
    issued = λ k r e. Extends-Holds register-Extends r.issuer_id executor (p.issued k r e);
    judged = keep_judged register-Extends p refl;
  }

module _ (ids : IdentityRegistry) (p : Principal) (b : Binding) (code : ℤ) (uuid : String)
    (s : ReceiptIssuerRegistry) where
  issue_cases :
      ((e : Error) × (issue ids p b code uuid s ≡ (err e, s)))
      ⊎ ((is_registered ids p executor ≡ true)
          × (issue ids p b code uuid s ≡ (
            ok (new_receipt p b code uuid),
            record s { receipts = put s.receipts uuid (new_receipt p b code uuid) },
          )))
  unfolding issue
  issue_cases = elim (Bool-cases (is_registered ids p executor)) [
    | inr unknown ↦ inl (permission_error, rw unknown)
    | inl known ↦
        elim (Bool-cases (is_blank b.task_id || is_blank b.dispatch_id || is_blank b.tree_sha)) [
          | inl blank ↦ inl (value_error, rw (known, blank))
          | inr named ↦ inr (known, rw (known, named))
        ]
  ]

  verdicts-issue : (issue ids p b code uuid s).1.verdicts ≡ s.verdicts
  verdicts-issue = elim issue_cases [ inl (e, failed) ↦ rw failed | inr (known, done) ↦ rw done ]

  module _ (fresh : get s.receipts uuid ≡ none) where
    -- `uuid4` returns an identifier that is not in use, so `issue` replaces no receipt.
    pub issue-Extends : Extends ids s ids (issue ids p b code uuid s).1
    issue-Extends = elim issue_cases [
      | inl (e, failed) ↦ rw failed (record { members = λ k x h. h; receipts = λ k r h. h })
      | inr (known, done) ↦ rw done (record {
        members = λ k x h. h;
        receipts = λ k r h. get-put_fresh s.receipts uuid k (new_receipt p b code uuid) r fresh h;
      })
    ]

    pub issue-IsProvenanced : IsProvenanced ids s → IsProvenanced ids (issue ids p b code uuid s).1
    issue-IsProvenanced before = record { issued = made; judged = old }
      where
        made :
            (k : String) (r : ExecutorReceipt)
            → get (issue ids p b code uuid s).1.receipts k ≡ some r
            → Holds ids r.issuer_id executor
        made k r h = elim issue_cases [
          | inl (e, failed) ↦ before.issued k r (rw failed at h)
          | inr (known, done) ↦
              elim (get-put_cases s.receipts uuid k (new_receipt p b code uuid) r (rw done at h)) [
                | inl (here, same) ↦ rw (← same) (is_registered-Holds ids p executor known)
                | inr there ↦ before.issued k r there
              ]
        ]

        old :
            (k : String) (v : QaVerdict)
            → get (issue ids p b code uuid s).1.verdicts k ≡ some v
            → IsSound ids (issue ids p b code uuid s).1 v
        old = keep_judged issue-Extends before (verdicts-issue)
