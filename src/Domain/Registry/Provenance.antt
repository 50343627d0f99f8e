-- ===== src/Domain/Registry/Provenance.antt =====
-- What the registries keep: a receipt comes from a registered executor, and a verdict from a
-- registered QA principal with successful receipts for exactly its task, dispatch and tree.
use subagent_bridge.Prelude.{
  String, ◌≡◌, ◌≢◌, true, some, List, [], ◌∷◌, All, arith, eq_iff, Option-cases, inl, inr,
}
use subagent_bridge.Prelude.Int.{pos}
use subagent_bridge.Prelude.Dict.{get, get-put}
use subagent_bridge.Domain.Contracts.{Role, qa, executor}
use subagent_bridge.Domain.Registry.{
  Principal, ExecutorReceipt, QaVerdict, IdentityRegistry, ReceiptIssuerRegistry, Bytes, register,
  is_registered,
}
use subagent_bridge.Domain.Registry.Equality.{role_eq→eq}

-- `who` is registered, with this role.
abbrev pub Holds : IdentityRegistry → String → Role → Type 0
Holds ids who role = (secret : Bytes) × (get ids.members who ≡ some (role, secret))

-- The receipt that `i` names succeeded for what the verdict is about.
abbrev pub Succeeded : IdentityRegistry → ReceiptIssuerRegistry → QaVerdict → String → Type 0
Succeeded ids s v i =
    (r : ExecutorReceipt) × (get s.receipts i ≡ some r)
    × (r.task_id ≡ v.task_id)
    × (r.dispatch_id ≡ v.dispatch_id)
    × (r.tree_sha ≡ v.tree_sha)
    × (r.exit_code ≡ pos 0)
    × Holds ids r.issuer_id executor

pub record IsSound (ids : IdentityRegistry) (s : ReceiptIssuerRegistry) (v : QaVerdict)
    : Type 0 where
  pub by_qa : Holds ids v.qa_principal_id qa
  pub some_receipt : v.receipt_ids ≢ []
  pub each : All (Succeeded ids s v) v.receipt_ids

pub record IsProvenanced (ids : IdentityRegistry) (s : ReceiptIssuerRegistry) : Type 0 where
  pub issued :
      (k : String) (r : ExecutorReceipt)
      → get s.receipts k ≡ some r
      → Holds ids r.issuer_id executor
  pub judged : (k : String) (v : QaVerdict) → get s.verdicts k ≡ some v → IsSound ids s v

-- What a step of the registries may do: nothing that is there is lost or replaced.
pub record Extends (ids : IdentityRegistry) (s : ReceiptIssuerRegistry) (ids' : IdentityRegistry)
    (s' : ReceiptIssuerRegistry) : Type 0 where
  pub members :
      (k : String) (e : Role × Bytes) → get ids.members k ≡ some e → get ids'.members k ≡ some e
  pub receipts :
      (k : String) (r : ExecutorReceipt) → get s.receipts k ≡ some r → get s'.receipts k ≡ some r

module _ {ids ids' : IdentityRegistry} {s s' : ReceiptIssuerRegistry}
    (x : Extends ids s ids' s') where
  pub Extends-Holds : (who : String) (role : Role) → Holds ids who role → Holds ids' who role
  Extends-Holds who role (secret, e) = (secret, x.members who (role, secret) e)

  Extends-All :
      (v : QaVerdict) (is : List String) → All (Succeeded ids s v) is → All (Succeeded ids' s' v) is
  Extends-All v [] h = tt
  Extends-All v (i ∷ is) ((r, at, t, d, g, z, w), rest) = (
    (r, x.receipts i r at, t, d, g, z, Extends-Holds r.issuer_id executor w),
    Extends-All v is rest,
  )

  pub Extends-IsSound : {v : QaVerdict} → IsSound ids s v → IsSound ids' s' v
  Extends-IsSound {v} h = record {
    by_qa = Extends-Holds v.qa_principal_id qa h.by_qa;
    some_receipt = h.some_receipt;
    each = Extends-All v v.receipt_ids h.each;
  }

pub is_registered-Holds :
    (ids : IdentityRegistry) (p : Principal) (role : Role)
    → is_registered ids p role ≡ true
    → Holds ids p.principal_id role
unfolding is_registered
is_registered-Holds ids p role h = elim (Option-cases (get ids.members p.principal_id)) [
  | inl e ↦ absurd (ground arith)
  | inr ((registered, secret), e) ↦ (secret, ground (arith, role_eq→eq registered role))
]

-- `register` never replaces a member.
pub register-members :
    (who : String) (role : Role) (secret : Bytes) (ids : IdentityRegistry) (k : String)
    (e : Role × Bytes)
    → get ids.members k ≡ some e
    → get (register who role secret ids).1.members k ≡ some e
unfolding register
register-members who role secret ids k e h =
    ground (arith, get-put ids.members who k (role, secret), eq_iff who k)
