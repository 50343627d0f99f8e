-- ===== src/Domain/World/Verified.antt =====
-- A task is VERIFIED only with a QA verdict that rests on successful receipts of executors.
use subagent_bridge.Prelude.{
  String, ◌≡◌, ◌≢◌, refl, sym, ◌∙◌, true, some, List, [], ◌∷◌, All, arith,
}
use subagent_bridge.Prelude.Dict.{get}
use subagent_bridge.Domain.Contracts.{Task, Dispatch, verified, qa, executor}
use subagent_bridge.Domain.Registry.{
  ExecutorReceipt, QaVerdict, IdentityRegistry, ReceiptIssuerRegistry,
}
use subagent_bridge.Domain.Registry.Provenance.{Holds, Succeeded, IsSound, IsProvenanced, Extends}
use subagent_bridge.Domain.Registry.Steps.{
  register-Extends, register-IsProvenanced, issue-Extends, issue-IsProvenanced,
}
use subagent_bridge.Domain.Registry.Verdicts.{
  create_evidence-Extends, create_evidence-IsProvenanced, create_qa_verdict-Extends,
  create_qa_verdict-IsProvenanced,
}
use subagent_bridge.Domain.Engine.{new_aggregate}
use subagent_bridge.Domain.Engine.Honesty.{IsHonest, Extends-IsHonest, idle-IsHonest}
use subagent_bridge.Domain.Engine.Idle.{
  block-IsHonest, recover_unknown-IsHonest, freeze-IsHonest, change_tree-IsHonest,
  reconcile-IsHonest,
}
use subagent_bridge.Domain.Engine.Live.{
  dispatch-IsHonest, process_succeed-IsHonest, qa_verify-IsHonest, mark_verified-IsHonest,
}
use subagent_bridge.Domain.World.{
  World, Call, after, IsFresh, new_world, Reach, start, next, register_call, issue_call,
  evidence_call, verdict_call, freeze_call, dispatch_call, succeed_call, verify_call, mark_call,
  change_call, reconcile_call, block_call, recover_call,
}

pub record IsGood (w : World) : Type 0 where
  pub provenanced : IsProvenanced w.ids w.registry
  pub honest : IsHonest w.ids w.registry w.agg

-- A step of the registries, under an aggregate that does not move.
grown :
    {w : World} {ids' : IdentityRegistry} {s' : ReceiptIssuerRegistry}
    → IsGood w
    → IsProvenanced ids' s'
    → Extends w.ids w.registry ids' s'
    → IsGood (record w { ids = ids'; registry = s' })
grown {w} g p x = record { provenanced = p; honest = Extends-IsHonest w.agg x g.honest }

after-IsGood : (c : Call) (w : World) → IsFresh c w → IsGood w → IsGood (after c w)
unfolding after
after-IsGood (register_call who role secret) w f g =
    grown g (register-IsProvenanced who role secret w.ids w.registry g.provenanced)
      (register-Extends who role secret w.ids w.registry)
after-IsGood (issue_call p b code uuid) w f g =
    grown g (issue-IsProvenanced w.ids p b code uuid w.registry f g.provenanced)
      (issue-Extends w.ids p b code uuid w.registry f)
after-IsGood (evidence_call receipt b uuid) w f g =
    grown g (create_evidence-IsProvenanced receipt b uuid w.registry w.ids g.provenanced)
      (create_evidence-Extends receipt b uuid w.registry w.ids)
after-IsGood (verdict_call p evidence b accepted uuid) w f g =
    grown g
      (create_qa_verdict-IsProvenanced w.ids p evidence b accepted uuid w.registry g.provenanced)
      (create_qa_verdict-Extends w.ids p evidence b accepted uuid w.registry)
after-IsGood (freeze_call p) w f g = record {
  provenanced = g.provenanced;
  honest = freeze-IsHonest w.ids w.registry w.agg g.honest p;
}
after-IsGood (dispatch_call p key uuid) w f g = record {
  provenanced = g.provenanced;
  honest = dispatch-IsHonest w.ids w.registry w.agg g.honest p key uuid;
}
after-IsGood (succeed_call id tree) w f g = record {
  provenanced = g.provenanced;
  honest = process_succeed-IsHonest w.ids w.registry w.agg g.honest id tree;
}
after-IsGood (verify_call p v) w f g = record {
  provenanced = g.provenanced;
  honest = qa_verify-IsHonest w.ids w.registry w.agg g.honest p v g.provenanced;
}
after-IsGood (mark_call p) w f g = record {
  provenanced = g.provenanced;
  honest = mark_verified-IsHonest w.ids w.registry w.agg g.honest p;
}
after-IsGood (change_call tree) w f g = record {
  provenanced = g.provenanced;
  honest = change_tree-IsHonest w.ids w.registry w.agg g.honest tree;
}
after-IsGood (reconcile_call p new) w f g = record {
  provenanced = g.provenanced;
  honest = reconcile-IsHonest w.ids w.registry w.agg g.honest p new;
}
after-IsGood block_call w f g = record {
  provenanced = g.provenanced;
  honest = block-IsHonest w.ids w.registry w.agg g.honest;
}
after-IsGood recover_call w f g = record {
  provenanced = g.provenanced;
  honest = recover_unknown-IsHonest w.ids w.registry w.agg g.honest;
}

new_world-IsGood : (task : Task) → IsGood (new_world task)
unfolding get new_aggregate
new_world-IsGood task = record {
  provenanced = record {
    issued = λ k r e. absurd (ground arith);
    judged = λ k v e. absurd (ground arith);
  };
  honest = idle-IsHonest _ _ (new_aggregate task) refl refl;
}

pub Reach-IsGood : {task : Task} {w : World} → Reach task w → IsGood w
Reach-IsGood {task} start = new_world-IsGood task
Reach-IsGood (next {w = w} r c f) = after-IsGood c w f (Reach-IsGood r)

-- The dispatch and the verdict behind a VERIFIED task.
abbrev pub IsEarned : World → Type 0
IsEarned w =
    (d : Dispatch) × (v : QaVerdict) × (w.agg.active_dispatch ≡ some d)
    × (w.agg.qa_verdict ≡ some v)
    × (w.agg.verified_tree_sha ≡ some w.agg.task.tree_sha)
    × (v.accepted ≡ true)
    × (v.task_id ≡ w.agg.task.task_id)
    × (v.dispatch_id ≡ d.dispatch_id)
    × (v.tree_sha ≡ w.agg.task.tree_sha)
    × IsSound w.ids w.registry v

-- In every reachable world, a VERIFIED task has an active dispatch of this task and an accepting
-- verdict about that dispatch and the task's present tree; the verdict's issuer is registered as
-- QA, it names at least one receipt, and each receipt it names was issued by a registered executor
-- for the same task, dispatch and tree with exit code 0. The verified tree is the present one.
pub verified-IsEarned :
    {task : Task} {w : World} → Reach task w → w.agg.status ≡ verified → IsEarned w
verified-IsEarned {w = w} r e =
    let h = (Reach-IsGood r).honest in
    let (d, v, at, held, acc, t, g, tree, sound) = h.judged (rw e) in
    (d, v, at, held, h.sealed ∙ rw e, acc, t, g, tree, sound)

-- A principal has one role.
one_role : (ids : IdentityRegistry) (a b : String) → Holds ids a qa → Holds ids b executor → a ≢ b
one_role ids a b (x, atx) (y, aty) same = ground (arith, rw same at atx)

issuers_differ :
    (ids : IdentityRegistry) (s : ReceiptIssuerRegistry) (v : QaVerdict) (is : List String)
    → Holds ids v.qa_principal_id qa
    → All (Succeeded ids s v) is
    → All
        (λ i.
          (r : ExecutorReceipt) × (get s.receipts i ≡ some r) × (r.issuer_id ≢ v.qa_principal_id))
        is
issuers_differ ids s v [] h all = tt
issuers_differ ids s v (i ∷ is) h ((r, at, t, d, g, z, ex), rest) = (
  (r, at, λ same. one_role ids v.qa_principal_id r.issuer_id h ex (sym same)),
  issuers_differ ids s v is h rest,
)

-- The verdict behind a VERIFIED task names receipts, none of which its own issuer made.
abbrev pub IsJudgedByAnother : World → Type 0
IsJudgedByAnother w =
    (v : QaVerdict) × (w.agg.qa_verdict ≡ some v)
    × (v.receipt_ids ≢ [])
    × All
        (λ i.
          (r : ExecutorReceipt) × (get w.registry.receipts i ≡ some r)
          × (r.issuer_id ≢ v.qa_principal_id))
        v.receipt_ids

-- Separation of duties: in every reachable world, the QA principal behind a VERIFIED task issued
-- none of the receipts that its verdict names.
pub verified_by_another :
    {task : Task} {w : World} → Reach task w → w.agg.status ≡ verified → IsJudgedByAnother w
verified_by_another {w = w} r e =
    let (d, v, at, held, sealed, acc, t, g, tree, sound) = verified-IsEarned r e in
    (
      v,
      held,
      sound.some_receipt,
      issuers_differ w.ids w.registry v v.receipt_ids sound.by_qa sound.each,
    )
