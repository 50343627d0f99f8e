-- ===== src/Domain/World/Attempts.antt =====
-- Attempts, idempotency keys and stale dispatches of the task aggregate.
use subagent_bridge.Prelude.{
  String, ◌≡◌, ◌≢◌, refl, true, false, Option, some, arith, length, distinct, has, eq_iff, ==_ne,
  inl, inr,
}
use subagent_bridge.Prelude.Exec.{ok, err, stale_dispatch}
use subagent_bridge.Domain.Contracts.{Task, Dispatch, make_task, frozen}
use subagent_bridge.Domain.Registry.{QaVerdict, ReceiptIssuerRegistry, IdentityRegistry, Principal}
use subagent_bridge.Domain.Engine.{
  TaskAggregate, new_aggregate, freeze, dispatch, process_succeed, qa_verify, mark_verified,
  change_tree, reconcile, block, recover_unknown,
}
use subagent_bridge.Domain.Engine.Honesty.{is_live}
use subagent_bridge.Domain.Engine.Idle.{freeze_cases, change_tree_cases, reconcile_cases, rebound}
use subagent_bridge.Domain.Engine.Live.{
  dispatch_cases, new_dispatch, counted, process_succeed_cases, qa_verify_cases,
  mark_verified_cases,
}
use subagent_bridge.Domain.World.{
  World, Call, after, Reach, start, next, register_call, issue_call, evidence_call, verdict_call,
  freeze_call, dispatch_call, succeed_call, verify_call, mark_call, change_call, reconcile_call,
  block_call, recover_call,
}

-- Once the tree has changed, no report of a finished process is taken: every call of
-- `process_succeeded`, also for the dispatch that was active before, raises StaleDispatch and
-- changes nothing.
pub stale_after_change :
    (a a' : TaskAggregate) (tree : String)
    → change_tree tree a ≡ (ok tt, a')
    → tree ≢ a.task.tree_sha
    → (id sha : String) → process_succeed id sha a' ≡ (err stale_dispatch, a')
unfolding change_tree process_succeed make_task
stale_after_change a a' tree done new id sha = ground (arith, ==_ne tree a.task.tree_sha new)

pub record IsCounted (a : TaskAggregate) : Type 0 where
  pub keys : distinct a.used_keys ≡ true
  pub count : a.attempt ≡ length a.used_keys
  pub latest :
      is_live a.status ≡ true
      → (d : Dispatch) × (a.active_dispatch ≡ some d)
        × (d.attempt ≡ a.attempt)
        × (has d.idempotency_key a.used_keys ≡ true)

module _ (ids : IdentityRegistry) (a : TaskAggregate) (h : IsCounted a) where
  idle-IsCounted :
      (a' : TaskAggregate)
      → is_live a'.status ≡ false
      → a'.used_keys ≡ a.used_keys
      → a'.attempt ≡ a.attempt
      → IsCounted a'
  idle-IsCounted a' idle keys count = record {
    keys = rw keys h.keys;
    count = rw (keys, count) h.count;
    latest = λ e. absurd (ground arith);
  }

  freeze-IsCounted : (who : Principal) → IsCounted (freeze ids who a).1
  freeze-IsCounted who = elim (freeze_cases ids a who) [
    | inl same ↦ rw same h
    | inr (ready, done) ↦ rw done (idle-IsCounted (record a { status = frozen }) refl refl refl)
  ]

  change_tree-IsCounted : (tree : String) → IsCounted (change_tree tree a).1
  unfolding rebound
  change_tree-IsCounted tree = elim (change_tree_cases a tree) [
    | inl same ↦ rw same h
    | inr done ↦ rw done (idle-IsCounted _ refl refl refl)
  ]

  reconcile-IsCounted :
      (who : Principal) (new : Option String) → IsCounted (reconcile ids who new a).1
  unfolding rebound
  reconcile-IsCounted who new = elim (reconcile_cases ids a who new) [
    | inl same ↦ rw same h
    | inr done ↦ rw done (idle-IsCounted _ refl refl refl)
  ]

  process_succeed-IsCounted : (id tree : String) → IsCounted (process_succeed id tree a).1
  process_succeed-IsCounted id tree = elim (process_succeed_cases a id tree) [
    | inl same ↦ rw same h
    | inr (ready, done) ↦
        rw done (record { keys = h.keys; count = h.count; latest = λ e. h.latest (ground arith) })
  ]

  qa_verify-IsCounted :
      (s : ReceiptIssuerRegistry) (who : Principal) (v : QaVerdict)
      → IsCounted (qa_verify ids s who v a).1
  qa_verify-IsCounted s who v = elim (qa_verify_cases ids s a who v) [
    | inl same ↦ rw same h
    | inr (d, known, ready, active, good, own, done) ↦
        rw done (record { keys = h.keys; count = h.count; latest = λ e. h.latest (ground arith) })
  ]

  mark_verified-IsCounted : (who : Principal) → IsCounted (mark_verified ids who a).1
  mark_verified-IsCounted who = elim (mark_verified_cases ids a who) [
    | inl same ↦ rw same h
    | inr (known, ready, done) ↦
        rw done (record { keys = h.keys; count = h.count; latest = λ e. h.latest (ground arith) })
  ]

  dispatch-IsCounted :
      (who : Principal) (key uuid : String) → IsCounted (dispatch ids who key uuid a).1
  unfolding counted
  dispatch-IsCounted who key uuid = elim (dispatch_cases ids a who key uuid) [
    | inl (e, failed) ↦ rw failed h
    | inr (inl (ready, new, burnt)) ↦ rw burnt (record {
      keys = ground (arith, h.keys);
      count = omega (arith, h.count);
      latest = λ e. absurd (ground arith);
    })
    | inr (inr (known, ready, new, done)) ↦ rw done (record {
      keys = ground (arith, h.keys);
      count = omega (arith, h.count);
      latest = λ e. (new_dispatch a key uuid, refl, refl, ground (arith, eq_iff key key));
    })
  ]

after-IsCounted : (c : Call) (w : World) → IsCounted w.agg → IsCounted (after c w).agg
unfolding after block recover_unknown
after-IsCounted (register_call who role secret) w h = h
after-IsCounted (issue_call p b code uuid) w h = h
after-IsCounted (evidence_call receipt b uuid) w h = h
after-IsCounted (verdict_call p evidence b accepted uuid) w h = h
after-IsCounted (freeze_call p) w h = freeze-IsCounted w.ids w.agg h p
after-IsCounted (dispatch_call p key uuid) w h = dispatch-IsCounted w.ids w.agg h p key uuid
after-IsCounted (succeed_call id tree) w h = process_succeed-IsCounted w.ids w.agg h id tree
after-IsCounted (verify_call p v) w h = qa_verify-IsCounted w.ids w.agg h w.registry p v
after-IsCounted (mark_call p) w h = mark_verified-IsCounted w.ids w.agg h p
after-IsCounted (change_call tree) w h = change_tree-IsCounted w.ids w.agg h tree
after-IsCounted (reconcile_call p new) w h = reconcile-IsCounted w.ids w.agg h p new
after-IsCounted block_call w h = idle-IsCounted w.ids w.agg h (block w.agg) refl refl refl
after-IsCounted recover_call w h =
    idle-IsCounted w.ids w.agg h (recover_unknown w.agg) refl refl refl

-- In every reachable world no idempotency key was used twice, the attempt number is the number of
-- keys used, and a dispatch that is on its way or judged is the latest attempt, under a used key.
pub attempts-IsCounted : {task : Task} {w : World} → Reach task w → IsCounted w.agg
unfolding new_aggregate
attempts-IsCounted start = record { keys = refl; count = refl; latest = λ e. absurd (ground arith) }
attempts-IsCounted (next {w = w} r c f) = after-IsCounted c w (attempts-IsCounted r)
