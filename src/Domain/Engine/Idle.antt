-- ===== src/Domain/Engine/Idle.antt =====
-- The methods that leave no dispatch on its way keep `IsHonest`, on its raising paths too.
use subagent_bridge.Prelude.{
  String, ◌≡◌, ◌⊎◌, inl, inr, refl, true, Option, none, arith, Bool-cases, ◌==◌,
}
use subagent_bridge.Prelude.Text.{is_blank}
use subagent_bridge.Domain.Contracts.{Task, frozen, make_task, task_ok, pm}
use subagent_bridge.Domain.Registry.{
  Principal, IdentityRegistry, ReceiptIssuerRegistry, require, is_registered,
}
use subagent_bridge.Domain.Engine.{
  TaskAggregate, can_freeze, is_recovery, freeze, change_tree, reconcile, block, recover_unknown,
  or_else,
}
use subagent_bridge.Domain.Engine.Honesty.{IsHonest, idle-IsHonest}

module _ (a : TaskAggregate) where
  unfoldable pub rebound : Task → TaskAggregate
  rebound task = record a {
    task = task;
    status = frozen;
    active_dispatch = none;
    verified_tree_sha = none;
    qa_verdict = none;
  }

  pub change_tree_cases :
      (tree : String)
      → ((change_tree tree a).1 ≡ a)
        ⊎ ((change_tree tree a).1 ≡ rebound (record a.task { tree_sha = tree }))
  unfolding change_tree make_task rebound
  change_tree_cases tree = elim (Bool-cases (is_blank tree)) [
    | inl blank ↦ inl (rw blank)
    | inr named ↦ elim (Bool-cases (tree == a.task.tree_sha)) [
      | inl old ↦ inl (rw (named, old))
      | inr new ↦ elim (Bool-cases (is_recovery a.status)) [
        | inl lost ↦ inl (rw (named, new, lost))
        | inr sure ↦ elim (Bool-cases (task_ok (record a.task { tree_sha = tree }))) [
          | inl fits ↦ inr (rw (named, new, sure, fits))
          | inr bad ↦ inl (rw (named, new, sure, bad))
        ]
      ]
    ]
  ]

module _ (ids : IdentityRegistry) (a : TaskAggregate) where
  pub freeze_cases :
      (who : Principal)
      → ((freeze ids who a).1 ≡ a)
        ⊎ ((can_freeze a.status ≡ true) × ((freeze ids who a).1 ≡ record a { status = frozen }))
  unfolding freeze require
  freeze_cases who = elim (Bool-cases (is_registered ids who pm)) [
    | inr unknown ↦ inl (rw unknown)
    | inl known ↦ elim (Bool-cases (can_freeze a.status)) [
      | inr early ↦ inl (rw (known, early))
      | inl ready ↦ inr (ready, rw (known, ready))
    ]
  ]

  pub reconcile_cases :
      (who : Principal) (new : Option String)
      → ((reconcile ids who new a).1 ≡ a)
        ⊎ ((reconcile ids who new a).1
            ≡ rebound a (record a.task { tree_sha = or_else new a.task.tree_sha }))
  unfolding reconcile require make_task rebound
  reconcile_cases who new = elim (Bool-cases (is_registered ids who pm)) [
    | inr unknown ↦ inl (rw unknown)
    | inl known ↦ elim (Bool-cases (is_recovery a.status)) [
      | inr sure ↦ inl (rw (known, sure))
      | inl lost ↦
          let tree = or_else new a.task.tree_sha in
          elim (Bool-cases (task_ok (record a.task { tree_sha = tree }))) [
            | inl fits ↦ inr (rw (known, lost, fits))
            | inr bad ↦ inl (rw (known, lost, bad))
          ]
    ]
  ]

module _ (ids : IdentityRegistry) (s : ReceiptIssuerRegistry) (a : TaskAggregate)
    (h : IsHonest ids s a) where
  pub block-IsHonest : IsHonest ids s (block a)
  unfolding block
  block-IsHonest = idle-IsHonest ids s (block a) refl refl

  pub recover_unknown-IsHonest : IsHonest ids s (recover_unknown a)
  unfolding recover_unknown
  recover_unknown-IsHonest = idle-IsHonest ids s (recover_unknown a) refl refl

  pub freeze-IsHonest : (who : Principal) → IsHonest ids s (freeze ids who a).1
  freeze-IsHonest who = elim (freeze_cases ids a who) [
    | inl same ↦ rw same h
    | inr (ready, done) ↦
        rw done (idle-IsHonest ids s (record a { status = frozen }) refl (ground (arith, h.sealed)))
  ]

  rebound-IsHonest : (task : Task) → IsHonest ids s (rebound a task)
  unfolding rebound
  rebound-IsHonest task = idle-IsHonest ids s (rebound a task) refl refl

  pub change_tree-IsHonest : (tree : String) → IsHonest ids s (change_tree tree a).1
  change_tree-IsHonest tree = elim (change_tree_cases a tree) [
    | inl same ↦ rw same h
    | inr done ↦ rw done (rebound-IsHonest (record a.task { tree_sha = tree }))
  ]

  pub reconcile-IsHonest :
      (who : Principal) (new : Option String) → IsHonest ids s (reconcile ids who new a).1
  reconcile-IsHonest who new = elim (reconcile_cases ids a who new) [
    | inl same ↦ rw same h
    | inr done ↦
        rw done (rebound-IsHonest (record a.task { tree_sha = or_else new a.task.tree_sha }))
  ]
