-- ===== src/Domain/Engine/Live.antt =====
-- The methods that move a dispatch forward keep `IsHonest`, on its raising paths too.
use subagent_bridge.Prelude.{
  ◌+◌, String, ◌≡◌, ◌⊎◌, inl, inr, refl, true, false, ◌||◌, some, ◌∷◌, arith, Bool-cases,
  Option-cases, has, ==→eq, ◌==◌,
}
use subagent_bridge.Prelude.Exec.{Error, ok, err, permission_error, invalid_transition, value_error}
use subagent_bridge.Prelude.Text.{is_blank}
use subagent_bridge.Domain.Contracts.{
  dispatched, process_succeeded, qa_verified, verified, Dispatch, make_dispatch, dispatch_ok, pm,
  qa,
}
use subagent_bridge.Domain.Registry.{
  Principal, QaVerdict, IdentityRegistry, ReceiptIssuerRegistry, Binding, require, is_registered,
  require_verdict, verdict_ok,
}
use subagent_bridge.Domain.Registry.Provenance.{IsProvenanced}
use subagent_bridge.Domain.Registry.Verdicts.{verdict_ok-IsSound}
use subagent_bridge.Domain.Engine.{
  TaskAggregate, is_frozen, is_dispatched, is_succeeded, is_qa_verified, is_current, dispatch,
  process_succeed, qa_verify, mark_verified,
}
use subagent_bridge.Domain.Engine.Honesty.{IsHonest}

module _ (a : TaskAggregate) where
  -- Only the keys and the attempt differ.
  unfoldable pub counted : String → TaskAggregate
  counted key = record a { used_keys = key ∷ a.used_keys; attempt = a.attempt + 1 }

  abbrev pub new_dispatch : String → String → Dispatch
  new_dispatch key uuid = record {
    dispatch_id = uuid;
    task_id = a.task.task_id;
    attempt = a.attempt + 1;
    idempotency_key = key;
    tree_sha = a.task.tree_sha;
    policy_revision = a.task.policy_revision;
  }

  abbrev pub about : Dispatch → Binding
  about d = record {
    task_id = a.task.task_id;
    dispatch_id = d.dispatch_id;
    tree_sha = a.task.tree_sha;
  }

  pub process_succeed_cases :
      (id tree : String)
      → ((process_succeed id tree a).1 ≡ a)
        ⊎ ((is_dispatched a.status ≡ true)
            × ((process_succeed id tree a).1 ≡ record a { status = process_succeeded }))
  unfolding process_succeed
  process_succeed_cases id tree = elim (Bool-cases (is_current a.active_dispatch id tree a.task)) [
    | inr stale ↦ inl (rw stale)
    | inl current ↦ elim (Bool-cases (is_dispatched a.status)) [
      | inr early ↦ inl (rw (current, early))
      | inl ready ↦ inr (ready, rw (current, ready))
    ]
  ]

module _ (ids : IdentityRegistry) (a : TaskAggregate) where
  -- `dispatch` raises before it counts, or in the constructor of `Dispatch`, or succeeds.
  pub dispatch_cases :
      (who : Principal) (key uuid : String)
      → ((e : Error) × (dispatch ids who key uuid a ≡ (err e, a)))
        ⊎ ((is_frozen a.status ≡ true)
            × (has key a.used_keys ≡ false)
            × (dispatch ids who key uuid a ≡ (err value_error, counted a key)))
        ⊎ ((is_registered ids who pm ≡ true)
            × (is_frozen a.status ≡ true)
            × (has key a.used_keys ≡ false)
            × (dispatch ids who key uuid a ≡ (
              ok (new_dispatch a key uuid),
              record a {
                used_keys = key ∷ a.used_keys;
                attempt = a.attempt + 1;
                active_dispatch = some (new_dispatch a key uuid);
                status = dispatched;
              },
            )))
  unfolding dispatch require make_dispatch counted
  dispatch_cases who key uuid = elim (Bool-cases (is_registered ids who pm)) [
    | inr unknown ↦ inl (permission_error, rw unknown)
    | inl known ↦ elim (Bool-cases (is_frozen a.status)) [
      | inr early ↦ inl (invalid_transition, rw (known, early))
      | inl ready ↦ elim (Bool-cases (is_blank key || has key a.used_keys)) [
        | inl used ↦ inl (invalid_transition, rw (known, ready, used))
        | inr new ↦ elim (Bool-cases (dispatch_ok (new_dispatch a key uuid))) [
          | inr bad ↦ inr (inl (ready, ground arith, rw (known, ready, new, bad)))
          | inl fits ↦ inr (inr (known, ready, ground arith, rw (known, ready, new, fits)))
        ]
      ]
    ]
  ]

  pub mark_verified_cases :
      (who : Principal)
      → ((mark_verified ids who a).1 ≡ a)
        ⊎ ((is_registered ids who qa ≡ true)
            × (is_qa_verified a.status ≡ true)
            × ((mark_verified ids who a).1
                ≡ record a { status = verified; verified_tree_sha = some a.task.tree_sha }))
  unfolding mark_verified require
  mark_verified_cases who = elim (Bool-cases (is_registered ids who qa)) [
    | inr unknown ↦ inl (rw unknown)
    | inl known ↦ elim (Bool-cases (is_qa_verified a.status)) [
      | inr early ↦ inl (rw (known, early))
      | inl ready ↦ elim (Option-cases a.qa_verdict) [
        | inl absent ↦ inl (rw (known, ready, absent))
        | inr (v, held) ↦ elim (Bool-cases (v.qa_principal_id == who.principal_id)) [
          | inr other ↦ inl (rw (known, ready, held, other))
          | inl same ↦ inr (known, ready, rw (known, ready, held, same))
        ]
      ]
    ]
  ]

module _ (ids : IdentityRegistry) (s : ReceiptIssuerRegistry) (a : TaskAggregate) where
  pub qa_verify_cases :
      (who : Principal) (v : QaVerdict)
      → ((qa_verify ids s who v a).1 ≡ a)
        ⊎ ((d : Dispatch) × (is_registered ids who qa ≡ true)
            × (is_succeeded a.status ≡ true)
            × (a.active_dispatch ≡ some d)
            × (verdict_ok s v (about a d) ≡ true)
            × (v.qa_principal_id ≡ who.principal_id)
            × ((qa_verify ids s who v a).1
                ≡ record a { qa_verdict = some v; status = qa_verified }))
  unfolding qa_verify require require_verdict
  qa_verify_cases who v = elim (Bool-cases (is_registered ids who qa)) [
    | inr unknown ↦ inl (rw unknown)
    | inl known ↦ elim (Bool-cases (is_succeeded a.status)) [
      | inr early ↦ inl (rw (known, early))
      | inl ready ↦ elim (Option-cases a.active_dispatch) [
        | inl absent ↦ inl (rw (known, ready, absent))
        | inr (d, active) ↦ elim (Bool-cases (verdict_ok s v (about a d))) [
          | inr bad ↦ inl (rw (known, ready, active, bad))
          | inl good ↦ elim (Bool-cases (v.qa_principal_id == who.principal_id)) [
            | inr other ↦ inl (rw (known, ready, active, good, other))
            | inl same ↦ inr (
              d,
              known,
              ready,
              active,
              good,
              ==→eq _ _ same,
              rw (known, ready, active, good, same),
            )
          ]
        ]
      ]
    ]
  ]

module _ (ids : IdentityRegistry) (s : ReceiptIssuerRegistry) (a : TaskAggregate)
    (h : IsHonest ids s a) where
  counted-IsHonest : (key : String) → IsHonest ids s (counted a key)
  unfolding counted
  counted-IsHonest key = record { current = h.current; judged = h.judged; sealed = h.sealed }

  pub dispatch-IsHonest :
      (who : Principal) (key uuid : String) → IsHonest ids s (dispatch ids who key uuid a).1
  dispatch-IsHonest who key uuid = elim (dispatch_cases ids a who key uuid) [
    | inl (e, failed) ↦ rw failed h
    | inr (inl (ready, new, burnt)) ↦ rw burnt (counted-IsHonest key)
    | inr (inr (known, ready, new, done)) ↦ rw done (record {
      current = λ e. (new_dispatch a key uuid, refl, refl, refl);
      judged = λ e. absurd (ground arith);
      sealed = ground (arith, h.sealed);
    })
  ]

  pub process_succeed-IsHonest : (id tree : String) → IsHonest ids s (process_succeed id tree a).1
  process_succeed-IsHonest id tree = elim (process_succeed_cases a id tree) [
    | inl same ↦ rw same h
    | inr (ready, done) ↦ rw done (record {
      current = λ e. h.current (ground arith);
      judged = λ e. absurd (ground arith);
      sealed = ground (arith, h.sealed);
    })
  ]

  pub qa_verify-IsHonest :
      (who : Principal) (v : QaVerdict)
      → IsProvenanced ids s
      → IsHonest ids s (qa_verify ids s who v a).1
  qa_verify-IsHonest who v p = elim (qa_verify_cases ids s a who v) [
    | inl same ↦ rw same h
    | inr (d, known, ready, active, good, own, done) ↦
        let (sound, acc, t, g, tree) = verdict_ok-IsSound ids s v (about a d) p good in
        rw done (record {
          current = λ e. h.current (ground arith);
          judged = λ e. (d, v, active, refl, acc, t, g, tree, sound);
          sealed = ground (arith, h.sealed);
        })
  ]

  pub mark_verified-IsHonest : (who : Principal) → IsHonest ids s (mark_verified ids who a).1
  mark_verified-IsHonest who = elim (mark_verified_cases ids a who) [
    | inl same ↦ rw same h
    | inr (known, ready, done) ↦ rw done (record {
      current = λ e. h.current (ground arith);
      judged = λ e. h.judged (ground arith);
      sealed = refl;
    })
  ]
