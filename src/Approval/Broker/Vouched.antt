-- ===== src/Approval/Broker/Vouched.antt =====
-- Every approved action of the broker was approved: what each operation keeps.
use subagent_bridge.Prelude.{
  ℕ, ◌+◌, String, Bool, true, false, ◌&&◌, ◌||◌, ◌≡◌, ◌⊎◌, inl, inr, ◌∙◌, ap, none, some, List, [],
  ◌∷◌, has, arith, ==→eq, Bool-cases, Option-cases, ◌==◌,
}
use subagent_bridge.Prelude.Exec.{
  state-pure, Error, ok, err, type_error, permission_error, key_error,
}
use subagent_bridge.Prelude.Dict.{Dict, get, put, get-put_cases}
use subagent_bridge.Prelude.Text.{is_blank}
use subagent_bridge.Approval.Crypto.{Crypto}
use subagent_bridge.Approval.Broker.{
  ApprovalAction, ApprovalBroker, action_id_of, new_action, create_action, is_approved, is_blocked,
  is_due, expire, expire_if_needed, is_ascii, resolved, resolve_by_human, get_action, add_blocked,
  expire_all, list_blocked,
}

-- What is known of an approved action, by its identifier, session and resource.
abbrev pub Voucher : Type 1
Voucher = String → String → String → Type 0

pub record IsVouched (P : Voucher) (secret : String) (s : ApprovalBroker) : Type 0 where
  pub guarded : s.secret ≡ secret
  pub keyed : (k : String) (a : ApprovalAction) → get s.actions k ≡ some a → a.action_id ≡ k
  pub earned :
      (k : String) (a : ApprovalAction)
      → get s.actions k ≡ some a
      → is_approved a.state ≡ true
      → P k a.session_id a.resource

module _ {P : Voucher} {secret : String} where
  put-IsVouched :
      (s : ApprovalBroker) (v : ApprovalAction) (consumed : List String)
      → IsVouched P secret s
      → (is_approved v.state ≡ true → P v.action_id v.session_id v.resource)
      → IsVouched P secret
          (record s { actions = put s.actions v.action_id v; consumed_fingerprints = consumed })
  put-IsVouched s v consumed h new = record {
    guarded = h.guarded;
    keyed = λ k a e. elim (get-put_cases s.actions v.action_id k v a e) [
      | inl (here, same) ↦ rw (← same) here
      | inr old ↦ h.keyed k a old
    ];
    earned = λ k a e approve. elim (get-put_cases s.actions v.action_id k v a e) [
      | inl (here, same) ↦ rw (← same, ← here) (new (ap (λ x. is_approved x.state) same ∙ approve))
      | inr old ↦ h.earned k a old approve
    ];
  }

weaken-IsVouched :
    {P Q : Voucher} {secret : String} {s : ApprovalBroker}
    → ((k w r : String) → P k w r → Q k w r)
    → IsVouched P secret s
    → IsVouched Q secret s
weaken-IsVouched grow h = record {
  guarded = h.guarded;
  keyed = h.keyed;
  earned = λ k a e h'. grow k a.session_id a.resource (h.earned k a e h');
}

pub expire_cases :
    (action : ApprovalAction) (now : ℕ) (s : ApprovalBroker)
    → ((is_due action now ≡ false) × (expire_if_needed action now s ≡ (ok action, s)))
      ⊎ ((is_due action now ≡ true)
          × (expire_if_needed action now s ≡ (
            ok (expire action),
            record s { actions = put s.actions action.action_id (expire action) },
          )))
unfolding expire_if_needed
expire_cases action now s = elim (Bool-cases (is_due action now)) [
  | inl due ↦ inr (due, rw due)
  | inr early ↦ inl (early, rw early)
]

-- What a resolution is when it returns; when it raises, at most the deadline was applied.
pub resolve_cases :
    (id : String) (approve : Bool) (token reason : String) (now : ℕ) (s : ApprovalBroker)
    → ((e : Error) × (resolve_by_human id approve token reason now s ≡ (err e, s)))
      ⊎ (((action : ApprovalAction) × (e : Error) × (resolve_by_human id approve token reason now s
              ≡ (err e, (expire_if_needed action now s).1)))
          ⊎ ((action : ApprovalAction) × (get s.actions id ≡ some action)
              × (token ≡ s.secret)
              × (is_blocked action.state ≡ true)
              × (is_due action now ≡ false)
              × (resolve_by_human id approve token reason now s ≡ (
                ok (resolved action approve reason),
                record s {
                  actions = put s.actions id (resolved action approve reason);
                  consumed_fingerprints = action.fingerprint ∷ s.consumed_fingerprints;
                },
              ))))
unfolding resolve_by_human
resolve_cases id approve token reason now s =
    elim (Bool-cases (is_ascii token && is_ascii s.secret)) [
      | inr odd ↦ inl (type_error, rw odd)
      | inl ascii ↦ elim (Bool-cases (token == s.secret)) [
        | inr wrong ↦ inl (permission_error, rw (ascii, wrong))
        | inl right ↦ elim (Option-cases (get s.actions id)) [
          | inl absent ↦ inl (key_error, rw (ascii, right, absent))
          | inr (action, found) ↦ elim (expire_cases action now s) [
            | inr (due, late) ↦ inr (inl (action, permission_error, rw (ascii, right, found, late)))
            | inl (early, same) ↦ elim (Bool-cases (is_blocked action.state)) [
              | inr over ↦ inl (permission_error, rw (ascii, right, found, same, over))
              | inl waiting ↦ elim (Bool-cases (has action.fingerprint s.consumed_fingerprints)) [
                | inl seen ↦ inl (permission_error, rw (ascii, right, found, same, waiting, seen))
                | inr new ↦ inr (
                    inr (
                      action,
                      found,
                      ==→eq token s.secret right,
                      waiting,
                      early,
                      rw (ascii, right, found, same, waiting, new),
                    ))
              ]
            ]
          ]
        ]
      ]
    ]

-- What a lookup finds, and what it changes.
pub get_cases :
    (id : String) (now : ℕ) (s : ApprovalBroker)
    → ((get s.actions id ≡ none) × (get_action id now s ≡ (ok none, s)))
      ⊎ ((action : ApprovalAction) × (get s.actions id ≡ some action)
          × (((is_due action now ≡ false) × (get_action id now s ≡ (ok (some action), s)))
              ⊎ (get_action id now s
                  ≡ (ok (some (expire action)), (expire_if_needed action now s).1))))
unfolding get_action
get_cases id now s = elim (Option-cases (get s.actions id)) [
  | inl absent ↦ inl (absent, rw absent)
  | inr (action, found) ↦ inr (
    action,
    found,
    elim (expire_cases action now s) [
      | inl (early, same) ↦ inl (early, rw (found, same))
      | inr (due, late) ↦ inr (rw (found, late))
    ],
  )
]

module _ {P : Voucher} {secret : String} where
  expired-IsVouched :
      (action : ApprovalAction) (s : ApprovalBroker)
      → IsVouched P secret s
      → IsVouched P secret (record s { actions = put s.actions action.action_id (expire action) })
  expired-IsVouched action s h =
      put-IsVouched s (expire action) s.consumed_fingerprints h (λ e. absurd (ground arith))

  pub expire-IsVouched :
      (action : ApprovalAction) (now : ℕ) (s : ApprovalBroker)
      → IsVouched P secret s
      → IsVouched P secret (expire_if_needed action now s).1
  expire-IsVouched action now s h = elim (expire_cases action now s) [
    | inl (early, same) ↦ rw same h
    | inr (due, late) ↦ rw late (expired-IsVouched action s h)
  ]

  pub get_action-IsVouched :
      (id : String) (now : ℕ) (s : ApprovalBroker)
      → IsVouched P secret s
      → IsVouched P secret (get_action id now s).1
  get_action-IsVouched id now s h = elim (get_cases id now s) [
    | inl (absent, same) ↦ rw same h
    | inr (action, found, inl (early, same)) ↦ rw same h
    | inr (action, found, inr late) ↦ rw late (expire-IsVouched action now s h)
  ]

  pub create_action-IsVouched :
      (crypto : Crypto) (session operation resource nonce : String) (now : ℕ) (s : ApprovalBroker)
      → IsVouched P secret s
      → IsVouched P secret (create_action crypto session operation resource nonce now s).1
  unfolding create_action
  create_action-IsVouched crypto session operation resource nonce now s h =
      elim (Bool-cases (is_blank session || is_blank operation)) [
        | inl blank ↦ rw blank h
        | inr fine ↦
            let id = action_id_of crypto session operation resource nonce in
            rw fine (
              put-IsVouched s (new_action crypto id session operation resource (now + s.ttl))
                s.consumed_fingerprints h (λ e. absurd (ground arith)))
      ]

  expire_all-IsVouched :
      (rows : Dict ApprovalAction) (now : ℕ) (s : ApprovalBroker)
      → IsVouched P secret s
      → IsVouched P secret (expire_all rows now s).1
  unfolding expire_all
  expire_all-IsVouched [] now s h = h
  expire_all-IsVouched ((k, action) ∷ rows) now s h = elim (expire_cases action now s) [
    | inl (early, same) ↦
        rw (same, state-pure (expire_all rows now s) (add_blocked action))
          (expire_all-IsVouched rows now s h)
    | inr (due, late) ↦
        let mid = record s { actions = put s.actions action.action_id (expire action) } in
        rw (late, state-pure (expire_all rows now mid) (add_blocked (expire action)))
          (expire_all-IsVouched rows now mid (expired-IsVouched action s h))
  ]

  pub list_blocked-IsVouched :
      (now : ℕ) (s : ApprovalBroker)
      → IsVouched P secret s
      → IsVouched P secret (list_blocked now s).1
  unfolding list_blocked
  list_blocked-IsVouched now s h = expire_all-IsVouched s.actions now s h

-- A resolution keeps the vouchers when it vouches for what it approves.
pub resolve-IsVouched :
    {P Q : Voucher} {secret : String} (id : String) (approve : Bool) (token reason : String)
    (now : ℕ) (s : ApprovalBroker)
    → IsVouched P secret s
    → ((k w r : String) → P k w r → Q k w r)
    → ((a : ApprovalAction)
        → (resolve_by_human id approve token reason now s).0 ≡ ok a
        → token ≡ secret
        → is_approved a.state ≡ true
        → Q a.action_id a.session_id a.resource)
    → IsVouched Q secret (resolve_by_human id approve token reason now s).1
resolve-IsVouched id approve token reason now s h grow new =
    let old = weaken-IsVouched grow h in
    elim (resolve_cases id approve token reason now s) [
      | inl (e, same) ↦ rw same old
      | inr (inl (action, e, late)) ↦ rw late (expire-IsVouched action now s old)
      | inr (inr (action, found, right, waiting, early, done)) ↦
          let now_resolved = resolved action approve reason in
          let consumed = action.fingerprint ∷ s.consumed_fingerprints in
          rw (done, ← h.keyed id action found)
            (put-IsVouched s now_resolved consumed old
              (new now_resolved (ap (λ x. x.0) done) (right ∙ h.guarded)))
    ]
