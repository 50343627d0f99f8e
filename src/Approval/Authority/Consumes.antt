-- ===== src/Approval/Authority/Consumes.antt =====
-- What a successful consumption and a successful issue rest on.
use subagent_bridge.Prelude.{
  ℕ, ◌+◌, String, true, false, ◌&&◌, ◌≡◌, ◌⊎◌, inl, inr, refl, ap, ◌∙◌, none, some, List, ◌∷◌, has,
  ltb, leb, ==→eq, Bool-cases, ◌==◌,
}
use subagent_bridge.Prelude.Exec.{Result, ok, pure, continue, continue-ok}
use subagent_bridge.Prelude.Dict.{get}
use subagent_bridge.Prelude.Text.{is_blank}
use subagent_bridge.Approval.Crypto.{Crypto}
use subagent_bridge.Approval.Broker.{
  ApprovalAction, ApprovalBroker, is_approved, expire, expire_if_needed, get_action,
}
use subagent_bridge.Approval.Broker.Vouched.{get_cases}
use subagent_bridge.Approval.Authority.{
  after_consume, Denial, Answer, granted, denied, TrustedApprovalAuthority, consume,
  compute_action_resource, verify_and_consume, new_ticket, issue_execution_ticket, unknown_action,
  not_approved, wrong_worker, wrong_resource, missing_action, already_consumed, bad_ttl,
}

-- A refusal: no action is consumed, and at most a deadline was applied by the lookup.
pub record IsRefusal {A : Type 0} (id : String) (now : ℕ) (s : TrustedApprovalAuthority)
    (r : Result (Answer A) × TrustedApprovalAuthority) : Type 0 where
  pub reason : Denial
  pub answer : r.0 ≡ ok (denied reason)
  pub unconsumed : r.1.consumed_actions ≡ s.consumed_actions
  pub looked_up : (r.1.broker ≡ s.broker) ⊎ (r.1.broker ≡ (get_action id now s.broker).1)

-- A consumption that is granted.
pub record IsConsumption (id worker resource : String) (s t : TrustedApprovalAuthority)
    : Type 0 where
  pub action : ApprovalAction
  pub named : is_blank id ≡ false
  pub unused : has id s.consumed_actions ≡ false
  pub found : get s.broker.actions id ≡ some action
  pub approved : is_approved action.state ≡ true
  pub session : action.session_id ≡ worker
  pub resource_is : action.resource ≡ resource
  pub broker_kept : t.broker ≡ s.broker
  pub consumed : t.consumed_actions ≡ id ∷ s.consumed_actions

refusal :
    {A : Type 0} {id : String} {now : ℕ} {s : TrustedApprovalAuthority}
    {r : Result (Answer A) × TrustedApprovalAuthority} (reason : Denial) (b : ApprovalBroker)
    → (b ≡ s.broker) ⊎ (b ≡ (get_action id now s.broker).1)
    → r ≡ (ok (denied reason), record s { broker = b })
    → IsRefusal id now s r
refusal reason b looked e = record {
  reason = reason;
  answer = ap (λ x. x.0) e;
  unconsumed = ap (λ x. x.1.consumed_actions) e;
  looked_up = rw e looked;
}

consumption :
    {id worker resource : String} {s : TrustedApprovalAuthority}
    {r : Result (Answer Unit) × TrustedApprovalAuthority} (action : ApprovalAction)
    → is_blank id ≡ false
    → has id s.consumed_actions ≡ false
    → get s.broker.actions id ≡ some action
    → is_approved action.state ≡ true
    → action.session_id ≡ worker
    → action.resource ≡ resource
    → r ≡ (ok (granted tt), record s { consumed_actions = id ∷ s.consumed_actions })
    → (r.0 ≡ ok (granted tt)) × IsConsumption id worker resource s r.1
consumption action named unused found approved session resource_is e = (
  ap (λ x. x.0) e,
  record {
    action = action;
    named = named;
    unused = unused;
    found = found;
    approved = approved;
    session = session;
    resource_is = resource_is;
    broker_kept = ap (λ x. x.1.broker) e;
    consumed = ap (λ x. x.1.consumed_actions) e;
  },
)

module _ (crypto : Crypto) where
  consume_cases :
      (id worker resource : String) (a : ApprovalAction) (s : TrustedApprovalAuthority)
      → ((r : Denial) × (consume crypto id worker resource (some a) s ≡ (ok (denied r), s)))
        ⊎ ((is_approved a.state ≡ true)
            × (a.session_id ≡ worker)
            × (a.resource ≡ resource)
            × (consume crypto id worker resource (some a) s
                ≡ (ok (granted tt), record s { consumed_actions = id ∷ s.consumed_actions })))
  unfolding consume
  consume_cases id worker resource a s = elim (Bool-cases (is_approved a.state)) [
    | inr idle ↦ inl (not_approved, rw idle)
    | inl approved ↦ elim (Bool-cases (a.session_id == worker)) [
      | inr other ↦ inl (wrong_worker, rw (approved, other))
      | inl session ↦ elim (Bool-cases (a.resource == resource)) [
        | inr other ↦ inl (wrong_resource, rw (approved, session, other))
        | inl same ↦ inr (approved, ==→eq _ _ session, ==→eq _ _ same, rw (approved, session, same))
      ]
    ]
  ]

  consume-none :
      (id worker resource : String) (s : TrustedApprovalAuthority)
      → consume crypto id worker resource none s ≡ (ok (denied unknown_action), s)
  unfolding consume
  consume-none id worker resource s = refl

  consume_expired :
      (id worker resource : String) (a : ApprovalAction) (s : TrustedApprovalAuthority)
      → consume crypto id worker resource (some (expire a)) s ≡ (ok (denied not_approved), s)
  unfolding consume
  consume_expired id worker resource a s = refl

  pub verify_cases :
      (id worker task : String) (command : List String) (path : String) (now : ℕ)
      (s : TrustedApprovalAuthority)
      → IsRefusal id now s (verify_and_consume crypto id worker task command path now s)
        ⊎ (((verify_and_consume crypto id worker task command path now s).0 ≡ ok (granted tt))
            × IsConsumption id worker
                (compute_action_resource crypto command path task)
                s
                (verify_and_consume crypto id worker task command path now s).1)
  unfolding verify_and_consume
  verify_cases id worker task command path now s =
      let resource = compute_action_resource crypto command path task in
      elim (Bool-cases (is_blank id)) [
        | inl blank ↦ inl (refusal missing_action s.broker (inl refl) (rw blank))
        | inr named ↦ elim (Bool-cases (has id s.consumed_actions)) [
          | inl seen ↦ inl (refusal already_consumed s.broker (inl refl) (rw (named, seen)))
          | inr unused ↦ elim (get_cases id now s.broker) [
            | inl (absent, same) ↦ inl (
                refusal unknown_action s.broker (inl refl)
                  (rw (named, unused, same) (consume-none id worker resource s)))
            | inr (action, found, inl (early, same)) ↦
                elim (consume_cases id worker resource action s) [
                  | inl (reason, refused) ↦
                      inl (refusal reason s.broker (inl refl) (rw (named, unused, same, refused)))
                  | inr (approved, session, resource_is, go) ↦ inr (
                      consumption action named unused found approved session resource_is
                        (rw (named, unused, same, go)))
                ]
            | inr (action, found, inr late) ↦ inl (
                refusal not_approved (get_action id now s.broker).1 (inr refl) (
                  rw (named, unused, late)
                    (consume_expired id worker resource action
                      (record s { broker = (expire_if_needed action now s.broker).1 }))))
          ]
        ]
      ]

  issue_step :
      (id worker task : String) (command : List String) (path secret : String)
      (ttl now issued_at : ℕ) (s : TrustedApprovalAuthority)
      → (ltb 0 ttl && leb ttl 60000) ≡ true
      → issue_execution_ticket crypto id worker task command path secret ttl now issued_at s
        ≡ continue (verify_and_consume crypto id worker task command path now s) (λ valid. pure (
            after_consume
              (new_ticket crypto id worker task
                (compute_action_resource crypto command path task)
                (issued_at + ttl)
                secret)
              valid))
  unfolding issue_execution_ticket
  issue_step id worker task command path secret ttl now issued_at s fine = rw fine refl

  issue_refused :
      (id worker task : String) (command : List String) (path secret : String)
      (ttl now issued_at : ℕ) (s : TrustedApprovalAuthority)
      → (ltb 0 ttl && leb ttl 60000) ≡ false
      → issue_execution_ticket crypto id worker task command path secret ttl now issued_at s
        ≡ (ok (denied bad_ttl), s)
  unfolding issue_execution_ticket
  issue_refused id worker task command path secret ttl now issued_at s outside = rw outside refl

  -- An issued ticket has consumed the action, and is the ticket of the arguments.
  pub issue_cases :
      (id worker task : String) (command : List String) (path secret : String)
      (ttl now issued_at : ℕ) (s : TrustedApprovalAuthority)
      → IsRefusal id now s
          (issue_execution_ticket crypto id worker task command path secret ttl now issued_at s)
        ⊎ (((issue_execution_ticket crypto id worker task command path secret ttl now issued_at s).0
              ≡ ok (
                  granted (
                    new_ticket crypto id worker task
                      (compute_action_resource crypto command path task)
                      (issued_at + ttl)
                      secret)))
            × ((ltb 0 ttl && leb ttl 60000) ≡ true)
            × IsConsumption id worker
                (compute_action_resource crypto command path task)
                s
                (issue_execution_ticket crypto id worker task command path secret ttl now issued_at
                  s).1)
  issue_cases id worker task command path secret ttl now issued_at s =
      let resource = compute_action_resource crypto command path task in
      let ticket = new_ticket crypto id worker task resource (issued_at + ttl) secret in
      elim (Bool-cases (ltb 0 ttl && leb ttl 60000)) [
        | inr outside ↦ inl (
            refusal bad_ttl s.broker (inl refl)
              (issue_refused id worker task command path secret ttl now issued_at s outside))
        | inl fine ↦ elim (verify_cases id worker task command path now s) [
          | inl h ↦
              let bound = continue-ok _ _ (λ valid. pure (after_consume ticket valid)) h.answer in
              let whole = issue_step id worker task command path secret ttl now issued_at s fine in
              let same = whole ∙ bound in
              inl (record {
                reason = h.reason;
                answer = ap (λ x. x.0) same;
                unconsumed = ap (λ x. x.1.consumed_actions) same ∙ h.unconsumed;
                looked_up = rw same h.looked_up;
              })
          | inr (answer, c) ↦
              let bound = continue-ok _ _ (λ valid. pure (after_consume ticket valid)) answer in
              let whole = issue_step id worker task command path secret ttl now issued_at s fine in
              let same = whole ∙ bound in inr (ap (λ x. x.0) same, fine, rw same c)
        ]
      ]
