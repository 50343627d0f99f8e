-- ===== src/Approval/Authority/Earned.antt =====
-- Every execution ticket was approved with the secret, for its context, and none twice.
use subagent_bridge.Prelude.{
  ℕ, String, Bool, true, ◌≡◌, ◌⊎◌, inl, inr, refl, sym, ap, ◌∙◌, some, List, [], ◌∷◌, All-weaken,
  map, arith, Bool-cases,
}
use subagent_bridge.Prelude.Exec.{Result, ok, err}
use subagent_bridge.Prelude.Dict.{get}
use subagent_bridge.Prelude.Text.{is_blank}
use subagent_bridge.Approval.Crypto.{Crypto}
use subagent_bridge.Approval.Broker.{
  ApprovalAction, ApprovalBroker, new_broker, resolve_by_human, is_approved,
}
use subagent_bridge.Approval.Broker.Vouched.{
  IsVouched, get_action-IsVouched, create_action-IsVouched, list_blocked-IsVouched,
  resolve-IsVouched,
}
use subagent_bridge.Approval.Authority.{
  Answer, granted, TrustedApprovalAuthority, authority_get_action, approve_by_human,
  request_command_approval, compute_action_resource,
}
use subagent_bridge.Approval.Authority.Consumes.{
  IsRefusal, IsConsumption, verify_cases, issue_cases,
}
use subagent_bridge.Approval.Authority.Grants.{
  Resolution, World, Call, create_call, request_call, resolve_call, approve_call, get_call,
  list_call, consume_call, issue_call, note_resolution, note_grant, after, run, WasApproved,
  IsEarned,
}

pub record IsGood (secret : String) (w : World) : Type 0 where
  pub vouched : IsVouched (WasApproved secret w.resolutions) secret w.authority.broker
  pub consumed : w.authority.consumed_actions ≡ map (λ g. g.action_id) w.grants
  pub earned : IsEarned secret w

grown :
    (secret token : String) (r : Result ApprovalAction) (log : List Resolution)
    (id worker resource : String)
    → WasApproved secret log id worker resource
    → WasApproved secret (note_resolution token r log) id worker resource
grown secret token (ok a) log id worker resource h = inr h
grown secret token (err e) log id worker resource h = h

noted :
    (secret token : String) (a : ApprovalAction) (r : Result ApprovalAction) (log : List Resolution)
    → r ≡ ok a
    → token ≡ secret
    → is_approved a.state ≡ true
    → WasApproved secret (note_resolution token r log) a.action_id a.session_id a.resource
noted secret token a r log e right approved = rw e (inl (right, approved, refl, refl, refl))

module _ {secret : String} {w : World} (h : IsGood secret w) where
  -- A call that only moves the broker.
  moved :
      (b : ApprovalBroker)
      → IsVouched (WasApproved secret w.resolutions) secret b
      → IsGood secret (record w { authority = record w.authority { broker = b } })
  moved b v = record { vouched = v; consumed = h.consumed; earned = h.earned }

  -- A resolution, noted when it returned.
  resolved_step :
      (id : String) (approve : Bool) (token reason : String) (now : ℕ)
      → IsGood secret (record w {
        authority = record w.authority {
          broker = (resolve_by_human id approve token reason now w.authority.broker).1;
        };
        resolutions =
            note_resolution token
              (resolve_by_human id approve token reason now w.authority.broker).0
              w.resolutions;
      })
  resolved_step id approve token reason now =
      let r = resolve_by_human id approve token reason now w.authority.broker in
      let log = note_resolution token r.0 w.resolutions in
      let grow = grown secret token r.0 w.resolutions in
      record {
        vouched =
            resolve-IsVouched id approve token reason now w.authority.broker h.vouched grow
              (λ a e right approved. noted secret token a r.0 w.resolutions e right approved);
        consumed = h.consumed;
        earned = (
          All-weaken (λ g. grow g.action_id g.worker_id g.resource) w.grants h.earned.0,
          h.earned.1,
        );
      }

  -- A consumption or an issue, noted when it was granted.
  granted_step :
      {A : Type 0} (id worker resource : String) (now : ℕ)
      (r : Result (Answer A) × TrustedApprovalAuthority)
      → IsRefusal id now w.authority r
        ⊎ (((a : A) × (r.0 ≡ ok (granted a))) × IsConsumption id worker resource w.authority r.1)
      → IsGood secret (record w {
        authority = r.1;
        grants =
            note_grant
              (record { action_id = id; worker_id = worker; resource = resource })
              r.0
              w.grants;
      })
  granted_step id worker resource now r (inl refused) = rw refused.answer (record {
    vouched = elim refused.looked_up [
      | inl same ↦ rw same h.vouched
      | inr got ↦ rw got (get_action-IsVouched id now w.authority.broker h.vouched)
    ];
    consumed = refused.unconsumed ∙ h.consumed;
    earned = h.earned;
  })
  granted_step id worker resource now r (inr ((a, answer), c)) = rw answer (record {
    vouched = rw c.broker_kept h.vouched;
    consumed = c.consumed ∙ ap (λ x. id ∷ x) h.consumed;
    earned = (
      (
        rw (← c.session, ← c.resource_is) (h.vouched.earned id c.action c.found c.approved),
        h.earned.0,
      ),
      rw (← h.consumed, c.unused) (rw h.consumed h.earned.1),
    );
  })

  approve_step :
      (id token reason : String) (now : ℕ)
      → IsGood secret (record w {
        authority = (approve_by_human id token reason now w.authority).1;
        resolutions =
            note_resolution token
              (approve_by_human id token reason now w.authority).0
              w.resolutions;
      })
  unfolding approve_by_human
  approve_step id token reason now = resolved_step id true token reason now

  get_step :
      (id : String) (now : ℕ)
      → IsGood secret (record w { authority = (authority_get_action id now w.authority).1 })
  unfolding authority_get_action
  get_step id now = elim (Bool-cases (is_blank id)) [
    | inl blank ↦ rw blank h
    | inr named ↦ rw named (moved _ (get_action-IsVouched id now w.authority.broker h.vouched))
  ]

  request_step :
      (crypto : Crypto) (worker task : String) (command : List String) (path nonce : String)
      (now : ℕ)
      → IsGood secret (record w {
        authority =
            (request_command_approval crypto worker task command path nonce now w.authority).1;
      })
  unfolding request_command_approval
  request_step crypto worker task command path nonce now =
      let resource = compute_action_resource crypto command path task in
      moved _ (
        create_action-IsVouched crypto worker "execute_command" resource nonce now
          w.authority.broker h.vouched)

none_found : (k : String) (a : ApprovalAction) → get [] k ≡ some a → ⊥
unfolding get
none_found k a e = ground arith

new_broker_is :
    (secret : String) (ttl : ℕ) (broker : ApprovalBroker)
    → new_broker secret ttl ≡ ok broker
    → (broker.secret ≡ secret) × (broker.actions ≡ [])
unfolding new_broker
new_broker_is secret ttl broker e = ground arith

module _ (crypto : Crypto) where
  after-IsGood :
      (secret : String) (c : Call) (w : World) → IsGood secret w → IsGood secret (after crypto c w)
  unfolding after
  after-IsGood secret (create_call session operation resource nonce now) w h =
      moved h _ (create_action-IsVouched crypto session operation resource nonce now _ h.vouched)
  after-IsGood secret (request_call worker task command path nonce now) w h =
      request_step h crypto worker task command path nonce now
  after-IsGood secret (resolve_call id approve token reason now) w h =
      resolved_step h id approve token reason now
  after-IsGood secret (approve_call id token reason now) w h = approve_step h id token reason now
  after-IsGood secret (get_call id now) w h = get_step h id now
  after-IsGood secret (list_call now) w h = moved h _ (list_blocked-IsVouched now _ h.vouched)
  after-IsGood secret (consume_call id worker task command path now) w h =
      granted_step h id worker (compute_action_resource crypto command path task) now _
        (elim (verify_cases crypto id worker task command path now w.authority) [
          | inl refused ↦ inl refused
          | inr (answer, c) ↦ inr ((tt, answer), c)
        ])
  after-IsGood secret (issue_call id worker task command path key ttl now issued_at) w h =
      granted_step h id worker (compute_action_resource crypto command path task) now _
        (elim (issue_cases crypto id worker task command path key ttl now issued_at w.authority) [
          | inl refused ↦ inl refused
          | inr (answer, fine, c) ↦ inr ((_, answer), c)
        ])

  run-IsGood :
      (secret : String) (ttl : ℕ) (broker : ApprovalBroker) (cs : List Call)
      → new_broker secret ttl ≡ ok broker
      → IsGood secret (run crypto broker cs)
  unfolding run
  run-IsGood secret ttl broker [] e =
      let new = new_broker_is secret ttl broker e in
      record {
        vouched = record {
          guarded = new.0;
          keyed = λ k a found. absurd (none_found k a (ap (λ d. get d k) (sym new.1) ∙ found));
          earned = λ k a found. absurd (none_found k a (ap (λ d. get d k) (sym new.1) ∙ found));
        };
        consumed = refl;
        earned = (tt, refl);
      }
  run-IsGood secret ttl broker (c ∷ cs) e =
      after-IsGood secret c (run crypto broker cs) (run-IsGood secret ttl broker cs e)

  -- After any calls to a new authority, in any order and at any times, each ticket or consumption
  -- that was granted was approved by a resolution that gave the broker's secret, for the
  -- same action, worker and resource; and no action was granted twice.
  pub grants-IsEarned :
      (secret : String) (ttl : ℕ) (broker : ApprovalBroker) (cs : List Call)
      → new_broker secret ttl ≡ ok broker
      → IsEarned secret (run crypto broker cs)
  grants-IsEarned secret ttl broker cs e = (run-IsGood secret ttl broker cs e).earned
