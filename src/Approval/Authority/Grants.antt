-- ===== src/Approval/Authority/Grants.antt =====
-- The authority under calls by anyone in any order and at any times, beside a record of the
-- resolutions that returned and of the tickets and consumptions that were granted.
use subagent_bridge.Prelude.{ℕ, String, Bool, true, ◌≡◌, ◌⊎◌, List, [], ◌∷◌, All, distinct, map}
use subagent_bridge.Prelude.Exec.{Result, ok, err}
use subagent_bridge.Approval.Crypto.{Crypto}
use subagent_bridge.Approval.Broker.{
  ApprovalAction, ApprovalBroker, create_action, resolve_by_human, is_approved, list_blocked,
}
use subagent_bridge.Approval.Authority.{
  Answer, granted, denied, TrustedApprovalAuthority, on_broker, authority_get_action,
  approve_by_human, request_command_approval, compute_action_resource, verify_and_consume,
  issue_execution_ticket,
}

-- A resolution that returned, with the token that its caller gave.
pub record Resolution : Type 0 where
  pub token : String
  pub action : ApprovalAction

pub record Grant : Type 0 where
  pub action_id : String
  pub worker_id : String
  pub resource : String

pub record World : Type 0 where
  pub authority : TrustedApprovalAuthority
  pub resolutions : List Resolution
  pub grants : List Grant

pub data Call : Type 0 where
  create_call : String → String → String → String → ℕ → Call
  request_call : String → String → List String → String → String → ℕ → Call
  resolve_call : String → Bool → String → String → ℕ → Call
  approve_call : String → String → String → ℕ → Call
  get_call : String → ℕ → Call
  list_call : ℕ → Call
  consume_call : String → String → String → List String → String → ℕ → Call
  issue_call : String → String → String → List String → String → String → ℕ → ℕ → ℕ → Call

abbrev pub note_resolution : String → Result ApprovalAction → List Resolution → List Resolution
note_resolution token (ok a) log = record { token = token; action = a } ∷ log
note_resolution token (err e) log = log

abbrev pub note_grant : {A : Type 0} → Grant → Result (Answer A) → List Grant → List Grant
note_grant g (ok (granted a)) log = g ∷ log
note_grant g (ok (denied r)) log = log
note_grant g (err e) log = log

module _ (crypto : Crypto) where
  abbrev pub grant_of : String → String → String → List String → String → Grant
  grant_of id worker task command path = record {
    action_id = id;
    worker_id = worker;
    resource = compute_action_resource crypto command path task;
  }

  unfoldable pub after : Call → World → World
  after (create_call session operation resource nonce now) w = record w {
    authority =
        (on_broker (create_action crypto session operation resource nonce now) w.authority).1;
  }
  after (request_call worker task command path nonce now) w = record w {
    authority = (request_command_approval crypto worker task command path nonce now w.authority).1;
  }
  after (resolve_call id approve token reason now) w =
      let r = on_broker (resolve_by_human id approve token reason now) w.authority in
      record w { authority = r.1; resolutions = note_resolution token r.0 w.resolutions }
  after (approve_call id token reason now) w =
      let r = approve_by_human id token reason now w.authority in
      record w { authority = r.1; resolutions = note_resolution token r.0 w.resolutions }
  after (get_call id now) w = record w { authority = (authority_get_action id now w.authority).1 }
  after (list_call now) w = record w { authority = (on_broker (list_blocked now) w.authority).1 }
  after (consume_call id worker task command path now) w =
      let r = verify_and_consume crypto id worker task command path now w.authority in
      record w {
        authority = r.1;
        grants = note_grant (grant_of id worker task command path) r.0 w.grants;
      }
  after (issue_call id worker task command path secret ttl now issued_at) w =
      let r =
        issue_execution_ticket crypto id worker task command path secret ttl now issued_at
          w.authority in
      record w {
        authority = r.1;
        grants = note_grant (grant_of id worker task command path) r.0 w.grants;
      }

  -- The calls, the last one first.
  unfoldable pub run : ApprovalBroker → List Call → World
  run broker [] = record {
    authority = record { broker = broker; consumed_actions = [] };
    resolutions = [];
    grants = [];
  }
  run broker (c ∷ cs) = after c (run broker cs)

-- A resolution with the secret that approved this action for this session and resource.
abbrev pub IsApproval : String → String → String → String → Resolution → Type 0
IsApproval secret id worker resource r =
    (r.token ≡ secret)
    × (is_approved r.action.state ≡ true)
    × (r.action.action_id ≡ id)
    × (r.action.session_id ≡ worker)
    × (r.action.resource ≡ resource)

abbrev pub WasApproved : String → List Resolution → String → String → String → Type 0
WasApproved secret [] id worker resource = ⊥
WasApproved secret (r ∷ log) id worker resource =
    IsApproval secret id worker resource r ⊎ WasApproved secret log id worker resource

-- Every grant had such an approval, and no action was granted twice.
abbrev pub IsEarned : String → World → Type 0
IsEarned secret w =
    All (λ g. WasApproved secret w.resolutions g.action_id g.worker_id g.resource) w.grants
    × (distinct (map (λ g. g.action_id) w.grants) ≡ true)
