-- ===== src/Approval/Authority.antt =====
-- subagentbridge/approval/trusted_authority.py: the authority that turns an approval into one
-- signed execution ticket, and the check of a ticket in the worker's process. Each refusal of the
-- source is a constructor of Denial; the wording of its message is left out.
pub mod Consumes
pub mod Grants
pub mod Earned
pub mod Tickets
use Prim.Native.String.{◌++◌}
use subagent_bridge.Prelude.{
  ℕ, ◌+◌, String, Bool, true, false, not, ◌&&◌, ◌||◌, Option, none, some, List, [], ◌∷◌, has, ltb,
  leb, nat_eq, ◌==◌, ◌!=◌, if◌then◌else◌,
}
use subagent_bridge.Prelude.Exec.{Result, ok, err, Exec, pure, modify, state, ◌>>=◌, ◌>>◌}
use subagent_bridge.Prelude.Text.{is_blank, text_length}
use subagent_bridge.Approval.Crypto.{Crypto}
use subagent_bridge.Approval.Broker.{
  ApprovalAction, ApprovalBroker, is_approved, is_ascii, create_action, resolve_by_human,
  get_action,
}

pub data Denial : Type 0 where
  missing_action already_consumed unknown_action not_approved : Denial
  wrong_worker wrong_task wrong_resource : Denial
  bad_ttl bad_signature bad_expiry ticket_expired forged : Denial

-- `(True, "APPROVED", value)` and `(False, "DENIED: …", None)`
pub data Answer (A : Type 0) : Type 0 where
  granted : A → Answer A
  denied : Denial → Answer A

pub record TrustedApprovalAuthority : Type 0 where
  pub broker : ApprovalBroker
  pub consumed_actions : List String

pub record Ticket : Type 0 where
  pub action_id : String
  pub worker_id : String
  pub task_id : String
  pub resource : String
  pub expiry : ℕ
  pub signature : String

-- A broker's method, called by the authority.
abbrev pub put_broker :
    {A : Type 0}
    → TrustedApprovalAuthority
    → Result A × ApprovalBroker
    → Result A × TrustedApprovalAuthority
put_broker s (r, b) = (r, record s { broker = b })

abbrev pub on_broker : {A : Type 0} → Exec ApprovalBroker A → Exec TrustedApprovalAuthority A
on_broker m s = put_broker s (m s.broker)

unfoldable pub is_action_consumed : String → TrustedApprovalAuthority → Bool
is_action_consumed action_id s = has action_id s.consumed_actions

-- `get_action`, which looks nothing up for an empty identifier.
unfoldable pub authority_get_action :
    String → ℕ → Exec TrustedApprovalAuthority (Option ApprovalAction)
authority_get_action action_id now =
    if is_blank action_id then pure none else on_broker (get_action action_id now)

unfoldable pub approve_by_human :
    String → String → String → ℕ → Exec TrustedApprovalAuthority ApprovalAction
approve_by_human action_id auth_token reason now =
    on_broker (resolve_by_human action_id true auth_token reason now)

-- The ticket, if the consumption was granted.
abbrev pub after_consume : Ticket → Answer Unit → Answer Ticket
after_consume ticket (denied reason) = denied reason
after_consume ticket (granted _) = granted ticket

module _ (crypto : Crypto) where
  unfoldable pub compute_action_resource : List String → String → String → String
  compute_action_resource command workspace_path task_id =
      crypto.sha256 (crypto.dumps command workspace_path task_id)

  unfoldable pub request_command_approval :
      String
      → String
      → List String
      → String
      → String
      → ℕ
      → Exec TrustedApprovalAuthority ApprovalAction
  request_command_approval worker_id task_id command workspace_path nonce now =
      let resource = compute_action_resource command workspace_path task_id in
      on_broker (create_action crypto worker_id "execute_command" resource nonce now)

  unfoldable pub is_action_for_context :
      ApprovalAction → String → String → List String → String → Bool
  is_action_for_context action worker_id task_id command workspace_path =
      action.session_id == worker_id
      && action.resource == compute_action_resource command workspace_path task_id

  -- The checks of the action that was found, and its consumption.
  unfoldable pub consume :
      String → String → String → Option ApprovalAction → Exec TrustedApprovalAuthority (Answer Unit)
  consume action_id worker_id expected_resource none = pure (denied unknown_action)
  consume action_id worker_id expected_resource (some action) =
      if not (is_approved action.state)
      then pure (denied not_approved)
      else if action.session_id != worker_id
      then pure (denied wrong_worker)
      else if action.resource != expected_resource
      then pure (denied wrong_resource)
      else (do
        modify (λ s. record s { consumed_actions = action_id ∷ s.consumed_actions })
        pure (granted tt))

  unfoldable pub verify_and_consume :
      String
      → String
      → String
      → List String
      → String
      → ℕ
      → Exec TrustedApprovalAuthority (Answer Unit)
  verify_and_consume action_id worker_id task_id command workspace_path now = do
    s ← state
    if is_blank action_id
        then pure (denied missing_action)
        else if has action_id s.consumed_actions
        then pure (denied already_consumed)
        else (do
          action ← on_broker (get_action action_id now)
          consume action_id worker_id (compute_action_resource command workspace_path task_id)
              action)

  -- The text that the signature covers.
  unfoldable pub ticket_payload : String → String → String → String → ℕ → String
  ticket_payload action_id worker_id task_id resource expiry =
      action_id
      ++ ":"
      ++ worker_id
      ++ ":"
      ++ task_id
      ++ ":"
      ++ resource
      ++ ":"
      ++ crypto.show_time expiry

  abbrev pub new_ticket : String → String → String → String → ℕ → String → Ticket
  new_ticket action_id worker_id task_id resource expiry session_secret = record {
    action_id = action_id;
    worker_id = worker_id;
    task_id = task_id;
    resource = resource;
    expiry = expiry;
    signature =
        crypto.hmac session_secret (ticket_payload action_id worker_id task_id resource expiry);
  }

  -- The deadline is within 60 seconds; `issued_at` is the second reading of the clock.
  unfoldable pub issue_execution_ticket :
      String
      → String
      → String
      → List String
      → String
      → String
      → ℕ
      → ℕ
      → ℕ
      → Exec TrustedApprovalAuthority (Answer Ticket)
  issue_execution_ticket action_id worker_id task_id command workspace_path session_secret ttl now
        issued_at =
      if not (ltb 0 ttl && leb ttl 60000) then pure (denied bad_ttl) else (do
        valid ← verify_and_consume action_id worker_id task_id command workspace_path now
        let resource = compute_action_resource command workspace_path task_id
        let expiry = issued_at + ttl
        pure (
            after_consume (new_ticket action_id worker_id task_id resource expiry session_secret)
              valid))

  unfoldable pub verify_ticket_binding :
      Ticket → String → String → String → List String → String → ℕ → Answer Unit
  verify_ticket_binding ticket session_secret worker_id task_id command workspace_path now =
      if is_blank ticket.action_id
      then denied missing_action
      else if ticket.worker_id != worker_id
      then denied wrong_worker
      else if ticket.task_id != task_id
      then denied wrong_task
      else if not (nat_eq (text_length ticket.signature) 64) || not (is_ascii ticket.signature)
      then denied bad_signature
      else if not (ltb now ticket.expiry && leb ticket.expiry (now + 60000))
      then (if leb ticket.expiry now then denied ticket_expired else denied bad_expiry)
      else if ticket.resource != compute_action_resource command workspace_path task_id
      then denied wrong_resource
      else if ticket.signature
          != crypto.hmac session_secret (
              ticket_payload ticket.action_id ticket.worker_id ticket.task_id ticket.resource
                ticket.expiry)
      then denied forged
      else granted tt
