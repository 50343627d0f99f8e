-- ===== src/Approval/Examples.antt =====
-- A run of the authority with simple digests, and the theorems of this package at it.
use Prim.Native.Char.{code}
use subagent_bridge.Prelude.{ℕ, String, ◌≡◌, ◌⊎◌, refl, ap, List, [], ◌∷◌, arith}
use subagent_bridge.Prelude.Exec.{ok}
use subagent_bridge.Prelude.Dict.{get, put}
use subagent_bridge.Prelude.Text.{text_length}
use subagent_bridge.Approval.Crypto.{Crypto}
use subagent_bridge.Approval.Broker.{
  ApprovalBroker, new_broker, create_action, resolve_by_human, get_action, expire_if_needed,
  action_id_of, fingerprint_of, prefix,
}
use subagent_bridge.Approval.Authority.{
  granted, TrustedApprovalAuthority, Ticket, new_ticket, request_command_approval,
  compute_action_resource, approve_by_human, consume, verify_and_consume, issue_execution_ticket,
  verify_ticket_binding, ticket_payload,
}
use subagent_bridge.Approval.Authority.Grants.{
  Call, request_call, approve_call, issue_call, after, run, IsEarned,
}
use subagent_bridge.Approval.Authority.Earned.{grants-IsEarned}
use subagent_bridge.Approval.Authority.Tickets.{
  IsHex, IsInjective, IsContext, IsCollision, issued_ticket_is_valid, accepted-IsContext,
}

-- Each character after an x, and a y at the end: no text is the start of another.
marked : String → String → String
marked String.[] rest = String.◌∷◌ "y" rest
marked (String.◌∷◌ c s) rest = String.◌∷◌ "x" (String.◌∷◌ c (marked s rest))

marked_list : List String → String → String
marked_list [] rest = String.◌∷◌ "y" rest
marked_list (s ∷ ss) rest = String.◌∷◌ "x" (marked s (marked_list ss rest))

abbrev first : String → ℕ
first String.[] = 0
first (String.◌∷◌ c s) = code c

marked_inj : (s t r q : String) → marked s r ≡ marked t q → (s ≡ t) × (r ≡ q)
unfolding marked
marked_inj String.[] String.[] r q e = (refl, cc)
marked_inj String.[] (String.◌∷◌ d t) r q e = absurd (ground (arith, ap first e))
marked_inj (String.◌∷◌ c s) String.[] r q e = absurd (ground (arith, ap first e))
marked_inj (String.◌∷◌ c s) (String.◌∷◌ d t) r q e =
    let heads : c ≡ d = cc in
    let tails : marked s r ≡ marked t q = cc in
    let rest = marked_inj s t r q tails in (rw (heads, rest.0) refl, rest.1)

marked_list_inj :
    (ss ts : List String) (r q : String) → marked_list ss r ≡ marked_list ts q → (ss ≡ ts) × (r ≡ q)
unfolding marked_list
marked_list_inj [] [] r q e = (refl, cc)
marked_list_inj [] (t ∷ ts) r q e = absurd (ground (arith, ap first e))
marked_list_inj (s ∷ ss) [] r q e = absurd (ground (arith, ap first e))
marked_list_inj (s ∷ ss) (t ∷ ts) r q e =
    let one = marked_inj s t (marked_list ss r) (marked_list ts q) cc in
    let rest = marked_list_inj ss ts r q one.1 in (rw (one.0, rest.0) refl, rest.1)

-- SHA-256 as the text itself, and one signature for all.
abbrev simple : Crypto
simple = record {
  sha256 = λ text. text;
  hmac = λ key text. "0123456789abcdef0123456789abcdef0123456789abcdef0123456789abcdef";
  dumps = λ command path task. marked_list command (marked path (marked task ""));
  show_time = λ expiry. "0.000";
}

simple-IsHex : IsHex simple
unfolding text_length
simple-IsHex key text = (refl, refl)

simple-IsInjective : IsInjective simple
simple-IsInjective c d p q t u e =
    let one = marked_list_inj c d (marked p (marked t "")) (marked q (marked u "")) e in
    let two = marked_inj p q (marked t "") (marked u "") one.1 in
    let three = marked_inj t u "" "" two.1 in (one.0, two.0, three.0)

abbrev broker : ApprovalBroker
broker = record { ttl = 900000; secret = "s3cret"; actions = []; consumed_fingerprints = [] }

broker_is_new : new_broker "s3cret" 900000 ≡ ok broker
unfolding new_broker
broker_is_new = refl

abbrev command : List String
command = "make" ∷ "test" ∷ []

abbrev action_id : String
action_id = "act_w-1:execute_comm"

-- Worker w-1 asks, a guess at the secret fails, the human approves, a ticket is issued and replayed.
abbrev calls : List Call
calls =
    issue_call action_id "w-1" "t-1" command "/w" "key" 5000 30 40
    ∷ issue_call action_id "w-1" "t-1" command "/w" "key" 5000 25 26
    ∷ approve_call action_id "s3cret" "fine" 20
    ∷ approve_call action_id "guess" "fine" 15
    ∷ request_call "w-1" "t-1" command "/w" "n" 10
    ∷ []

grants-IsEarned_example : IsEarned "s3cret" (run simple broker calls)
grants-IsEarned_example = grants-IsEarned simple "s3cret" 900000 broker calls broker_is_new

abbrev resource : String
resource = marked_list command (marked "/w" (marked "t-1" ""))

abbrev approved_authority : TrustedApprovalAuthority
approved_authority =
    (run simple broker (
      approve_call action_id "s3cret" "fine" 20
      ∷ request_call "w-1" "t-1" command "/w" "n" 10
      ∷ [])).authority

abbrev ticket : Ticket
ticket = new_ticket simple action_id "w-1" "t-1" resource 5026 "key"

ticket_is_issued :
    (issue_execution_ticket simple action_id "w-1" "t-1" command "/w" "key" 5000 25 26
      approved_authority).0
    ≡ ok (granted ticket)
unfolding issue_execution_ticket verify_and_consume consume get_action expire_if_needed run after
    request_command_approval create_action compute_action_resource approve_by_human resolve_by_human
    get put marked_list marked action_id_of fingerprint_of prefix ticket_payload
ticket_is_issued = refl

issued_ticket_is_valid_example :
    verify_ticket_binding simple ticket "key" "w-1" "t-1" command "/w" 5000 ≡ granted tt
issued_ticket_is_valid_example =
    issued_ticket_is_valid simple action_id "w-1" "t-1" command "/w" "key" 5000 25 26 5000
      approved_authority ticket simple-IsHex ticket_is_issued (ground arith)

accepted-IsContext_example :
    IsContext "w-1" "w-1" "t-1" "t-1" command command "/w" "/w"
    ⊎ IsCollision simple (simple.dumps command "/w" "t-1") (simple.dumps command "/w" "t-1")
accepted-IsContext_example =
    accepted-IsContext simple action_id "w-1" "w-1" "t-1" "t-1" command command "/w" "/w" "key"
      "key" 5000 25 26 5000 approved_authority ticket simple-IsInjective ticket_is_issued
      issued_ticket_is_valid_example
