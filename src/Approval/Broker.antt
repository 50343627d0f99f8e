-- ===== src/Approval/Broker.antt =====
-- subagentbridge/approval/broker.py: approval actions with a deadline, resolved once by the holder
-- of the broker's secret. The lock makes each method one step; `now` is what `time.time` returns.
use Prim.Native.Char.{Char}
use Prim.Native.String.{◌++◌}
pub mod Vouched
use subagent_bridge.Prelude.{
  ℕ, zero, suc, ◌+◌, String, Bool, true, false, not, ◌&&◌, ◌||◌, Option, none, some, List, [], ◌∷◌,
  has, all, ltb, leb, ◌==◌, ◌!=◌, if◌then◌else◌,
}
use subagent_bridge.Prelude.Exec.{
  Result, ok, err, Exec, pure, raise, gets, modify, state, raise_if, or_raise, ◌>>=◌, ◌>>◌,
  value_error, type_error, key_error, permission_error,
}
use subagent_bridge.Prelude.Text.{codes, is_blank}
use subagent_bridge.Prelude.Dict.{Dict, get, put}
use subagent_bridge.Approval.Crypto.{Crypto}

pub data ApprovalState : Type 0 where
  blocked approved rejected expired : ApprovalState

pub record ApprovalAction : Type 0 where
  pub action_id : String
  pub session_id : String
  pub operation : String
  pub resource : String
  pub fingerprint : String
  pub state : ApprovalState
  pub reason : String
  pub expires_at : ℕ

pub record ApprovalBroker : Type 0 where
  pub ttl : ℕ
  pub secret : String
  pub actions : Dict ApprovalAction
  pub consumed_fingerprints : List String

-- `__init__` with the secret given; the deadline is within a day.
unfoldable pub new_broker : String → ℕ → Result ApprovalBroker
new_broker secret ttl =
    if not (ltb 0 ttl && leb ttl 86400000)
    then err value_error
    else ok (record { ttl = ttl; secret = secret; actions = []; consumed_fingerprints = [] })

-- `s[:n]`
unfoldable pub prefix : ℕ → String → String
prefix zero s = ""
prefix (suc n) String.[] = ""
prefix (suc n) (String.◌∷◌ c s) = String.◌∷◌ c (prefix n s)

module _ (crypto : Crypto) where
  -- The identifier and the fingerprint of a new action; `nonce` is what `token_hex(8)` returns.
  unfoldable pub action_id_of : String → String → String → String → String
  unfolding prefix
  action_id_of session_id operation resource nonce =
      let raw = session_id ++ ":" ++ operation ++ ":" ++ resource ++ ":" ++ nonce in
      "act_" ++ prefix 16 (crypto.sha256 raw)

  unfoldable pub fingerprint_of : String → String → String → String
  fingerprint_of action_id operation resource =
      crypto.sha256 (action_id ++ ":" ++ operation ++ ":" ++ resource)

  abbrev pub new_action : String → String → String → String → ℕ → ApprovalAction
  new_action action_id session_id operation resource expires_at = record {
    action_id = action_id;
    session_id = session_id;
    operation = operation;
    resource = resource;
    fingerprint = fingerprint_of action_id operation resource;
    state = blocked;
    reason = "";
    expires_at = expires_at;
  }

  unfoldable pub create_action :
      String → String → String → String → ℕ → Exec ApprovalBroker ApprovalAction
  create_action session_id operation resource nonce now = do
    raise_if (is_blank session_id || is_blank operation) value_error
    s ← state
    let id = action_id_of session_id operation resource nonce
    let action = new_action id session_id operation resource (now + s.ttl)
    modify (λ s. record s { actions = put s.actions id action })
    pure action

-- The states that a deadline ends.
abbrev pub is_open : ApprovalState → Bool
is_open blocked = true
is_open approved = true
is_open _ = false

abbrev pub is_blocked : ApprovalState → Bool
is_blocked blocked = true
is_blocked _ = false

abbrev pub is_approved : ApprovalState → Bool
is_approved approved = true
is_approved _ = false

abbrev pub is_due : ApprovalAction → ℕ → Bool
is_due action now = is_open action.state && leb action.expires_at now

abbrev pub expire : ApprovalAction → ApprovalAction
expire action = record action { state = expired; reason = "Approval deadline expired" }

unfoldable pub expire_if_needed : ApprovalAction → ℕ → Exec ApprovalBroker ApprovalAction
expire_if_needed action now =
    if is_due action now
    then (do
      modify (λ s. record s { actions = put s.actions action.action_id (expire action) })
      pure (expire action))
    else pure action

-- `compare_digest` of two texts takes ASCII only, and raises TypeError otherwise.
abbrev pub is_ascii : String → Bool
is_ascii s = all (λ c. ltb c 128) (codes s)

-- `APPROVED if approved else REJECTED`
abbrev pub resolved : ApprovalAction → Bool → String → ApprovalAction
resolved action approve reason = record action {
  state = if approve then approved else rejected;
  reason = reason;
}

unfoldable pub resolve_by_human :
    String → Bool → String → String → ℕ → Exec ApprovalBroker ApprovalAction
resolve_by_human action_id approve auth_token reason now = do
  s ← state
  raise_if (not (is_ascii auth_token && is_ascii s.secret)) type_error
  raise_if (auth_token != s.secret) permission_error
  action ← or_raise (get s.actions action_id) key_error
  action ← expire_if_needed action now
  raise_if (not (is_blocked action.state)) permission_error
  raise_if (has action.fingerprint s.consumed_fingerprints) permission_error
  let updated = resolved action approve reason
  modify (λ s. record s { actions = put s.actions action_id updated })
  modify (λ s. record s { consumed_fingerprints = action.fingerprint ∷ s.consumed_fingerprints })
  pure updated

abbrev pub lookup_action : Option ApprovalAction → ℕ → Exec ApprovalBroker (Option ApprovalAction)
lookup_action none now = pure none
lookup_action (some action) now = do current ← expire_if_needed action now; pure (some current)

unfoldable pub get_action : String → ℕ → Exec ApprovalBroker (Option ApprovalAction)
get_action action_id now = do s ← state; lookup_action (get s.actions action_id) now

abbrev pub add_blocked : ApprovalAction → List ApprovalAction → List ApprovalAction
add_blocked action others = if is_blocked action.state then action ∷ others else others

unfoldable pub expire_all : Dict ApprovalAction → ℕ → Exec ApprovalBroker (List ApprovalAction)
expire_all [] now = pure []
expire_all ((_, action) ∷ rest) now = do
  current ← expire_if_needed action now
  others ← expire_all rest now
  pure (add_blocked current others)

unfoldable pub list_blocked : ℕ → Exec ApprovalBroker (List ApprovalAction)
list_blocked now = do s ← state; expire_all s.actions now
