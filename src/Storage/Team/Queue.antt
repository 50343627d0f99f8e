-- ===== src/Storage/Team/Queue.antt =====
-- subagentbridge/storage/team_store.py: the queue of dispatches. Each writing method is one BEGIN
-- IMMEDIATE transaction, so the row it has read is the row it updates: the tests of `rowcount` and
-- the status in its WHERE clauses hold.
use subagent_bridge.Prelude.{
  ℕ, suc, String, Bool, true, false, not, ◌&&◌, ◌||◌, Option, none, some, List, [], ◌∷◌, ◌++◌, any,
  has, is_some, is_none, ltb, leb, keep_if, ◌==◌, if◌then◌else◌,
}
use subagent_bridge.Prelude.Exec.{
  Result, ok, err, Exec, pure, raise, lift, gets, modify, state, raise_if, or_raise, transaction,
  ◌>>=◌, ◌>>◌, value_error, permission_error, key_error, runtime_error, type_error, integrity_error,
}
use subagent_bridge.Prelude.Int.{ℤ, pos, negsuc, lt_int}
use subagent_bridge.Prelude.Text.{is_blank, strips_to_nothing, text_length}
use subagent_bridge.Prelude.Dict.{get, put}
use subagent_bridge.Prelude.Order.{sort_by, first_by}
use subagent_bridge.Storage.Json.{Json, Fields, Codec, text, object, no_fields, field, odd_key}
use subagent_bridge.Team.Contracts.{
  QueueItem, Steering, guidance_entry, cancellation_entry, running, cancelled, is_unfinished,
  is_retryable, is_pending, is_final, is_running,
}
use subagent_bridge.Storage.Team.{TeamTables, values_of}
use subagent_bridge.Storage.Team.Register.{is_lead_of, is_led_by}

-- `dedup_key = ?`, which no NULL meets
abbrev pub has_key : String → Option String → Bool
has_key key none = false
has_key key (some k) = k == key

-- `team_id = ? AND dedup_key = ? AND status NOT IN ('FAILED', 'CANCELLED')`
abbrev pub holds_key : String → String → QueueItem → Bool
holds_key team_id key x =
    x.team_id == team_id && has_key key x.dedup_key && not (is_retryable x.status)

abbrev pub newer_item : QueueItem → QueueItem → Bool
newer_item a b = ltb b.created_at a.created_at

unfoldable pub find_queue_item_by_dedup : String → String → TeamTables → Option QueueItem
find_queue_item_by_dedup team_id key s =
    first_by newer_item (keep_if (holds_key team_id key) (values_of s.queue))

-- `if item.dedup_key: SELECT …`
abbrev pub find_duplicate : QueueItem → TeamTables → Option QueueItem
find_duplicate item s = elim item.dedup_key [
  | none ↦ none
  | some key ↦ if is_blank key then none else find_queue_item_by_dedup item.team_id key s
]

-- The duplicate that is held, or the item, inserted; a second row for its dispatch_id raises
-- IntegrityError.
abbrev pub return_or_insert : QueueItem → Option QueueItem → Exec TeamTables QueueItem
return_or_insert item (some held) = pure held
return_or_insert item none = do
  old ← gets (λ s. get s.queue item.dispatch_id)
  raise_if (is_some old) integrity_error
  modify (λ s. record s { queue = put s.queue item.dispatch_id item })
  pure item

unfoldable pub insert_queue_item_once : QueueItem → Exec TeamTables QueueItem
insert_queue_item_once item = do held ← gets (find_duplicate item); return_or_insert item held

abbrev pub is_privileged : String → Bool
is_privileged k = has k (
    "command" ∷ "execution_ticket" ∷ "approved" ∷ "approver" ∷ "approval_action_id"
    ∷ "workspace_path" ∷ "payload" ∷ [])

abbrev pub keys_of : Fields → List String
keys_of no_fields = []
keys_of (field k v rest) = k ∷ keys_of rest
keys_of (odd_key rest) = keys_of rest

-- `len(guidance)` of a mapping
abbrev pub size_of : Fields → ℕ
size_of no_fields = 0
size_of (field k v rest) = suc (size_of rest)
size_of (odd_key rest) = suc (size_of rest)

-- json.dumps of the guidance; TypeError and ValueError become ValueError.
abbrev pub encoded_length : Result String → Result ℕ
encoded_length (ok t) = ok (text_length t)
encoded_length (err e) = err value_error

module _ (codec : Codec) where
  abbrev pub check_fields : Fields → Exec TeamTables (Unit {0})
  check_fields fs = do
    raise_if (leb (size_of fs) 0 || ltb 32 (size_of fs) || any is_privileged (keys_of fs))
        permission_error
    size ← lift (encoded_length (codec.dumps (object fs)))
    raise_if (ltb 4096 size) value_error

  unfoldable pub check_guidance : Option Json → Exec TeamTables (Unit {0})
  check_guidance none = pure tt
  check_guidance (some (text t)) =
      raise_if (strips_to_nothing t || ltb 4096 (text_length t)) value_error
  check_guidance (some (object fs)) = check_fields fs
  check_guidance (some _) = raise type_error

-- `priority is not None and not -100 <= priority <= 100`
abbrev pub priority_ok : Option ℤ → Bool
priority_ok none = true
priority_ok (some p) = not (lt_int p (negsuc 99)) && not (lt_int (pos 100) p)

abbrev pub add_guidance : Option Json → String → ℕ → List Steering → List Steering
add_guidance none lead now log = log
add_guidance (some g) lead now log = log ++ guidance_entry g lead now ∷ []

abbrev pub new_priority : Option ℤ → ℤ → ℤ
new_priority none old = old
new_priority (some p) old = p

abbrev pub steered : QueueItem → String → Option Json → Option ℤ → ℕ → QueueItem
steered item lead guidance priority now = record item {
  steering_instructions = add_guidance guidance lead now item.steering_instructions;
  priority = new_priority priority item.priority;
  updated_at = now;
}

unfoldable pub steer_transaction :
    String → String → Option Json → Option ℤ → ℕ → Exec TeamTables QueueItem
steer_transaction lead_session_id dispatch_id guidance priority now = do
  s ← state
  item ← or_raise (get s.queue dispatch_id) key_error
  raise_if (not (is_lead_of item.team_id (get s.sessions lead_session_id))) permission_error
  raise_if (not (is_led_by lead_session_id (get s.teams item.team_id))) permission_error
  raise_if (not (is_unfinished item.status)) value_error
  raise_if (is_some priority && not (is_pending item.status)) value_error
  let new = steered item lead_session_id guidance priority now
  modify (λ s. record s { queue = put s.queue dispatch_id new })
  pure new

unfoldable pub steer_queue_item_once :
    Codec → String → String → Option Json → Option ℤ → ℕ → Exec TeamTables QueueItem
steer_queue_item_once codec lead_session_id dispatch_id guidance priority now = do
  raise_if (is_none guidance && is_none priority) value_error
  raise_if (not (priority_ok priority)) value_error
  check_guidance codec guidance
  transaction (steer_transaction lead_session_id dispatch_id guidance priority now)

abbrev pub with_reason : String → String → ℕ → List Steering → List Steering
with_reason reason lead now log =
    if is_blank reason then log else log ++ cancellation_entry reason lead now ∷ []

abbrev pub cancelled_item : QueueItem → String → String → ℕ → QueueItem
cancelled_item item lead reason now = record item {
  steering_instructions = with_reason reason lead now item.steering_instructions;
  status = cancelled;
  updated_at = now;
}

unfoldable pub cancel_active_queue_item : String → String → String → ℕ → Exec TeamTables QueueItem
cancel_active_queue_item dispatch_id lead_session_id reason now = do
  found ← gets (λ s. get s.queue dispatch_id)
  item ← or_raise found key_error
  raise_if (not (is_unfinished item.status)) value_error
  let new = cancelled_item item lead_session_id reason now
  modify (λ s. record s { queue = put s.queue dispatch_id new })
  pure new

-- `ORDER BY priority DESC, created_at ASC`
abbrev pub more_urgent : QueueItem → QueueItem → Bool
more_urgent a b =
    lt_int b.priority a.priority
    || not (lt_int a.priority b.priority) && ltb a.created_at b.created_at

abbrev pub is_pending_for : String → String → QueueItem → Bool
is_pending_for team_id worker_id x =
    x.team_id == team_id && x.to_session_id == worker_id && is_pending x.status

unfoldable pub fetch_next_pending_task : String → String → TeamTables → Option QueueItem
fetch_next_pending_task team_id worker_id s =
    first_by more_urgent (keep_if (is_pending_for team_id worker_id) (values_of s.queue))

unfoldable pub list_queue_by_team : String → TeamTables → List QueueItem
list_queue_by_team team_id s =
    sort_by (λ a b. ltb a.created_at b.created_at)
      (keep_if (λ x. x.team_id == team_id) (values_of s.queue))

abbrev pub resumed : QueueItem → ℕ → QueueItem
resumed item now = record item { status = running; updated_at = now }

unfoldable pub mark_task_resuming : String → ℕ → Exec TeamTables QueueItem
mark_task_resuming dispatch_id now = do
  found ← gets (λ s. get s.queue dispatch_id)
  item ← or_raise found key_error
  raise_if (is_running item.status || is_final item.status) runtime_error
  modify (λ s. record s { queue = put s.queue dispatch_id (resumed item now) })
  pure (resumed item now)
