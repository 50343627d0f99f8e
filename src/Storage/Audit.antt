-- ===== src/Storage/Audit.antt =====
-- subagentbridge/storage/audit_ledger.py: `AuditLedger`, hash-chained streams of events in one
-- table. A writing method is one BEGIN IMMEDIATE transaction.
pub mod Chain
pub mod Appends
pub mod Ledger
pub mod Reconciled
mod Examples
use Prim.Native.String.{◌++◌ as ◌+++◌}
use subagent_bridge.Prelude.{
  ℕ, suc, ◌+◌, String, Bool, true, false, not, ◌&&◌, ◌||◌, Option, none, some, List, [], ◌∷◌, ◌++◌,
  map, length, keep_if, is_some, leb, nat_eq, ◌==◌, ◌!=◌, if◌then◌else◌,
}
use subagent_bridge.Prelude.Exec.{
  Result, ok, err, Exec, pure, lift, gets, modify, state, raise_if, transaction, ◌>>=◌, ◌>>◌,
  value_error, permission_error, ledger_integrity, operational_error, replay_conflict,
}
use subagent_bridge.Prelude.Int.{pos}
use subagent_bridge.Prelude.Text.{is_blank, strips_to_nothing, text_length}
use subagent_bridge.Storage.Json.{
  Json, Codec, integer, text, array, object, no_items, item, no_fields, field, scrub,
}

abbrev pub genesis : String
genesis = "0000000000000000000000000000000000000000000000000000000000000000"

-- A row of audit_events, less its number and its time of creation.
pub record Row : Type 0 where
  pub stream : String
  pub seq : ℕ
  pub idempotency_key : String
  pub event_type : String
  pub payload_json : String
  pub prev_sha : String
  pub event_sha : String

pub data Recovery : Type 0 where
  recovery_required reconciled_closed : Recovery

-- A row of recovery_state, whose primary key is (stream, session_id).
pub record RecoveryRow : Type 0 where
  pub stream : String
  pub session_id : String
  pub state : Recovery
  pub cause : String

-- The tables, in the order of insertion.
pub record Tables : Type 0 where
  pub audit_events : List Row
  pub recovery_state : List RecoveryRow

pub record AuditEvent : Type 0 where
  pub stream : String
  pub seq : ℕ
  pub idempotency_key : String
  pub event_type : String
  pub payload : Json
  pub prev_sha : String
  pub event_sha : String

-- `ORDER BY seq`
abbrev pub insert_row : Row → List Row → List Row
insert_row r [] = r ∷ []
insert_row r (x ∷ rows) =
    let rest = insert_row r rows in if leb r.seq x.seq then r ∷ x ∷ rows else x ∷ rest

abbrev pub by_seq : List Row → List Row
by_seq [] = []
by_seq (r ∷ rows) = insert_row r (by_seq rows)

unfoldable pub read_rows : String → List Row → List Row
read_rows stream rows = by_seq (keep_if (λ r. r.stream == stream) rows)

-- `WHERE stream=? AND idempotency_key=?`
abbrev pub find_key : String → String → List Row → Option Row
find_key stream key [] = none
find_key stream key (r ∷ rows) =
    let rest = find_key stream key rows in
    if r.stream == stream && r.idempotency_key == key then some r else rest

-- `existing[-1][4] if existing else GENESIS`
abbrev pub last_sha : String → List Row → String
last_sha prev [] = prev
last_sha prev (r ∷ rows) = last_sha r.event_sha rows

abbrev pub find_recovery : String → String → List RecoveryRow → Option RecoveryRow
find_recovery stream session [] = none
find_recovery stream session (r ∷ rows) =
    let rest = find_recovery stream session rows in
    if r.stream == stream && r.session_id == session then some r else rest

abbrev pub is_required : Option RecoveryRow → Bool
is_required none = false
is_required (some r) = elim r.state [ recovery_required ↦ true | reconciled_closed ↦ false ]

-- `INSERT … ON CONFLICT(stream, session_id) DO UPDATE`
abbrev pub upsert : RecoveryRow → List RecoveryRow → List RecoveryRow
upsert new [] = new ∷ []
upsert new (r ∷ rows) =
    let rest = upsert new rows in
    if r.stream == new.stream && r.session_id == new.session_id then new ∷ rows else r ∷ rest

-- `UPDATE … SET state='RECONCILED_CLOSED' WHERE stream=? AND session_id=?`
abbrev pub close_recovery : String → String → List RecoveryRow → List RecoveryRow
close_recovery stream session [] = []
close_recovery stream session (r ∷ rows) =
    let rest = close_recovery stream session rows in
    if r.stream == stream && r.session_id == session
    then record r { state = reconciled_closed } ∷ rest
    else r ∷ rest

-- A statement of the transaction for which SQLite raises OperationalError, if there is one: the
-- INSERT of the event, the UPDATE of recovery_state, or the COMMIT.
pub data Fault : Type 0 where
  no_fault insert_fault update_fault commit_fault : Fault

abbrev pub insert_fails : Fault → Bool
insert_fails insert_fault = true
insert_fails _ = false

abbrev pub update_fails : Fault → Bool
update_fails update_fault = true
update_fails _ = false

abbrev pub commit_fails : Fault → Bool
commit_fails commit_fault = true
commit_fails _ = false

unfoldable pub note_unreconciled : String → String → String → Exec Tables (Unit {0})
note_unreconciled stream session cause = do
  raise_if (is_blank stream || is_blank session || is_blank cause) value_error
  modify (λ s. record s {
    recovery_state =
        upsert
          (record {
            stream = stream;
            session_id = session;
            state = recovery_required;
            cause = cause;
          })
          s.recovery_state;
  })

abbrev pub state_of : Option RecoveryRow → Option Recovery
state_of none = none
state_of (some r) = some r.state

unfoldable pub recovery_of : String → String → Tables → Option Recovery
recovery_of stream session s = state_of (find_recovery stream session s.recovery_state)

abbrev pub event_of : Row → Json → AuditEvent
event_of r payload = record {
  stream = r.stream;
  seq = r.seq;
  idempotency_key = r.idempotency_key;
  event_type = r.event_type;
  payload = payload;
  prev_sha = r.prev_sha;
  event_sha = r.event_sha;
}

-- `f"recovery:{len(session_id)}:{session_id}:{evidence_key}"`
abbrev pub recovery_key : (ℕ → String) → String → String → String
recovery_key show session evidence =
    "recovery:" +++ show (text_length session) +++ ":" +++ session +++ ":" +++ evidence

-- `expected_tail is not None and tail != expected_tail`
abbrev pub not_tail : Option String → String → Bool
not_tail none tail = false
not_tail (some expected) tail = tail != expected

module _ (codec : Codec) where
  -- `payload must be a mapping`
  abbrev pub scrub_mapping : Json → Result Json
  scrub_mapping (object fields) = scrub codec (object fields)
  scrub_mapping _ = err value_error

  -- `_digest`
  unfoldable pub digest : String → ℕ → String → String → String → String → String
  digest stream seq key kind payload_json prev_sha =
      codec.sha256 (codec.dumps_row 1 stream seq key kind payload_json prev_sha)

  -- The test of `_check_rows`, where `seq` is the number that is expected and `prev` the digest.
  unfoldable pub row_ok : String → ℕ → String → Row → Bool
  row_ok stream seq prev r =
      nat_eq r.seq seq
      && r.prev_sha == prev
      && digest stream r.seq r.idempotency_key r.event_type r.payload_json prev == r.event_sha

  unfoldable pub check_from : String → ℕ → String → List Row → Result String
  check_from stream seq prev [] = ok prev
  check_from stream seq prev (r ∷ rows) =
      let rest = check_from stream (suc seq) r.event_sha rows in
      if row_ok stream seq prev r then rest else err ledger_integrity

  unfoldable pub check_rows : String → List Row → Result String
  check_rows stream rows = check_from stream 1 genesis rows

  -- The row that an append writes.
  unfoldable pub next_row : String → String → String → String → List Row → Row
  next_row stream key kind payload_json existing =
      let seq = length existing + 1 in
      let prev = last_sha genesis existing in
      record {
        stream = stream;
        seq = seq;
        idempotency_key = key;
        event_type = kind;
        payload_json = payload_json;
        prev_sha = prev;
        event_sha = digest stream seq key kind payload_json prev;
      }

  -- What is done with the row that has the key, if there is one.
  abbrev pub replay_or_insert :
      String
      → String
      → String
      → Json
      → String
      → List Row
      → Option Row
      → Exec Tables (AuditEvent × Bool)
  replay_or_insert stream key kind payload body existing (some old) = do
    raise_if (old.event_type != kind || old.payload_json != body) replay_conflict
    pure (event_of old payload, false)
  replay_or_insert stream key kind payload body existing none = do
    let new = next_row stream key kind body existing
    modify (λ s. record s { audit_events = s.audit_events ++ new ∷ [] })
    pure (event_of new payload, true)

  unfoldable pub append_transaction :
      String → String → String → Json → String → Exec Tables (AuditEvent × Bool)
  append_transaction stream key kind payload body = do
    existing ← gets (λ s. read_rows stream s.audit_events)
    lift (check_rows stream existing)
    replay ← gets (λ s. find_key stream key s.audit_events)
    replay_or_insert stream key kind payload body existing replay

  unfoldable pub append_once : String → String → String → Json → Exec Tables (AuditEvent × Bool)
  append_once stream key kind payload = do
    raise_if (strips_to_nothing stream || strips_to_nothing key || strips_to_nothing kind)
        value_error
    data_ ← lift (scrub_mapping payload)
    body ← lift (codec.dumps data_)
    transaction (append_transaction stream key kind data_ body)

  unfoldable pub verify : String → Option String → Exec Tables String
  verify stream expected_tail = do
    rows ← gets (λ s. read_rows stream s.audit_events)
    tail ← lift (check_rows stream rows)
    raise_if (not_tail expected_tail tail) ledger_integrity
    pure tail

  unfoldable pub read : String → String → Exec Tables (List AuditEvent)
  read stream reader_stream = do
    raise_if (stream != reader_stream) permission_error
    rows ← gets (λ s. read_rows stream s.audit_events)
    lift (check_rows stream rows)
    pure (map (λ r. event_of r (codec.loads r.payload_json)) rows)

  unfoldable pub reconcile_transaction :
      Fault → String → String → String → Json → Exec Tables (Unit {0})
  reconcile_transaction fault stream session key data_ = do
    row ← gets (λ s. find_recovery stream session s.recovery_state)
    raise_if (not (is_required row)) value_error
    existing ← gets (λ s. read_rows stream s.audit_events)
    lift (check_rows stream existing)
    used ← gets (λ s. find_key stream key s.audit_events)
    raise_if (is_some used) replay_conflict
    body ← lift (codec.dumps data_)
    let new = next_row stream key "RECOVERY_RECONCILED" body existing
    raise_if (insert_fails fault) operational_error
    modify (λ s. record s { audit_events = s.audit_events ++ new ∷ [] })
    raise_if (update_fails fault) operational_error
    modify (λ s. record s { recovery_state = close_recovery stream session s.recovery_state })
    raise_if (commit_fails fault) operational_error

  unfoldable pub reconcile_closed :
      (ℕ → String) → Fault → String → String → String → Exec Tables (Unit {0})
  reconcile_closed show fault stream session evidence = do
    raise_if (is_blank stream || is_blank session || is_blank evidence) value_error
    transaction (
        reconcile_transaction fault stream session (recovery_key show session evidence) (
          object
            (field "session_id" (text session) (field "evidence_key" (text evidence) no_fields))))
