-- ===== src/Storage/Audit/Reconciled.antt =====
-- A reconciliation: its event and the closed session together, or nothing.
use subagent_bridge.Prelude.{
  ℕ, String, Bool, true, false, ◌&&◌, ◌≡◌, ◌⊎◌, inl, inr, refl, sym, ap, ◌∙◌, Option, none, some,
  List, [], ◌∷◌, ◌++◌, any, arith, eq_iff, ◌==◌, ==→eq, and_left, and_right, Bool-cases,
  if◌then◌else◌,
}
use subagent_bridge.Prelude.Exec.{Error, Result, ok, err}
use subagent_bridge.Storage.Json.{Codec}
use subagent_bridge.Storage.Audit.{
  Tables, Row, RecoveryRow, Recovery, recovery_required, reconciled_closed, Fault, read_rows,
  find_key, next_row, find_recovery, is_required, state_of, recovery_of, close_recovery,
  recovery_key, reconcile_closed,
}
use subagent_bridge.Storage.Audit.Ledger.{reconcile_cases}

-- The session of the stream.
abbrev is_session : String → String → String → String → Bool
is_session stream session a b = stream == a && session == b

others_open :
    (stream session a b : String) (rows : List RecoveryRow)
    → is_session stream session a b ≡ false
    → find_recovery a b (close_recovery stream session rows) ≡ find_recovery a b rows
others_open stream session a b [] h = refl
others_open stream session a b (w ∷ rows) h =
    elim (Bool-cases (w.stream == stream && w.session_id == session)) [
      | inr apart ↦ rw (apart, others_open stream session a b rows h) refl
      | inl here ↦
          let missed : (w.stream == a && w.session_id == b) ≡ false = ground (
            arith,
            here,
            h,
            eq_iff w.stream stream,
            eq_iff w.session_id session,
            eq_iff w.stream a,
            eq_iff w.session_id b,
            eq_iff stream a,
            eq_iff session b,
          ) in
          rw (here, missed, others_open stream session a b rows h) refl
    ]

session_closed :
    (stream session : String) (rows : List RecoveryRow) (r : RecoveryRow)
    → find_recovery stream session rows ≡ some r
    → state_of (find_recovery stream session (close_recovery stream session rows))
      ≡ some reconciled_closed
session_closed stream session [] r h = absurd (ground arith)
session_closed stream session (w ∷ rows) r h =
    elim (Bool-cases (w.stream == stream && w.session_id == session)) [
      | inl here ↦ rw (here, here) refl
      | inr apart ↦
          let next : find_recovery stream session (w ∷ rows) ≡ find_recovery stream session rows =
            rw apart refl in
          rw (apart, apart) (session_closed stream session rows r (sym next ∙ h))
    ]

-- The state of every session after one was closed.
recovery_after :
    (stream session a b : String) (rows : List RecoveryRow) (r : RecoveryRow)
    → find_recovery stream session rows ≡ some r
    → state_of (find_recovery a b (close_recovery stream session rows)) ≡ (
        if is_session stream session a b
        then some reconciled_closed
        else state_of (find_recovery a b rows))
recovery_after stream session a b rows r h = elim (Bool-cases (is_session stream session a b)) [
  | inr apart ↦ rw (apart, others_open stream session a b rows apart) refl
  | inl here ↦
      let streams : stream ≡ a = ==→eq stream a (and_left (stream == a) (session == b) here) in
      let sessions : session ≡ b = ==→eq session b (and_right (stream == a) (session == b) here) in
      rw (here, ← streams, ← sessions) (session_closed stream session rows r h)
]

due_state :
    (o : Option RecoveryRow)
    → is_required o ≡ true
    → (r : RecoveryRow) × (o ≡ some r) × (r.state ≡ recovery_required)
due_state none h = absurd (ground arith)
due_state (some r) h = (r, refl, required r.state h)
  where
    required :
        (x : Recovery)
        → (elim x [ recovery_required ↦ true | reconciled_closed ↦ false ]) ≡ true
        → x ≡ recovery_required
    required recovery_required h = refl
    required reconciled_closed h = absurd (ground arith)

no_such_key :
    (stream key : String) (rows : List Row)
    → find_key stream key rows ≡ none
    → any (λ r. r.stream == stream && r.idempotency_key == key) rows ≡ false
no_such_key stream key [] h = refl
no_such_key stream key (r ∷ rows) h = ground (arith, h, no_such_key stream key rows)

module _ (codec : Codec) (show : ℕ → String) where
  -- What a reconciliation that returned has done. The session required recovery; it is closed, and
  -- every other session is as it was; the stream had no event of the key, and there is one more
  -- event now, of this stream, key and kind.
  pub record IsReconciled (stream session evidence : String) (s t : Tables) : Type 0 where
    pub was_due : recovery_of stream session s ≡ some recovery_required
    pub states :
        (a b : String)
        → recovery_of a b t
          ≡ (if stream == a && session == b then some reconciled_closed else recovery_of a b s)
    pub event : Row
    pub appended : t.audit_events ≡ s.audit_events ++ event ∷ []
    pub of_stream : event.stream ≡ stream
    pub of_key : event.idempotency_key ≡ recovery_key show session evidence
    pub of_kind : event.event_type ≡ "RECOVERY_RECONCILED"
    pub new_key :
        any
          (λ r. r.stream == stream && r.idempotency_key == recovery_key show session evidence)
          s.audit_events
        ≡ false

  -- All of it, or an exception and nothing.
  abbrev pub IsAtomic : String → String → String → Tables → Result (Unit {0}) × Tables → Type 0
  IsAtomic stream session evidence s r =
      ((e : Error) × (r ≡ (err e, s)))
      ⊎ ((r.0 ≡ ok tt) × IsReconciled stream session evidence s r.1)

  -- A reconciliation raises and changes nothing, also where SQLite fails at the INSERT, the UPDATE or
  -- the COMMIT; or it returns, the session required recovery and is closed, no other session has
  -- changed, and one event was appended, under a key that the stream did not hold.
  pub reconcile_closed-IsAtomic :
      (fault : Fault) (stream session evidence : String) (s : Tables)
      → IsAtomic stream session evidence s
          (reconcile_closed codec show fault stream session evidence s)
  unfolding recovery_of next_row
  reconcile_closed-IsAtomic fault stream session evidence s =
      elim (reconcile_cases codec show fault stream session evidence s) [
        | inl (e, refused) ↦ inl (e, refused)
        | inr (body, due, fresh, done) ↦
            let key = recovery_key show session evidence in
            let (r, found, required) =
              due_state (find_recovery stream session s.recovery_state) due in
            rw done (
              inr (
                refl,
                record {
                  was_due = ap state_of found ∙ ap some required;
                  states = λ a b. recovery_after stream session a b s.recovery_state r found;
                  event =
                      next_row codec stream key "RECOVERY_RECONCILED" body
                        (read_rows stream s.audit_events);
                  appended = refl;
                  of_stream = refl;
                  of_key = refl;
                  of_kind = refl;
                  new_key = no_such_key stream key s.audit_events fresh;
                },
              ))
      ]
