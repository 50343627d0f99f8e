-- ===== src/Storage/Audit/Ledger.antt =====
-- The ledger under calls in any order, from empty tables.
use subagent_bridge.Prelude.{
  ℕ, String, true, ◌||◌, ◌≡◌, ◌⊎◌, inl, inr, refl, none, List, [], ◌∷◌, ◌++◌, Bool-cases,
  Option-cases,
}
use subagent_bridge.Prelude.Exec.{
  Error, ok, err, value_error, replay_conflict, operational_error, keep_if_ok,
}
use subagent_bridge.Prelude.Exec.{Result-cases}
use subagent_bridge.Prelude.Text.{is_blank}
use subagent_bridge.Storage.Json.{Json, Codec, object, field, text, no_fields}
use subagent_bridge.Storage.Audit.{
  Tables, Fault, insert_fails, update_fails, commit_fails, genesis, read_rows, find_key, check_rows,
  check_from, next_row, append_once, find_recovery, is_required, close_recovery, recovery_key,
  reconcile_transaction, reconcile_closed, note_unreconciled, verify,
}
use subagent_bridge.Storage.Audit.Chain.{IsVerified, append-IsVerified}
use subagent_bridge.Storage.Audit.Appends.{append_once-IsVerified}

pub data Call : Type 0 where
  append_call : String → String → String → Json → Call
  note_call : String → String → String → Call
  reconcile_call : Fault → String → String → String → Call

module _ (codec : Codec) (show : ℕ → String) where
  -- The row of a reconciliation, and the tables with it: both writes, or none.
  abbrev pub closed : String → String → String → String → Tables → Tables
  closed stream session evidence body s = record {
    audit_events =
        s.audit_events
        ++ next_row codec stream (recovery_key show session evidence) "RECOVERY_RECONCILED" body
            (read_rows stream s.audit_events)
          ∷ [];
    recovery_state = close_recovery stream session s.recovery_state;
  }

  -- The payload of a reconciliation.
  abbrev proof_of : String → String → Json
  proof_of session evidence =
      object (field "session_id" (text session) (field "evidence_key" (text evidence) no_fields))

  -- The writes of the transaction, rolled back where one of them fails.
  writes_cases :
      (fault : Fault) (stream session evidence body : String) (s : Tables)
      → is_required (find_recovery stream session s.recovery_state) ≡ true
      → (tail : String) → check_rows codec stream (read_rows stream s.audit_events) ≡ ok tail
      → find_key stream (recovery_key show session evidence) s.audit_events ≡ none
      → codec.dumps (proof_of session evidence) ≡ ok body
      → ((e : Error) × (keep_if_ok s (
              reconcile_transaction codec fault stream session
                (recovery_key show session evidence)
                (proof_of session evidence)
                s)
            ≡ (err e, s)))
        ⊎ (keep_if_ok s (
              reconcile_transaction codec fault stream session
                (recovery_key show session evidence)
                (proof_of session evidence)
                s)
            ≡ (ok tt, closed stream session evidence body s))
  unfolding reconcile_transaction
  writes_cases fault stream session evidence body s due tail good fresh dumped =
      elim (Bool-cases (insert_fails fault)) [
        | inl full ↦ inl (operational_error, rw (due, good, fresh, dumped, full) refl)
        | inr written ↦ elim (Bool-cases (update_fails fault)) [
          | inl stuck ↦ inl (operational_error, rw (due, good, fresh, dumped, written, stuck) refl)
          | inr updated ↦ elim (Bool-cases (commit_fails fault)) [
            | inl lost ↦
                inl (operational_error, rw (due, good, fresh, dumped, written, updated, lost) refl)
            | inr kept ↦ inr (rw (due, good, fresh, dumped, written, updated, kept) refl)
          ]
        ]
      ]

  -- The transaction, rolled back where it raises.
  transaction_cases :
      (fault : Fault) (stream session evidence : String) (s : Tables)
      → ((e : Error) × (keep_if_ok s (
              reconcile_transaction codec fault stream session
                (recovery_key show session evidence)
                (proof_of session evidence)
                s)
            ≡ (err e, s)))
        ⊎ ((body : String) × (is_required (find_recovery stream session s.recovery_state) ≡ true)
            × (find_key stream (recovery_key show session evidence) s.audit_events ≡ none)
            × (keep_if_ok s (
                  reconcile_transaction codec fault stream session
                    (recovery_key show session evidence)
                    (proof_of session evidence)
                    s)
                ≡ (ok tt, closed stream session evidence body s)))
  unfolding reconcile_transaction
  transaction_cases fault stream session evidence s =
      elim (Bool-cases (is_required (find_recovery stream session s.recovery_state))) [
        | inr over ↦ inl (value_error, rw over refl)
        | inl due ↦
            elim (Result-cases (check_rows codec stream (read_rows stream s.audit_events))) [
              | inr (e, bad) ↦ inl (e, rw (due, bad) refl)
              | inl (tail, good) ↦
                  elim (Option-cases
                    (find_key stream (recovery_key show session evidence) s.audit_events)) [
                      | inr (old, found) ↦ inl (replay_conflict, rw (due, good, found) refl)
                      | inl fresh ↦ elim (Result-cases (codec.dumps (proof_of session evidence))) [
                        | inr (e, odd) ↦ inl (e, rw (due, good, fresh, odd) refl)
                        | inl (body, dumped) ↦
                            elim (writes_cases fault stream session evidence body s due tail good
                              fresh dumped) [
                                | inl (e, undone) ↦ inl (e, undone)
                                | inr done ↦ inr (body, due, fresh, done)
                              ]
                      ]
                    ]
            ]
      ]

  pub reconcile_cases :
      (fault : Fault) (stream session evidence : String) (s : Tables)
      → ((e : Error) × (reconcile_closed codec show fault stream session evidence s ≡ (err e, s)))
        ⊎ ((body : String) × (is_required (find_recovery stream session s.recovery_state) ≡ true)
            × (find_key stream (recovery_key show session evidence) s.audit_events ≡ none)
            × (reconcile_closed codec show fault stream session evidence s
                ≡ (ok tt, closed stream session evidence body s)))
  unfolding reconcile_closed
  reconcile_cases fault stream session evidence s =
      elim (Bool-cases (is_blank stream || is_blank session || is_blank evidence)) [
        | inl blank ↦ inl (value_error, rw blank refl)
        | inr named ↦ elim (transaction_cases fault stream session evidence s) [
          | inl (e, refused) ↦ inl (e, rw (named, refused) refl)
          | inr (body, due, fresh, done) ↦ inr (body, due, fresh, rw (named, done) refl)
        ]
      ]

  unfoldable pub after : Call → Tables → Tables
  after (append_call stream key kind payload) s = (append_once codec stream key kind payload s).1
  after (note_call stream session cause) s = (note_unreconciled stream session cause s).1
  after (reconcile_call fault stream session evidence) s =
      (reconcile_closed codec show fault stream session evidence s).1

  -- The calls, the last one first.
  unfoldable pub run : List Call → Tables
  run [] = record { audit_events = []; recovery_state = [] }
  run (c ∷ cs) = after c (run cs)

  note-kept :
      (stream session cause : String) (s : Tables)
      → (note_unreconciled stream session cause s).1.audit_events ≡ s.audit_events
  unfolding note_unreconciled
  note-kept stream session cause s =
      elim (Bool-cases (is_blank stream || is_blank session || is_blank cause)) [
        | inl blank ↦ rw blank refl
        | inr named ↦ rw named refl
      ]

  reconcile-IsVerified :
      (fault : Fault) (stream session evidence : String) (s : Tables)
      → IsVerified codec s.audit_events
      → IsVerified codec
          (reconcile_closed codec show fault stream session evidence s).1.audit_events
  reconcile-IsVerified fault stream session evidence s h =
      elim (reconcile_cases fault stream session evidence s) [
        | inl (e, refused) ↦ rw refused h
        | inr (body, due, fresh, done) ↦ rw done (
            append-IsVerified codec stream (recovery_key show session evidence)
              "RECOVERY_RECONCILED" body s.audit_events h)
      ]

  after-IsVerified :
      (c : Call) (s : Tables)
      → IsVerified codec s.audit_events
      → IsVerified codec (after c s).audit_events
  unfolding after
  after-IsVerified (append_call stream key kind payload) s h =
      append_once-IsVerified codec stream key kind payload s h
  after-IsVerified (note_call stream session cause) s h = rw (note-kept stream session cause s) h
  after-IsVerified (reconcile_call fault stream session evidence) s h =
      reconcile-IsVerified fault stream session evidence s h

  run-IsVerified : (cs : List Call) → IsVerified codec (run cs).audit_events
  unfolding run check_rows check_from read_rows
  run-IsVerified [] stream = (genesis, refl)
  run-IsVerified (c ∷ cs) stream = after-IsVerified c (run cs) (run-IsVerified cs) stream

  abbrev pub IsVerifiable : String → Tables → Type 0
  IsVerifiable stream s = (tail : String) × (verify codec stream none s ≡ (ok tail, s))

  -- After any appends, notes and reconciliations from empty tables, verify returns a tail for every
  -- stream: the ledger never breaks its own chains.
  pub run-IsVerifiable : (cs : List Call) (stream : String) → IsVerifiable stream (run cs)
  unfolding verify
  run-IsVerifiable cs stream =
      let checked = run-IsVerified cs stream in (checked.0, rw checked.1 refl)
