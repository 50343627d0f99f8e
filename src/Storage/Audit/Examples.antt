-- ===== src/Storage/Audit/Examples.antt =====
-- Runs of the audit ledger, and the theorems of this part at them.
use subagent_bridge.Prelude.{ℕ, String, ◌≡◌, refl, List, [], ◌∷◌, true, false}
use subagent_bridge.Prelude.Exec.{ok}
use subagent_bridge.Prelude.Text.{strips_to_nothing}
use subagent_bridge.Storage.Json.{
  Json, Codec, null, object, field, text, no_fields, scrub, is_private,
}
use subagent_bridge.Storage.Audit.{
  Tables, AuditEvent, no_fault, update_fault, reconcile_closed, reconcile_transaction, read_rows,
  check_rows, check_from, row_ok, digest, next_row, append_transaction, append_once,
  note_unreconciled,
}
use subagent_bridge.Storage.Audit.Appends.{append_is_idempotent}
use subagent_bridge.Storage.Audit.Ledger.{
  Call, append_call, note_call, reconcile_call, run, IsVerifiable, run-IsVerifiable,
}
use subagent_bridge.Storage.Audit.Reconciled.{IsAtomic, reconcile_closed-IsAtomic}

-- Digests that tell the rows of the examples apart.
abbrev simple : Codec
simple = record {
  lower = λ s. s;
  dumps = λ v. ok "{}";
  dumps_row = λ version stream seq key kind body prev. key;
  loads = λ s. null;
  sha256 = λ s. s;
}

abbrev payload : Json
payload = object (field "note" (text "hello") (field "api-key" (text "abc") no_fields))

abbrev redacted : Json
redacted = object (field "note" (text "hello") (field "api-key" (text "[REDACTED]") no_fields))

abbrev calls : List Call
calls =
    reconcile_call no_fault "s" "run-1" "proof"
    ∷ reconcile_call update_fault "s" "run-1" "proof"
    ∷ append_call "s" "k-1" "STARTED" payload
    ∷ append_call "s" "k-1" "STARTED" payload
    ∷ note_call "s" "run-1" "lost"
    ∷ append_call "s" "k-0" "STARTED" payload
    ∷ []

abbrev show : ℕ → String
show n = "5"

run-IsVerifiable_example : IsVerifiable simple show "s" (run simple show calls)
run-IsVerifiable_example = run-IsVerifiable simple show calls "s"

abbrev empty : Tables
empty = record { audit_events = []; recovery_state = [] }

abbrev event : AuditEvent
event = record {
  stream = "s";
  seq = 1;
  idempotency_key = "k-0";
  event_type = "STARTED";
  payload = redacted;
  prev_sha = "0000000000000000000000000000000000000000000000000000000000000000";
  event_sha = "k-0";
}

event_is_appended : (append_once simple "s" "k-0" "STARTED" payload empty).0 ≡ ok (event, true)
unfolding append_once append_transaction read_rows check_rows check_from row_ok digest next_row
    scrub is_private strips_to_nothing
event_is_appended = refl

append_is_idempotent_example :
    append_once simple "s" "k-0" "STARTED" payload
      (append_once simple "s" "k-0" "STARTED" payload empty).1
    ≡ (ok (event, false), (append_once simple "s" "k-0" "STARTED" payload empty).1)
append_is_idempotent_example =
    append_is_idempotent simple "s" "k-0" "STARTED" payload empty event true event_is_appended

-- The tables with one session that requires recovery.
abbrev due : Tables
due = (note_unreconciled "s" "run-1" "lost" empty).1

reconcile_closed-IsAtomic_example :
    IsAtomic simple show "s" "run-1" "proof" due
      (reconcile_closed simple show no_fault "s" "run-1" "proof" due)
reconcile_closed-IsAtomic_example =
    reconcile_closed-IsAtomic simple show no_fault "s" "run-1" "proof" due

-- A fault of the UPDATE takes the INSERT back.
fault_changes_nothing : (reconcile_closed simple show update_fault "s" "run-1" "proof" due).1 ≡ due
unfolding reconcile_closed reconcile_transaction note_unreconciled check_rows check_from read_rows
fault_changes_nothing = refl
