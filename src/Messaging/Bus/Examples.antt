-- ===== src/Messaging/Bus/Examples.antt =====
-- A message that is queued twice.
use subagent_bridge.Prelude.{◌≡◌, refl, [], true, false}
use subagent_bridge.Prelude.Exec.{ok}
use subagent_bridge.Prelude.Text.{strips_to_nothing}
use subagent_bridge.Domain.Contracts.{Message}
use subagent_bridge.Storage.Json.{Codec, null, scrub, is_private}
use subagent_bridge.Storage.Audit.{
  Tables, append_once, append_transaction, read_rows, check_rows, check_from, row_ok, digest,
  next_row,
}
use subagent_bridge.Messaging.Bus.{enqueue, asdict, utf8_length, enqueue_is_idempotent}

abbrev simple : Codec
simple = record {
  lower = λ s. s;
  dumps = λ v. ok "{}";
  dumps_row = λ version stream seq key kind body prev. key;
  loads = λ s. null;
  sha256 = λ s. s;
}

abbrev empty : Tables
empty = record { audit_events = []; recovery_state = [] }

abbrev message : Message
message = record {
  message_id = "m-1";
  from_principal = "pm";
  to_principal = "w-1";
  task_id = "t-1";
  dispatch_id = "d-1";
  payload = "start";
}

message_is_queued : (enqueue simple "run" message "t-1" "d-1" empty).0 ≡ ok true
unfolding enqueue asdict utf8_length append_once append_transaction read_rows check_rows check_from
    row_ok digest next_row scrub is_private strips_to_nothing
message_is_queued = refl

enqueue_is_idempotent_example :
    enqueue simple "run" message "t-1" "d-1" (enqueue simple "run" message "t-1" "d-1" empty).1
    ≡ (ok false, (enqueue simple "run" message "t-1" "d-1" empty).1)
enqueue_is_idempotent_example =
    enqueue_is_idempotent simple "run" message "t-1" "d-1" empty true message_is_queued
