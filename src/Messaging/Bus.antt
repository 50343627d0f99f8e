-- ===== src/Messaging/Bus.antt =====
-- subagentbridge/messaging/bus.py: `enqueue` of `DurableMessageBus`, which keeps its messages in a
-- stream of the audit ledger.
mod Examples
use Prim.Native.String.{◌++◌}
use subagent_bridge.Prelude.{
  ℕ, ◌+◌, String, Bool, true, false, not, ◌&&◌, ◌||◌, ◌≡◌, ◌⊎◌, inl, inr, refl, sym, ap, ◌∙◌, List,
  ltb, arith, sum_of, ◌==◌, if◌then◌else◌, Bool-cases,
}
use subagent_bridge.Prelude.Exec.{
  Error, Result, ok, err, Exec, pure, raise_if, continue, continue-ok, continue-err, ◌>>=◌, ◌>>◌,
  value_error, permission_error,
}
use subagent_bridge.Prelude.Exec.{Result-cases}
use subagent_bridge.Prelude.Text.{codes}
use subagent_bridge.Domain.Contracts.{Message}
use subagent_bridge.Storage.Json.{Json, Codec, object, field, text, no_fields}
use subagent_bridge.Storage.Audit.{Tables, AuditEvent, append_once}
use subagent_bridge.Storage.Audit.Appends.{append_is_idempotent}

-- `len(s.encode('utf-8'))`
abbrev pub utf8_size : ℕ → ℕ
utf8_size c = if ltb c 128 then 1 else if ltb c 2048 then 2 else if ltb c 65536 then 3 else 4

unfoldable pub utf8_length : String → ℕ
utf8_length s = sum_of utf8_size (codes s)

-- `asdict(message)`
unfoldable pub asdict : Message → Json
asdict m = object (
    field "message_id" (text m.message_id) (
      field "from_principal" (text m.from_principal) (
        field "to_principal" (text m.to_principal) (
          field "task_id" (text m.task_id) (
            field "dispatch_id" (text m.dispatch_id)
              (field "payload" (text m.payload) no_fields))))))

abbrev pub is_created : AuditEvent × Bool → Exec Tables Bool
is_created r = pure r.1

module _ (codec : Codec) (stream : String) where
  abbrev pub queue : Message → Exec Tables (AuditEvent × Bool)
  queue m = append_once codec stream ("message:" ++ m.message_id) "MESSAGE_QUEUED" (asdict m)

  unfoldable pub enqueue : Message → String → String → Exec Tables Bool
  enqueue m active_task_id active_dispatch_id = do
    raise_if (not (m.task_id == active_task_id && m.dispatch_id == active_dispatch_id))
        permission_error
    raise_if (m.from_principal == "*" || m.to_principal == "*") permission_error
    raise_if (ltb 65536 (utf8_length m.payload)) value_error
    queue m >>= is_created

  -- The checks look at the message alone.
  enqueue_cases :
      (m : Message) (task dispatch : String)
      → ((e : Error) × ((s : Tables) → enqueue m task dispatch s ≡ (err e, s)))
        ⊎ ((s : Tables) → enqueue m task dispatch s ≡ continue (queue m s) is_created)
  unfolding enqueue
  enqueue_cases m task dispatch =
      elim (Bool-cases (not (m.task_id == task && m.dispatch_id == dispatch))) [
        | inl stale ↦ inl (permission_error, λ s. rw stale refl)
        | inr current ↦ elim (Bool-cases (m.from_principal == "*" || m.to_principal == "*")) [
          | inl broadcast ↦ inl (permission_error, λ s. rw (current, broadcast) refl)
          | inr direct ↦ elim (Bool-cases (ltb 65536 (utf8_length m.payload))) [
            | inl long ↦ inl (value_error, λ s. rw (current, direct, long) refl)
            | inr short ↦ inr (λ s. rw (current, direct, short) refl)
          ]
        ]
      ]

  -- A message that was queued can be sent again: it is reported as not new, and nothing changes.
  pub enqueue_is_idempotent :
      (m : Message) (task dispatch : String) (s : Tables) (created : Bool)
      → (enqueue m task dispatch s).0 ≡ ok created
      → enqueue m task dispatch (enqueue m task dispatch s).1
        ≡ (ok false, (enqueue m task dispatch s).1)
  enqueue_is_idempotent m task dispatch s created e = elim (enqueue_cases m task dispatch) [
    | inl (f, refused) ↦ absurd (ground (arith, sym (ap (λ x. x.0) (refused s)) ∙ e))
    | inr step ↦ elim (Result-cases (queue m s).0) [
      | inr (f, bad) ↦
          let whole = step s ∙ continue-err (queue m s) f is_created bad in
          absurd (ground (arith, sym (ap (λ x. x.0) whole) ∙ e))
      | inl ((event, first), good) ↦
          let whole = step s ∙ continue-ok (queue m s) (event, first) is_created good in
          let same =
            append_is_idempotent codec stream ("message:" ++ m.message_id) "MESSAGE_QUEUED"
              (asdict m) s event first good in
          rw (ap (λ x. x.1) whole) (step (queue m s).1 ∙ ap (λ x. continue x is_created) same)
    ]
  ]
