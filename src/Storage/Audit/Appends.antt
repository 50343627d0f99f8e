-- ===== src/Storage/Audit/Appends.antt =====
-- `append_once` and `reconcile_closed`: what they write, and the calls in any order.
use subagent_bridge.Prelude.{
  String, Bool, true, false, ◌&&◌, ◌||◌, ◌≡◌, ◌⊎◌, inl, inr, refl, sym, ap, ◌∙◌, none, some, List,
  [], ◌∷◌, ◌++◌, arith, ◌==◌, ◌!=◌, ==_refl, Bool-cases, Option-cases,
}
use subagent_bridge.Prelude.Exec.{
  keep_if_ok, Error, ok, err, transaction, value_error, replay_conflict,
}
use subagent_bridge.Prelude.Exec.{Result-cases}
use subagent_bridge.Prelude.Text.{strips_to_nothing}
use subagent_bridge.Storage.Json.{Json, Codec}
use subagent_bridge.Storage.Audit.{
  Row, Tables, AuditEvent, read_rows, find_key, check_rows, next_row, event_of, append_transaction,
  append_once, scrub_mapping,
}
use subagent_bridge.Storage.Audit.Chain.{IsVerified, append-ok, append-IsVerified}

find_key-append :
    (stream key : String) (rows : List Row) (new : Row)
    → find_key stream key rows ≡ none
    → (new.stream == stream && new.idempotency_key == key) ≡ true
    → find_key stream key (rows ++ new ∷ []) ≡ some new
find_key-append stream key [] new h e = rw e refl
find_key-append stream key (r ∷ rows) new h e =
    elim (Bool-cases (r.stream == stream && r.idempotency_key == key)) [
      | inl here ↦ absurd (ground (arith, sym (found here) ∙ h))
      | inr there ↦ rw there (find_key-append stream key rows new (sym (skip there) ∙ h) e)
    ]
  where
    found :
        (r.stream == stream && r.idempotency_key == key) ≡ true
        → find_key stream key (r ∷ rows) ≡ some r
    found here = rw here refl

    skip :
        (r.stream == stream && r.idempotency_key == key) ≡ false
        → find_key stream key (r ∷ rows) ≡ find_key stream key rows
    skip there = rw there refl

module _ (codec : Codec) (stream key kind : String) where
  -- The row that the transaction writes, and the table with it.
  abbrev pub written : String → Tables → Row
  written body s = next_row codec stream key kind body (read_rows stream s.audit_events)

  abbrev pub grown : String → Tables → Tables
  grown body s = record s { audit_events = s.audit_events ++ written body s ∷ [] }

  append_cases :
      (payload : Json) (body : String) (s : Tables)
      → ((e : Error) × (append_transaction codec stream key kind payload body s ≡ (err e, s)))
        ⊎ (((event : AuditEvent) × (append_transaction codec stream key kind payload body s
                ≡ (ok (event, false), s)))
            ⊎ ((tail : String) × (check_rows codec stream (read_rows stream s.audit_events)
                  ≡ ok tail)
                × (find_key stream key s.audit_events ≡ none)
                × (append_transaction codec stream key kind payload body s
                    ≡ (ok (event_of (written body s) payload, true), grown body s))))
  unfolding append_transaction
  append_cases payload body s =
      elim (Result-cases (check_rows codec stream (read_rows stream s.audit_events))) [
        | inr (e, bad) ↦ inl (e, rw bad refl)
        | inl (tail, good) ↦ elim (Option-cases (find_key stream key s.audit_events)) [
          | inl fresh ↦ inr (inr (tail, good, fresh, rw (good, fresh) refl))
          | inr (old, found) ↦
              elim (Bool-cases (old.event_type != kind || old.payload_json != body)) [
                | inl differs ↦ inl (replay_conflict, rw (good, found, differs) refl)
                | inr same ↦ inr (inl (event_of old payload, rw (good, found, same) refl))
              ]
        ]
      ]

  written-key :
      (body : String) (s : Tables)
      → ((written body s).stream == stream && (written body s).idempotency_key == key) ≡ true
  unfolding next_row
  written-key body s = rw (==_refl stream, ==_refl key) refl

  written-same :
      (body : String) (s : Tables)
      → ((written body s).event_type != kind || (written body s).payload_json != body) ≡ false
  unfolding next_row
  written-same body s = rw (==_refl kind, ==_refl body) refl

  again :
      (payload : Json) (body : String) (s : Tables) (tail : String)
      → check_rows codec stream (read_rows stream s.audit_events) ≡ ok tail
      → find_key stream key s.audit_events ≡ none
      → append_transaction codec stream key kind payload body (grown body s)
        ≡ (ok (event_of (written body s) payload, false), grown body s)
  unfolding append_transaction
  again payload body s tail good fresh =
      rw
        (
          append-ok codec stream key kind body s.audit_events tail good,
          find_key-append stream key s.audit_events (written body s) fresh (written-key body s),
          written-same body s,
        )
        refl

  -- The arguments passed, and what was made of the payload.
  abbrev IsAccepted : Json → Json → String → Type 0
  IsAccepted payload data_ body =
      ((strips_to_nothing stream || strips_to_nothing key || strips_to_nothing kind) ≡ false)
      × (scrub_mapping codec payload ≡ ok data_)
      × (codec.dumps data_ ≡ ok body)

  once_accepted :
      (payload data_ : Json) (body : String) (s : Tables)
      → IsAccepted payload data_ body
      → append_once codec stream key kind payload s
        ≡ transaction (append_transaction codec stream key kind data_ body) s
  unfolding append_once
  once_accepted payload data_ body s h = rw (h.0, h.1, h.2) refl

  once_cases :
      (payload : Json) (s : Tables)
      → ((e : Error) × (append_once codec stream key kind payload s ≡ (err e, s)))
        ⊎ ((data_ : Json) × (body : String) × IsAccepted payload data_ body)
  unfolding append_once
  once_cases payload s =
      elim (Bool-cases
        (strips_to_nothing stream || strips_to_nothing key || strips_to_nothing kind)) [
          | inl blank ↦ inl (value_error, rw blank refl)
          | inr named ↦ elim (Result-cases (scrub_mapping codec payload)) [
            | inr (e, odd) ↦ inl (e, rw (named, odd) refl)
            | inl (data_, scrubbed) ↦ elim (Result-cases (codec.dumps data_)) [
              | inr (e, nan) ↦ inl (e, rw (named, scrubbed, nan) refl)
              | inl (body, dumped) ↦ inr (data_, body, (named, scrubbed, dumped))
            ]
          ]
        ]

  -- What a call comes to: it raises and changes nothing, it finds its event, or it writes it.
  abbrev IsOutcome : Json → Tables → Type 0
  IsOutcome payload s =
      ((e : Error) × (append_once codec stream key kind payload s ≡ (err e, s)))
      ⊎ (((event : AuditEvent) × (append_once codec stream key kind payload s
              ≡ (ok (event, false), s)))
          ⊎ ((data_ : Json) × (body : String) × (tail : String) × IsAccepted payload data_ body
              × (check_rows codec stream (read_rows stream s.audit_events) ≡ ok tail)
              × (find_key stream key s.audit_events ≡ none)
              × (append_once codec stream key kind payload s
                  ≡ (ok (event_of (written body s) data_, true), grown body s))))

  once-IsOutcome : (payload : Json) (s : Tables) → IsOutcome payload s
  once-IsOutcome payload s = elim (once_cases payload s) [
    | inl refused ↦ inl refused
    | inr (data_, body, accepted) ↦
        let first = once_accepted payload data_ body s accepted in
        elim (append_cases data_ body s) [
          | inl (e, refused) ↦ inl (e, first ∙ ap (λ x. keep_if_ok s x) refused)
          | inr (inl (old, replayed)) ↦ inr (inl (old, first ∙ ap (λ x. keep_if_ok s x) replayed))
          | inr (inr (tail, good, fresh, new)) ↦
              inr (
                inr
                  (data_, body, tail, accepted, good, fresh, first ∙ ap (λ x. keep_if_ok s x) new))
        ]
  ]

  -- An append that returned can be sent again: it returns the same event, says that it is not new,
  -- and changes nothing.
  pub append_is_idempotent :
      (payload : Json) (s : Tables) (event : AuditEvent) (created : Bool)
      → (append_once codec stream key kind payload s).0 ≡ ok (event, created)
      → append_once codec stream key kind payload (append_once codec stream key kind payload s).1
        ≡ (ok (event, false), (append_once codec stream key kind payload s).1)
  append_is_idempotent payload s event created e = elim (once-IsOutcome payload s) [
    | inl (f, refused) ↦ absurd (ground (arith, sym (ap (λ x. x.0) refused) ∙ e))
    | inr (inl (old, replayed)) ↦
        let returned = sym (ap (λ x. x.0) replayed) ∙ e in
        let same : old ≡ event = cc in rw (ap (λ x. x.1) replayed, ← same) replayed
    | inr (inr (data_, body, tail, accepted, good, fresh, new)) ↦
        let returned = sym (ap (λ x. x.0) new) ∙ e in
        let same : event_of (written body s) data_ ≡ event = cc in
        let resent = once_accepted payload data_ body (grown body s) accepted in
        rw (ap (λ x. x.1) new, ← same)
          (resent ∙ ap (λ x. keep_if_ok (grown body s) x) (again data_ body s tail good fresh))
  ]

  pub append_once-IsVerified :
      (payload : Json) (s : Tables)
      → IsVerified codec s.audit_events
      → IsVerified codec (append_once codec stream key kind payload s).1.audit_events
  append_once-IsVerified payload s h = elim (once-IsOutcome payload s) [
    | inl (f, refused) ↦ rw refused h
    | inr (inl (old, replayed)) ↦ rw replayed h
    | inr (inr (data_, body, tail, accepted, good, fresh, new)) ↦
        rw new (append-IsVerified codec stream key kind body s.audit_events h)
  ]
