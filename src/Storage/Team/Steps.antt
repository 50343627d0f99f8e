-- ===== src/Storage/Team/Steps.antt =====
-- What the transactions of the store do to the queue: nothing, one insert, or one update.
use subagent_bridge.Prelude.{
  ℕ, String, Bool, true, false, not, ◌&&◌, ◌||◌, ◌≡◌, ◌⊎◌, inl, inr, refl, ap, ◌∙◌, Option, none,
  some, is_some, is_none, any, leb, ltb, arith, Bool-cases, Option-cases,
}
use subagent_bridge.Prelude.Exec.{
  Error, ok, err, Result-cases, value_error, permission_error, key_error, runtime_error, type_error,
}
use subagent_bridge.Prelude.Int.{ℤ}
use subagent_bridge.Prelude.Text.{strips_to_nothing, text_length}
use subagent_bridge.Prelude.Dict.{get, put}
use subagent_bridge.Storage.Json.{
  Json, Fields, Codec, null, boolean, integer, float, text, array, object, other,
}
use subagent_bridge.Team.Contracts.{
  QueueItem, QueueTaskStatus, HandoffEvidence, is_unfinished, is_retryable, is_final, is_pending,
  is_running,
}
use subagent_bridge.Storage.Team.{TeamTables}
use subagent_bridge.Storage.Team.Register.{is_lead_of, is_led_by}
use subagent_bridge.Storage.Team.Queue.{
  find_duplicate, insert_queue_item_once, encoded_length, size_of, keys_of, is_privileged,
  check_fields, check_guidance, priority_ok, steered, steer_transaction, steer_queue_item_once,
  cancelled_item, cancel_active_queue_item, resumed, mark_task_resuming,
}
use subagent_bridge.Storage.Team.Handoff.{
  handoff_row, set_status, update_queue, update_session, write_handoff,
  finalize_handoff_transaction,
}

-- An update leaves the identity of an item as it is, is not of an item that is over, and brings no
-- failed or cancelled item back if the call is orderly.
pub record IsUpdate (Orderly : Type 0) (old new : QueueItem) : Type 0 where
  pub open_before : is_final old.status ≡ false
  pub same_team : new.team_id ≡ old.team_id
  pub same_key : new.dedup_key ≡ old.dedup_key
  pub same_payload : new.payload ≡ old.payload
  pub stays_over : Orderly → is_retryable old.status ≡ true → is_retryable new.status ≡ true

-- One step of the queue.
pub data QueueStep (Orderly : Type 0) (s : TeamTables) : TeamTables → Type 0 where
  kept : {t : TeamTables} → t.queue ≡ s.queue → QueueStep Orderly s t
  inserted :
      {t : TeamTables} (new : QueueItem)
      → find_duplicate new s ≡ none
      → get s.queue new.dispatch_id ≡ none
      → t.queue ≡ put s.queue new.dispatch_id new
      → QueueStep Orderly s t
  updated :
      {t : TeamTables} (id : String) (old new : QueueItem)
      → get s.queue id ≡ some old
      → IsUpdate Orderly old new
      → t.queue ≡ put s.queue id new
      → QueueStep Orderly s t

-- The item of a dispatch, if there is one, has not failed or been cancelled.
abbrev pub IsRetained : String → TeamTables → Type 0
IsRetained id s = (x : QueueItem) → get s.queue id ≡ some x → is_retryable x.status ≡ false

unfinished_open : (status : QueueTaskStatus) → is_unfinished status ≡ true → is_final status ≡ false
unfinished_open status h = ground arith

insert_cases :
    (item : QueueItem) (s : TeamTables)
    → ((insert_queue_item_once item s).1 ≡ s)
      ⊎ ((find_duplicate item s ≡ none)
          × (get s.queue item.dispatch_id ≡ none)
          × (insert_queue_item_once item s
              ≡ (ok item, record s { queue = put s.queue item.dispatch_id item })))
unfolding insert_queue_item_once
insert_cases item s = elim (Option-cases (find_duplicate item s)) [
  | inr (held, found) ↦ inl (rw found refl)
  | inl fresh ↦ elim (Option-cases (get s.queue item.dispatch_id)) [
    | inr (old, there) ↦ inl (rw (fresh, there) refl)
    | inl free ↦ inr (fresh, free, rw (fresh, free) refl)
  ]
]

cancel_cases :
    (id lead reason : String) (now : ℕ) (s : TeamTables)
    → ((e : Error) × (cancel_active_queue_item id lead reason now s ≡ (err e, s)))
      ⊎ ((old : QueueItem) × (get s.queue id ≡ some old)
          × (is_unfinished old.status ≡ true)
          × (cancel_active_queue_item id lead reason now s ≡ (
            ok (cancelled_item old lead reason now),
            record s { queue = put s.queue id (cancelled_item old lead reason now) },
          )))
unfolding cancel_active_queue_item
cancel_cases id lead reason now s = elim (Option-cases (get s.queue id)) [
  | inl absent ↦ inl (key_error, rw absent refl)
  | inr (old, found) ↦ elim (Bool-cases (is_unfinished old.status)) [
    | inr over ↦ inl (value_error, rw (found, over) refl)
    | inl live ↦ inr (old, found, live, rw (found, live) refl)
  ]
]

resume_cases :
    (id : String) (now : ℕ) (s : TeamTables)
    → ((e : Error) × (mark_task_resuming id now s ≡ (err e, s)))
      ⊎ ((old : QueueItem) × (get s.queue id ≡ some old)
          × ((is_running old.status || is_final old.status) ≡ false)
          × (mark_task_resuming id now s
              ≡ (ok (resumed old now), record s { queue = put s.queue id (resumed old now) })))
unfolding mark_task_resuming
resume_cases id now s = elim (Option-cases (get s.queue id)) [
  | inl absent ↦ inl (key_error, rw absent refl)
  | inr (old, found) ↦ elim (Bool-cases (is_running old.status || is_final old.status)) [
    | inl over ↦ inl (runtime_error, rw (found, over) refl)
    | inr free ↦ inr (old, found, free, rw (found, free) refl)
  ]
]

steer_cases :
    (lead id : String) (guidance : Option Json) (priority : Option ℤ) (now : ℕ) (s : TeamTables)
    → ((e : Error) × (steer_transaction lead id guidance priority now s ≡ (err e, s)))
      ⊎ ((old : QueueItem) × (get s.queue id ≡ some old)
          × (is_unfinished old.status ≡ true)
          × (steer_transaction lead id guidance priority now s ≡ (
            ok (steered old lead guidance priority now),
            record s { queue = put s.queue id (steered old lead guidance priority now) },
          )))
unfolding steer_transaction
steer_cases lead id guidance priority now s = elim (Option-cases (get s.queue id)) [
  | inl absent ↦ inl (key_error, rw absent refl)
  | inr (old, found) ↦ elim (Bool-cases (is_lead_of old.team_id (get s.sessions lead))) [
    | inr outsider ↦ inl (permission_error, rw (found, outsider) refl)
    | inl leads ↦ elim (Bool-cases (is_led_by lead (get s.teams old.team_id))) [
      | inr foreign ↦ inl (permission_error, rw (found, leads, foreign) refl)
      | inl owns ↦ elim (Bool-cases (is_unfinished old.status)) [
        | inr over ↦ inl (value_error, rw (found, leads, owns, over) refl)
        | inl live ↦ elim (Bool-cases (is_some priority && not (is_pending old.status))) [
          | inl late ↦ inl (value_error, rw (found, leads, owns, live, late) refl)
          | inr fine ↦ inr (old, found, live, rw (found, leads, owns, live, fine) refl)
        ]
      ]
    ]
  ]
]

fields_cases :
    (codec : Codec) (fs : Fields) (s : TeamTables)
    → ((e : Error) × (check_fields codec fs s ≡ (err e, s)))
      ⊎ (check_fields codec fs s ≡ (ok tt, s))
fields_cases codec fs s =
    elim (Bool-cases
      (leb (size_of fs) 0 || ltb 32 (size_of fs) || any is_privileged (keys_of fs))) [
        | inl bad ↦ inl (permission_error, rw bad refl)
        | inr fine ↦ elim (Result-cases (encoded_length (codec.dumps (object fs)))) [
          | inr (e, odd) ↦ inl (e, rw (fine, odd) refl)
          | inl (size, good) ↦ elim (Bool-cases (ltb 4096 size)) [
            | inl long ↦ inl (value_error, rw (fine, good, long) refl)
            | inr short ↦ inr (rw (fine, good, short) refl)
          ]
        ]
      ]

guidance_cases :
    (codec : Codec) (guidance : Option Json) (s : TeamTables)
    → ((e : Error) × (check_guidance codec guidance s ≡ (err e, s)))
      ⊎ (check_guidance codec guidance s ≡ (ok tt, s))
unfolding check_guidance
guidance_cases codec none s = inr refl
guidance_cases codec (some (text t)) s =
    elim (Bool-cases (strips_to_nothing t || ltb 4096 (text_length t))) [
      | inl long ↦ inl (value_error, rw long refl)
      | inr short ↦ inr (rw short refl)
    ]
guidance_cases codec (some (object fs)) s = fields_cases codec fs s
guidance_cases codec (some null) s = inl (type_error, refl)
guidance_cases codec (some (boolean b)) s = inl (type_error, refl)
guidance_cases codec (some (integer n)) s = inl (type_error, refl)
guidance_cases codec (some (float x)) s = inl (type_error, refl)
guidance_cases codec (some (array xs)) s = inl (type_error, refl)
guidance_cases codec (some other) s = inl (type_error, refl)

once_cases :
    (codec : Codec) (lead id : String) (guidance : Option Json) (priority : Option ℤ) (now : ℕ)
    (s : TeamTables)
    → ((e : Error) × (steer_queue_item_once codec lead id guidance priority now s ≡ (err e, s)))
      ⊎ ((old : QueueItem) × (get s.queue id ≡ some old)
          × (is_unfinished old.status ≡ true)
          × (steer_queue_item_once codec lead id guidance priority now s ≡ (
            ok (steered old lead guidance priority now),
            record s { queue = put s.queue id (steered old lead guidance priority now) },
          )))
unfolding steer_queue_item_once
once_cases codec lead id guidance priority now s =
    elim (Bool-cases (is_none guidance && is_none priority)) [
      | inl nothing ↦ inl (value_error, rw nothing refl)
      | inr something ↦ elim (Bool-cases (priority_ok priority)) [
        | inr wild ↦ inl (value_error, rw (something, wild) refl)
        | inl fine ↦ elim (guidance_cases codec guidance s) [
          | inl (e, bad) ↦ inl (e, rw (something, fine, bad) refl)
          | inr good ↦ elim (steer_cases lead id guidance priority now s) [
            | inl (e, refused) ↦ inl (e, rw (something, fine, good, refused) refl)
            | inr (old, found, live, done) ↦
                inr (old, found, live, rw (something, fine, good, done) refl)
          ]
        ]
      ]
    ]

-- The tables after a handoff of `old` was finalized.
abbrev pub handed_over :
    String → HandoffEvidence → Option QueueTaskStatus → QueueItem → ℕ → TeamTables → TeamTables
handed_over team_id evidence status old now s = update_session old.to_session_id now (
    update_queue evidence.dispatch_id status now
      (record s { handoffs = put s.handoffs evidence.dispatch_id (handoff_row team_id evidence) }))

written_handoff :
    (team_id : String) (evidence : HandoffEvidence) (status : Option QueueTaskStatus) (now : ℕ)
    (s : TeamTables) (old : QueueItem)
    → get s.handoffs evidence.dispatch_id ≡ none
    → write_handoff team_id evidence status old.to_session_id now s
      ≡ (ok tt, handed_over team_id evidence status old now s)
unfolding write_handoff
written_handoff team_id evidence status now s old fresh = rw fresh refl

pub finalize_cases :
    (team_id : String) (evidence : HandoffEvidence) (status : Option QueueTaskStatus) (now : ℕ)
    (s : TeamTables)
    → ((e : Error) × (finalize_handoff_transaction team_id evidence status now s ≡ (err e, s)))
      ⊎ ((old : QueueItem) × (get s.queue evidence.dispatch_id ≡ some old)
          × (is_final old.status ≡ false)
          × (get s.handoffs evidence.dispatch_id ≡ none)
          × (finalize_handoff_transaction team_id evidence status now s
              ≡ (ok tt, handed_over team_id evidence status old now s)))
unfolding finalize_handoff_transaction
finalize_cases team_id evidence status now s =
    elim (Option-cases (get s.queue evidence.dispatch_id)) [
      | inl absent ↦ inl (key_error, rw absent refl)
      | inr (old, found) ↦ elim (Bool-cases (is_final old.status)) [
        | inl over ↦ inl (value_error, rw (found, over) refl)
        | inr still ↦ elim (Option-cases (get s.handoffs evidence.dispatch_id)) [
          | inr (row, there) ↦ inl (value_error, rw (found, still, there) refl)
          | inl fresh ↦ inr (
            old,
            found,
            still,
            fresh,
            rw (found, still, fresh, written_handoff team_id evidence status now s old fresh) refl,
          )
        ]
      ]
    ]

pub insert-IsStep :
    (item : QueueItem) (s : TeamTables) → QueueStep Unit s (insert_queue_item_once item s).1
insert-IsStep item s = elim (insert_cases item s) [
  | inl same ↦ kept (ap (λ t. t.queue) same)
  | inr (fresh, free, done) ↦ inserted item fresh free (ap (λ r. r.1.queue) done)
]

pub steer-IsStep :
    (codec : Codec) (lead id : String) (guidance : Option Json) (priority : Option ℤ) (now : ℕ)
    (s : TeamTables)
    → QueueStep Unit s (steer_queue_item_once codec lead id guidance priority now s).1
steer-IsStep codec lead id guidance priority now s =
    elim (once_cases codec lead id guidance priority now s) [
      | inl (e, refused) ↦ kept (ap (λ r. r.1.queue) refused)
      | inr (old, found, live, done) ↦
          updated id old (steered old lead guidance priority now) found
            (record {
              open_before = unfinished_open old.status live;
              same_team = refl;
              same_key = refl;
              same_payload = refl;
              stays_over = λ o h. h;
            })
            (ap (λ r. r.1.queue) done)
    ]

pub cancel-IsStep :
    (id lead reason : String) (now : ℕ) (s : TeamTables)
    → QueueStep Unit s (cancel_active_queue_item id lead reason now s).1
cancel-IsStep id lead reason now s = elim (cancel_cases id lead reason now s) [
  | inl (e, refused) ↦ kept (ap (λ r. r.1.queue) refused)
  | inr (old, found, live, done) ↦
      updated id old (cancelled_item old lead reason now) found
        (record {
          open_before = unfinished_open old.status live;
          same_team = refl;
          same_key = refl;
          same_payload = refl;
          stays_over = λ o h. refl;
        })
        (ap (λ r. r.1.queue) done)
]

or_right : (a b : Bool) → (a || b) ≡ false → b ≡ false
or_right a b h = ground arith

pub resume-IsStep :
    (id : String) (now : ℕ) (s : TeamTables)
    → QueueStep (IsRetained id s) s (mark_task_resuming id now s).1
resume-IsStep id now s = elim (resume_cases id now s) [
  | inl (e, refused) ↦ kept (ap (λ r. r.1.queue) refused)
  | inr (old, found, free, done) ↦
      updated id old (resumed old now) found
        (record {
          open_before = or_right (is_running old.status) (is_final old.status) free;
          same_team = refl;
          same_key = refl;
          same_payload = refl;
          stays_over = λ o h. absurd (ground (arith, o old found, h));
        })
        (ap (λ r. r.1.queue) done)
]

pub finalize-IsStep :
    (team_id : String) (evidence : HandoffEvidence) (status : Option QueueTaskStatus) (now : ℕ)
    (s : TeamTables)
    → QueueStep
        (IsRetained evidence.dispatch_id s)
        s
        (finalize_handoff_transaction team_id evidence status now s).1
finalize-IsStep team_id evidence none now s = elim (finalize_cases team_id evidence none now s) [
  | inl (e, refused) ↦ kept (ap (λ r. r.1.queue) refused)
  | inr (old, found, still, fresh, done) ↦ kept (ap (λ r. r.1.queue) done)
]
finalize-IsStep team_id evidence (some status) now s =
    elim (finalize_cases team_id evidence (some status) now s) [
      | inl (e, refused) ↦ kept (ap (λ r. r.1.queue) refused)
      | inr (old, found, still, fresh, done) ↦
          updated evidence.dispatch_id old (record old { status = status; updated_at = now }) found
            (record {
              open_before = still;
              same_team = refl;
              same_key = refl;
              same_payload = refl;
              stays_over = λ o h. absurd (ground (arith, o old found, h));
            })
            (ap (λ r. r.1.queue) done
              ∙ ap (λ o. set_status o evidence.dispatch_id status now s.queue) found)
    ]
