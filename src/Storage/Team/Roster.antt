-- ===== src/Storage/Team/Roster.antt =====
-- A batch of workers: all of them are registered within the capacity, or none is.
use subagent_bridge.Prelude.{
  ℕ, suc, ◌+◌, ◌≤◌, String, Bool, true, false, not, ◌&&◌, ◌||◌, ◌≡◌, ◌⊎◌, inl, inr, refl, Option,
  none, some, List, [], ◌∷◌, length, map, any, has, distinct, count_if, is_some, is_empty, ltb, leb,
  arith, ◌==◌, ==_refl, eq_iff, Bool-cases,
}
use subagent_bridge.Prelude.Exec.{Error, Result, ok, err, value_error, permission_error}
use subagent_bridge.Prelude.Text.{strips_to_nothing}
use subagent_bridge.Prelude.Dict.{Dict, get, put, get-put, get-put_fresh}
use subagent_bridge.Team.Contracts.{WorkerConfig, AgentSession}
use subagent_bridge.Storage.Team.{TeamTables, values_of}
use subagent_bridge.Storage.Team.Register.{
  roster_roles, worker_session, adopts_process, check_configs, on_roster, is_led_by, is_lead_of,
  insert_workers, batch_transaction, register_worker_batch_once,
}

-- The sessions after the inserts of a batch.
abbrev pub added : String → List WorkerConfig → ℕ → Dict AgentSession → Dict AgentSession
added team_id [] now rows = rows
added team_id (c ∷ cs) now rows =
    added team_id cs now (put rows c.worker_id (worker_session team_id c now))

abbrev pub ids : List WorkerConfig → List String
ids configs = map (λ c. c.worker_id) configs

abbrev pub any_known : Dict AgentSession → List WorkerConfig → Bool
any_known rows configs = any (λ c. is_some (get rows c.worker_id)) configs

pub insert_workers-added :
    (team_id : String) (configs : List WorkerConfig) (now : ℕ) (s : TeamTables)
    → insert_workers team_id configs now s ≡ (
      ok (map (λ c. worker_session team_id c now) configs),
      record s { sessions = added team_id configs now s.sessions },
    )
unfolding insert_workers
insert_workers-added team_id [] now s = refl
insert_workers-added team_id (c ∷ cs) now s =
    rw
      (insert_workers-added team_id cs now
        (record s { sessions = put s.sessions c.worker_id (worker_session team_id c now) }))
      refl

-- The other ids of a batch are still new after one of them was written.
known_after_put :
    (rows : Dict AgentSession) (k : String) (v : AgentSession) (cs : List WorkerConfig)
    → any_known rows cs ≡ false
    → has k (ids cs) ≡ false
    → any_known (put rows k v) cs ≡ false
known_after_put rows k v [] h g = refl
known_after_put rows k v (c ∷ cs) h g = ground (
  arith,
  get-put rows k c.worker_id v,
  eq_iff c.worker_id k,
  eq_iff k c.worker_id,
  known_after_put rows k v cs,
)

count_if-put :
    (p : AgentSession → Bool) (rows : Dict AgentSession) (k : String) (v : AgentSession)
    → get rows k ≡ none
    → p v ≡ true
    → count_if p (values_of (put rows k v)) ≡ suc (count_if p (values_of rows))
unfolding get put
count_if-put p [] k v h m = rw m refl
count_if-put p ((j, w) ∷ rows) k v h m = ground (arith, count_if-put p rows k v)

is_some-false {ℓ} : {A : Type ℓ} (o : Option A) → is_some o ≡ false → o ≡ none
is_some-false none h = refl
is_some-false (some a) h = absurd (ground arith)

pub record IsNewBatch (rows : Dict AgentSession) (configs : List WorkerConfig) : Type 0 where
  pub unknown : any_known rows configs ≡ false
  pub apart : distinct (ids configs) ≡ true

first_new :
    {rows : Dict AgentSession} {c : WorkerConfig} {cs : List WorkerConfig}
    → IsNewBatch rows (c ∷ cs)
    → get rows c.worker_id ≡ none
first_new {rows} {c} {cs} h = is_some-false (get rows c.worker_id) (ground (arith, h.unknown))

others_new :
    {rows : Dict AgentSession} {c : WorkerConfig} {cs : List WorkerConfig} (v : AgentSession)
    → IsNewBatch rows (c ∷ cs)
    → IsNewBatch (put rows c.worker_id v) cs
others_new {rows} {c} {cs} v h = record {
  unknown =
      known_after_put rows c.worker_id v cs (ground (arith, h.unknown)) (ground (arith, h.apart));
  apart = ground (arith, h.apart);
}

-- A new batch loses no session,
pub added_keeps :
    (team_id : String) (configs : List WorkerConfig) (now : ℕ) (rows : Dict AgentSession)
    (k : String) (x : AgentSession)
    → IsNewBatch rows configs
    → get rows k ≡ some x
    → get (added team_id configs now rows) k ≡ some x
added_keeps team_id [] now rows k x h e = e
added_keeps team_id (c ∷ cs) now rows k x h e =
    let new = worker_session team_id c now in
    added_keeps team_id cs now (put rows c.worker_id new) k x (others_new new h)
      (get-put_fresh rows c.worker_id k new x (first_new h) e)

-- and adds each of its workers to the roster.
added_count :
    (team_id : String) (configs : List WorkerConfig) (now : ℕ) (rows : Dict AgentSession)
    → IsNewBatch rows configs
    → count_if (on_roster team_id) (values_of (added team_id configs now rows))
      ≡ count_if (on_roster team_id) (values_of rows) + length configs
added_count team_id [] now rows h = omega arith
added_count team_id (c ∷ cs) now rows h =
    let new = worker_session team_id c now in
    omega (
      arith,
      added_count team_id cs now (put rows c.worker_id new) (others_new new h),
      count_if-put (on_roster team_id) rows c.worker_id new (first_new h)
          (rw (==_refl team_id) refl),
    )

-- The check of the configs raises or goes on, and writes nothing.
check_cases :
    (team_id lead : String) (configs : List WorkerConfig) (s : TeamTables)
    → ((e : Error) × (check_configs team_id lead configs s ≡ (err e, s)))
      ⊎ (check_configs team_id lead configs s ≡ (ok tt, s))
unfolding check_configs
check_cases team_id lead [] s = inr refl
check_cases team_id lead (c ∷ cs) s =
    elim (Bool-cases (
      strips_to_nothing c.worker_id
      || not (c.team_id == team_id)
      || c.worker_id == lead
      || not (has c.role roster_roles))) [
        | inl bad ↦ inl (value_error, rw bad refl)
        | inr fine ↦ elim (Bool-cases (adopts_process c)) [
          | inl adopts ↦ inl (permission_error, rw (fine, adopts) refl)
          | inr own ↦ elim (check_cases team_id lead cs s) [
            | inl (e, bad) ↦ inl (e, rw (fine, own, bad) refl)
            | inr good ↦ inr (rw (fine, own, good) refl)
          ]
        ]
      ]

batch_cases :
    (team_id lead : String) (configs : List WorkerConfig) (max_workers now : ℕ) (s : TeamTables)
    → distinct (ids configs) ≡ true
    → ((e : Error) × (batch_transaction team_id lead configs max_workers now s ≡ (err e, s)))
      ⊎ (IsNewBatch s.sessions configs
          × (count_if (on_roster team_id) (values_of s.sessions) + length configs ≤ max_workers)
          × (batch_transaction team_id lead configs max_workers now s ≡ (
            ok (map (λ c. worker_session team_id c now) configs),
            record s { sessions = added team_id configs now s.sessions },
          )))
unfolding batch_transaction
batch_cases team_id lead configs max_workers now s apart =
    elim (Bool-cases (is_led_by lead (get s.teams team_id))) [
      | inr foreign ↦ inl (permission_error, rw foreign refl)
      | inl owns ↦ elim (Bool-cases (is_lead_of team_id (get s.sessions lead))) [
        | inr outsider ↦ inl (permission_error, rw (owns, outsider) refl)
        | inl leads ↦
            elim (Bool-cases (
              ltb max_workers
                (count_if (on_roster team_id) (values_of s.sessions) + length configs))) [
                  | inl full ↦ inl (value_error, rw (owns, leads, full) refl)
                  | inr room ↦ elim (Bool-cases (any_known s.sessions configs)) [
                    | inl known ↦ inl (value_error, rw (owns, leads, room, known) refl)
                    | inr unknown ↦ inr (
                      record { unknown = unknown; apart = apart },
                      ground arith,
                      rw (owns, leads, room, unknown) (insert_workers-added team_id configs now s),
                    )
                  ]
                ]
      ]
    ]

pub register_cases :
    (team_id lead : String) (configs : List WorkerConfig) (max_workers now : ℕ) (s : TeamTables)
    → ((e : Error) × (register_worker_batch_once team_id lead configs max_workers now s
          ≡ (err e, s)))
      ⊎ (IsNewBatch s.sessions configs
          × (count_if (on_roster team_id) (values_of s.sessions) + length configs ≤ max_workers)
          × (register_worker_batch_once team_id lead configs max_workers now s ≡ (
            ok (map (λ c. worker_session team_id c now) configs),
            record s { sessions = added team_id configs now s.sessions },
          )))
unfolding register_worker_batch_once
register_cases team_id lead configs max_workers now s =
    elim (Bool-cases (strips_to_nothing team_id)) [
      | inl blank ↦ inl (value_error, rw blank refl)
      | inr named ↦ elim (Bool-cases (strips_to_nothing lead)) [
        | inl blank ↦ inl (value_error, rw (named, blank) refl)
        | inr led ↦ elim (Bool-cases (is_empty configs || ltb 16 (length configs))) [
          | inl many ↦ inl (value_error, rw (named, led, many) refl)
          | inr few ↦ elim (Bool-cases (leb 1 max_workers && leb max_workers 64)) [
            | inr wild ↦ inl (value_error, rw (named, led, few, wild) refl)
            | inl bounded ↦ elim (check_cases team_id lead configs s) [
              | inl (e, bad) ↦ inl (e, rw (named, led, few, bounded, bad) refl)
              | inr good ↦ elim (Bool-cases (distinct (ids configs))) [
                | inr twice ↦ inl (value_error, rw (named, led, few, bounded, good, twice) refl)
                | inl apart ↦ elim (batch_cases team_id lead configs max_workers now s apart) [
                  | inl (e, bad) ↦ inl (e, rw (named, led, few, bounded, good, apart, bad) refl)
                  | inr (new, room, done) ↦
                      inr (new, room, rw (named, led, few, bounded, good, apart, done) refl)
                ]
              ]
            ]
          ]
        ]
      ]
    ]

-- What a registration of a batch comes to: nothing, or a roster that is longer by the batch.
abbrev pub IsAllOrNothing :
    String → List WorkerConfig → ℕ → TeamTables → Result (List AgentSession) × TeamTables → Type 0
IsAllOrNothing team_id configs max_workers s r =
    ((e : Error) × (r ≡ (err e, s)))
    ⊎ ((count_if (on_roster team_id) (values_of r.1.sessions)
          ≡ count_if (on_roster team_id) (values_of s.sessions) + length configs)
        × (count_if (on_roster team_id) (values_of r.1.sessions) ≤ max_workers))

-- The registration of a batch raises and changes nothing, or the workers of the team that are not
-- archived are more by exactly the batch, and at most `max_workers`.
pub register_batch-IsAllOrNothing :
    (team_id lead : String) (configs : List WorkerConfig) (max_workers now : ℕ) (s : TeamTables)
    → IsAllOrNothing team_id configs max_workers s
        (register_worker_batch_once team_id lead configs max_workers now s)
register_batch-IsAllOrNothing team_id lead configs max_workers now s =
    elim (register_cases team_id lead configs max_workers now s) [
      | inl (e, refused) ↦ inl (e, refused)
      | inr (new, room, done) ↦
          let count = added_count team_id configs now s.sessions new in
          rw done (inr (count, rw count room))
    ]
