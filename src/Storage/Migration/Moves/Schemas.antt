-- ===== src/Storage/Migration/Moves/Schemas.antt =====
-- The migration of the whole schema: all or nothing, no row lost, and once.
use subagent_bridge.Prelude.{
  ℕ, Bool, true, false, not, ◌&&◌, ◌≡◌, ◌⊎◌, inl, inr, refl, sym, ap, ◌∙◌, ltb, leb, arith,
  Bool-cases, if◌then◌else◌,
}
use subagent_bridge.Prelude.Exec.{Error, Result, ok, err, Exec, ◌>>◌, migration_integrity}
use subagent_bridge.Prelude.Exec.{Result-cases}
use subagent_bridge.Storage.Migration.{
  SimpulTables, LegacyTables, Schema, same_team, same_session, same_queue, same_worktree,
  same_handoff, same_message, same_checkpoint,
}
use subagent_bridge.Storage.Migration.Moves.{
  migrate_table, migrate_queue, references_ok, migrate_tables, migrate_sessions, migrate_dispatches,
  migrate_worktrees, migrate_handoffs, migrate_messages, migrate_checkpoints, check_references,
  move, any_legacy, move_legacy, migration, migrate_schema, no_legacy,
}
use subagent_bridge.Storage.Migration.Moves.Lossless.{
  IsKept, legacy_rows, legacy_values, migrate_table-IsKept, migrate_queue-IsKept,
}

-- Every row of every legacy table is in the new tables with the same values, every old row is as it
-- was, and all references lead to rows.
pub record IsLossless (l : LegacyTables) (s t : SimpulTables) : Type 0 where
  pub teams : IsKept same_team (legacy_rows l.teams) s.teams t.teams
  pub sessions : IsKept same_session (legacy_rows l.sessions) s.sessions t.sessions
  pub queue : IsKept same_queue (legacy_values l.queue) s.queue t.queue
  pub worktrees : IsKept same_worktree (legacy_rows l.worktrees) s.worktrees t.worktrees
  pub handoffs : IsKept same_handoff (legacy_rows l.handoffs) s.handoffs t.handoffs
  pub messages : IsKept same_message (legacy_rows l.messages) s.messages t.messages
  pub checkpoints : IsKept same_checkpoint (legacy_rows l.checkpoints) s.checkpoints t.checkpoints
  pub references : references_ok t ≡ true

true_of_not : (b : Bool) → not b ≡ false → b ≡ true
true_of_not true h = refl
true_of_not false h = absurd (ground arith)

-- What a move that returned did, with what comes after it.
move-then :
    {A : Type 0} (read : SimpulTables → Result A) (write : A → SimpulTables → SimpulTables)
    (rest : Exec SimpulTables (Unit {0})) (s : SimpulTables)
    → ((move read write >> rest) s).0 ≡ ok tt
    → (a : A) × (read s ≡ ok a)
      × ((rest (write a s)).0 ≡ ok tt)
      × ((move read write >> rest) s ≡ rest (write a s))
move-then read write rest s e = elim (Result-cases (read s)) [
  | inl (a, h) ↦
      let same : (move read write >> rest) s ≡ rest (write a s) = rw h refl in
      (a, h, sym (ap (λ x. x.0) same) ∙ e, same)
  | inr (x, h) ↦
      let same : (move read write >> rest) s ≡ (err x, s) = rw h refl in
      absurd (ground (arith, sym (ap (λ r. r.0) same) ∙ e))
]

check-ok :
    (t : SimpulTables)
    → (check_references t).0 ≡ ok tt
    → (references_ok t ≡ true) × (check_references t ≡ (ok tt, t))
unfolding check_references
check-ok t e = elim (Bool-cases (references_ok t)) [
  | inl good ↦ (good, rw good refl)
  | inr bad ↦
      let same : check_references t ≡ (err migration_integrity, t) = rw bad refl in
      absurd (ground (arith, sym (ap (λ r. r.0) same) ∙ e))
]

migrate_tables-IsLossless :
    (l : LegacyTables) (s : SimpulTables)
    → (migrate_tables l s).0 ≡ ok tt
    → (t : SimpulTables) × (migrate_tables l s ≡ (ok tt, t)) × IsLossless l s t
unfolding migrate_tables migrate_sessions migrate_dispatches migrate_worktrees migrate_handoffs
    migrate_messages migrate_checkpoints
migrate_tables-IsLossless l s e =
    let (teams, h1, e1, q1) =
      move-then (λ s. migrate_table same_team l.teams s.teams) (λ rows s. record s { teams = rows })
        (migrate_sessions l) s e in
    let s1 = record s { teams = teams } in
    let (sessions, h2, e2, q2) =
      move-then (λ s. migrate_table same_session l.sessions s.sessions)
        (λ rows s. record s { sessions = rows }) (migrate_dispatches l) s1 e1 in
    let s2 = record s1 { sessions = sessions } in
    let (queue, h3, e3, q3) =
      move-then (λ s. migrate_queue l.queue s.queue) (λ rows s. record s { queue = rows })
        (migrate_worktrees l) s2 e2 in
    let s3 = record s2 { queue = queue } in
    let (worktrees, h4, e4, q4) =
      move-then (λ s. migrate_table same_worktree l.worktrees s.worktrees)
        (λ rows s. record s { worktrees = rows }) (migrate_handoffs l) s3 e3 in
    let s4 = record s3 { worktrees = worktrees } in
    let (handoffs, h5, e5, q5) =
      move-then (λ s. migrate_table same_handoff l.handoffs s.handoffs)
        (λ rows s. record s { handoffs = rows }) (migrate_messages l) s4 e4 in
    let s5 = record s4 { handoffs = handoffs } in
    let (messages, h6, e6, q6) =
      move-then (λ s. migrate_table same_message l.messages s.messages)
        (λ rows s. record s { messages = rows }) (migrate_checkpoints l) s5 e5 in
    let s6 = record s5 { messages = messages } in
    let (checkpoints, h7, e7, q7) =
      move-then (λ s. migrate_table same_checkpoint l.checkpoints s.checkpoints)
        (λ rows s. record s { checkpoints = rows }) check_references s6 e6 in
    let t = record s6 { checkpoints = checkpoints } in
    let (good, q8) = check-ok t e7 in
    (
      t,
      q1 ∙ q2 ∙ q3 ∙ q4 ∙ q5 ∙ q6 ∙ q7 ∙ q8,
      record {
        teams = migrate_table-IsKept same_team l.teams s.teams teams h1;
        sessions = migrate_table-IsKept same_session l.sessions s.sessions sessions h2;
        queue = migrate_queue-IsKept l.queue s.queue queue h3;
        worktrees = migrate_table-IsKept same_worktree l.worktrees s.worktrees worktrees h4;
        handoffs = migrate_table-IsKept same_handoff l.handoffs s.handoffs handoffs h5;
        messages = migrate_table-IsKept same_message l.messages s.messages messages h6;
        checkpoints =
            migrate_table-IsKept same_checkpoint l.checkpoints s.checkpoints checkpoints h7;
        references = good;
      },
    )

and_false : (b : Bool) → (b && false) ≡ false
and_false true = refl
and_false false = refl

abbrev pub upgraded : ℕ → ℕ
upgraded v = if ltb v 2 then 2 else v

-- The schema after legacy tables were moved to `t`.
abbrev pub moved_schema : Schema → SimpulTables → Schema
moved_schema s t = record s {
  legacy = no_legacy;
  tables = t;
  version = upgraded s.version;
  views = true;
}

move_legacy_cases :
    (backup : Result (Unit {0})) (s : Schema)
    → ((e : Error) × ((move_legacy backup s).0 ≡ err e))
      ⊎ ((t : SimpulTables) × IsLossless s.legacy s.tables t
          × (move_legacy backup s ≡ (ok tt, record s { legacy = no_legacy; tables = t })))
unfolding move_legacy
move_legacy_cases backup s = elim (Result-cases backup) [
  | inr (e, bad) ↦ inl (e, rw bad refl)
  | inl (u, saved) ↦ elim (Result-cases (migrate_tables s.legacy s.tables).0) [
    | inr (e, bad) ↦
        let pair : migrate_tables s.legacy s.tables
            ≡ (err e, (migrate_tables s.legacy s.tables).1) =
          ap (λ r. (r, (migrate_tables s.legacy s.tables).1)) bad in
        inl (e, rw (saved, pair) refl)
    | inl (v, good) ↦
        let (t, same, kept) = migrate_tables-IsLossless s.legacy s.tables good in
        inr (t, kept, rw (saved, same) refl)
  ]
]

-- What a migration comes to when there are legacy tables: nothing, or all of it.
abbrev pub IsAllOrNothing : Result (Unit {0}) → Schema → Type 0
IsAllOrNothing backup s =
    ((e : Error) × (migrate_schema backup s ≡ (err e, s)))
    ⊎ ((t : SimpulTables) × IsLossless s.legacy s.tables t
        × (migrate_schema backup s ≡ (ok tt, moved_schema s t)))

-- With legacy tables, a migration raises and changes nothing, or it drops them after every one of
-- their rows stands in the new tables with the same values, every row that was there before stands
-- as it was, and every reference leads to a row.
pub migrate_schema-IsAllOrNothing :
    (backup : Result (Unit {0})) (s : Schema) → any_legacy s.legacy ≡ true → IsAllOrNothing backup s
unfolding migrate_schema migration
migrate_schema-IsAllOrNothing backup s some_left =
    let ahead : (leb 2 s.version && not (any_legacy s.legacy)) ≡ false =
      rw some_left (and_false (leb 2 s.version)) in
    elim (move_legacy_cases backup s) [
      | inl (e, bad) ↦
          let pair : move_legacy backup s ≡ (err e, (move_legacy backup s).1) =
            ap (λ r. (r, (move_legacy backup s).1)) bad in
          inl (e, rw (ahead, some_left, pair) refl)
      | inr (t, kept, same) ↦ inr (t, kept, rw (ahead, some_left, same) refl)
    ]

record IsSettled (s : Schema) : Type 0 where
  moved : any_legacy s.legacy ≡ false
  recent : leb 2 s.version ≡ true
  viewed : s.views ≡ true

settled_stays :
    (backup : Result (Unit {0})) (s : Schema) → IsSettled s → migrate_schema backup s ≡ (ok tt, s)
unfolding migrate_schema migration
settled_stays backup s h =
    let whole : migrate_schema backup s ≡ (ok tt, record s { views = true }) =
      rw (h.moved, h.recent) refl in
    whole ∙ ap (λ v. (ok tt, record s { views = v })) (sym h.viewed)

upgraded_recent : (v : ℕ) → leb 2 (upgraded v) ≡ true
upgraded_recent v = ground arith

migrated-IsSettled :
    (backup : Result (Unit {0})) (s : Schema)
    → (migrate_schema backup s).0 ≡ ok tt
    → IsSettled (migrate_schema backup s).1
unfolding migrate_schema migration
migrated-IsSettled backup s e = elim (Bool-cases (any_legacy s.legacy)) [
  | inl some_left ↦ elim (migrate_schema-IsAllOrNothing backup s some_left) [
    | inl (x, bad) ↦ absurd (ground (arith, sym (ap (λ r. r.0) bad) ∙ e))
    | inr (t, kept, same) ↦
        rw same (record { moved = refl; recent = upgraded_recent s.version; viewed = refl })
  ]
  | inr done ↦ elim (Bool-cases (leb 2 s.version)) [
    | inl recent ↦ rw (done, recent) (record { moved = done; recent = recent; viewed = refl })
    | inr old ↦
        rw (done, old) (record { moved = done; recent = upgraded_recent s.version; viewed = refl })
  ]
]

-- A migration that returned can be run again: it returns and changes nothing.
pub migration_is_idempotent :
    (backup again : Result (Unit {0})) (s : Schema)
    → (migrate_schema backup s).0 ≡ ok tt
    → migrate_schema again (migrate_schema backup s).1 ≡ (ok tt, (migrate_schema backup s).1)
migration_is_idempotent backup again s e =
    settled_stays again (migrate_schema backup s).1 (migrated-IsSettled backup s e)
