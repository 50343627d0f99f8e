-- ===== src/Storage/Team/Grown.antt =====
-- What a registration may change: it loses no session, and a team that is new has its lead.
use subagent_bridge.Prelude.{
  ℕ, String, true, not, ◌&&◌, ◌||◌, ◌≡◌, ◌⊎◌, inl, inr, refl, sym, ap, ◌∙◌, Option, none, some,
  List, leb, ◌==◌, ◌!=◌, ==_refl, Bool-cases, Option-cases,
}
use subagent_bridge.Prelude.Exec.{Error, ok, err, keep_if_ok, integrity_error}
use subagent_bridge.Prelude.Text.{strips_to_nothing, text_length}
use subagent_bridge.Prelude.Dict.{Dict, get, put, get-put_fresh, get-put_cases, get-put_self}
use subagent_bridge.Team.Contracts.{WorkerConfig, AgentTeam, AgentSession, WorktreeAssignment}
use subagent_bridge.Storage.Team.{TeamTables}
use subagent_bridge.Storage.Team.Register.{
  is_lead_of, bounded_id, lead_session, new_team, create_team_with_lead_once, worker_session,
  branch_or_default, is_unbounded, adopts_process, add_worktree, single_transaction,
  register_single_worker_once, register_worker_batch_once,
}
use subagent_bridge.Storage.Team.Roster.{added_keeps, register_cases}

pub record IsGrown (s t : TeamTables) : Type 0 where
  pub sessions_stay :
      (k : String) (x : AgentSession) → get s.sessions k ≡ some x → get t.sessions k ≡ some x
  pub new_teams_led :
      (k : String) (x : AgentTeam)
      → get t.teams k ≡ some x
      → (get s.teams k ≡ some x) ⊎ (is_lead_of k (get t.sessions x.lead_session_id) ≡ true)

-- A transaction that does not touch the teams.
sessions-IsGrown :
    {s t : TeamTables}
    → t.teams ≡ s.teams
    → ((k : String) (x : AgentSession) → get s.sessions k ≡ some x → get t.sessions k ≡ some x)
    → IsGrown s t
sessions-IsGrown same h = record {
  sessions_stay = h;
  new_teams_led = λ k x e. inl (sym (ap (λ d. get d k) same) ∙ e);
}

unchanged : {s t : TeamTables} → t ≡ s → IsGrown s t
unchanged {s} {t} same = sessions-IsGrown (ap (λ u. u.teams) same) (λ k x e. rw same e)

-- The tables with a new team and its lead.
abbrev pub with_team : String → String → String → ℕ → TeamTables → TeamTables
with_team team_id lead title now s = record s {
  teams = put s.teams team_id (new_team team_id lead title now);
  sessions = put s.sessions lead (lead_session team_id lead now);
}

pub create_cases :
    (team_id lead title : String) (now : ℕ) (s : TeamTables)
    → ((create_team_with_lead_once team_id lead title now s).1 ≡ s)
      ⊎ ((get s.sessions lead ≡ none)
          × (create_team_with_lead_once team_id lead title now s
              ≡ (ok (new_team team_id lead title now), with_team team_id lead title now s)))
unfolding create_team_with_lead_once
create_cases team_id lead title now s =
    elim (Bool-cases (not (bounded_id team_id && bounded_id lead && leb (text_length title) 256))) [
      | inl long ↦ inl (rw long refl)
      | inr short ↦ elim (Option-cases (get s.teams team_id)) [
        | inl absent ↦ elim (Option-cases (get s.sessions lead)) [
          | inr (x, known) ↦ inl (rw (short, absent, known) refl)
          | inl fresh ↦ inr (fresh, rw (short, absent, fresh) refl)
        ]
        | inr (team, found) ↦
            elim (Bool-cases (team.lead_session_id != lead || team.title != title)) [
              | inl differs ↦ inl (rw (short, found, differs) refl)
              | inr same ↦ elim (Bool-cases (is_lead_of team_id (get s.sessions lead))) [
                | inl leads ↦ inl (rw (short, found, same, leads) refl)
                | inr outsider ↦ inl (rw (short, found, same, outsider) refl)
              ]
            ]
      ]
    ]

pub create-IsGrown :
    (team_id lead title : String) (now : ℕ) (s : TeamTables)
    → IsGrown s (create_team_with_lead_once team_id lead title now s).1
create-IsGrown team_id lead title now s = elim (create_cases team_id lead title now s) [
  | inl same ↦ unchanged same
  | inr (fresh, done) ↦ rw done (record {
    sessions_stay =
        λ k x e. get-put_fresh s.sessions lead k (lead_session team_id lead now) x fresh e;
    new_teams_led = λ k x e.
        elim (get-put_cases s.teams team_id k (new_team team_id lead title now) x e) [
          | inr old ↦ inl old
          | inl (here, new) ↦ inr (
              rw
                (
                  ← here,
                  ← new,
                  get-put_self s.sessions lead (lead_session team_id lead now),
                  ==_refl team_id,
                )
                refl)
        ];
  })
]

worktree_cases :
    (team_id : String) (config : WorkerConfig) (path branch : Option String) (now : ℕ)
    (s : TeamTables)
    → ((e : Error) × (add_worktree team_id config path branch now s ≡ (err e, s)))
      ⊎ ((rows : Dict WorktreeAssignment) × (add_worktree team_id config path branch now s
            ≡ (ok tt, record s { worktrees = rows })))
worktree_cases team_id config none branch now s = inr (s.worktrees, refl)
worktree_cases team_id config (some path) branch now s =
    elim (Option-cases (get s.worktrees config.worker_id)) [
      | inr (row, there) ↦ inl (integrity_error, rw there refl)
      | inl fresh ↦ inr (
        put s.worktrees config.worker_id (record {
          worker_id = config.worker_id;
          team_id = team_id;
          worktree_path = path;
          branch_name = branch_or_default branch config.worker_id;
          created_at = now;
        }),
        rw fresh refl,
      )
    ]

-- The tables after a transaction that was refused or wrote one session.
IsOneSession : String → AgentSession → TeamTables → TeamTables → Type 0
IsOneSession k new s t =
    (t ≡ s)
    ⊎ ((get s.sessions k ≡ none)
        × (rows : Dict WorktreeAssignment) × (t
            ≡ record s { sessions = put s.sessions k new; worktrees = rows }))

single_transaction-IsOneSession :
    (team_id : String) (config : WorkerConfig) (path branch : Option String) (now : ℕ)
    (s : TeamTables)
    → IsOneSession config.worker_id
        (worker_session team_id config now)
        s
        (keep_if_ok s (single_transaction team_id config path branch now s)).1
unfolding IsOneSession single_transaction
single_transaction-IsOneSession team_id config path branch now s =
    elim (Option-cases (get s.teams team_id)) [
      | inl absent ↦ inl (rw absent refl)
      | inr (team, found) ↦ elim (Bool-cases (team.lead_session_id == config.worker_id)) [
        | inl leads ↦ inl (rw (found, leads) refl)
        | inr other_lead ↦ elim (Option-cases (get s.sessions config.worker_id)) [
          | inr (x, known) ↦ inl (rw (found, other_lead, known) refl)
          | inl fresh ↦
              elim (worktree_cases team_id config path branch now (record s {
                sessions = put s.sessions config.worker_id (worker_session team_id config now);
              })) [
                | inl (e, bad) ↦ inl (rw (found, other_lead, fresh, bad) refl)
                | inr (rows, done) ↦ inr (fresh, rows, rw (found, other_lead, fresh, done) refl)
              ]
        ]
      ]
    ]

register_single_worker_once-IsOneSession :
    (lower : String → String) (team_id : String) (config : WorkerConfig)
    (path branch : Option String) (now : ℕ) (s : TeamTables)
    → IsOneSession config.worker_id
        (worker_session team_id config now)
        s
        (register_single_worker_once lower team_id config path branch now s).1
unfolding IsOneSession register_single_worker_once
register_single_worker_once-IsOneSession lower team_id config path branch now s =
    elim (Bool-cases (
      strips_to_nothing team_id
      || not (bounded_id config.worker_id)
      || config.team_id != team_id
      || strips_to_nothing config.role
      || lower config.role == "lead")) [
        | inl bad ↦ inl (rw bad refl)
        | inr fine ↦ elim (Bool-cases (adopts_process config)) [
          | inl adopts ↦ inl (rw (fine, adopts) refl)
          | inr own ↦ elim (Bool-cases (is_unbounded path 4096)) [
            | inl long ↦ inl (rw (fine, own, long) refl)
            | inr short ↦ elim (Bool-cases (is_unbounded branch 256)) [
              | inl wild ↦ inl (rw (fine, own, short, wild) refl)
              | inr tame ↦
                  rw (fine, own, short, tame)
                    (single_transaction-IsOneSession team_id config path branch now s)
            ]
          ]
        ]
      ]

pub single-IsGrown :
    (lower : String → String) (team_id : String) (config : WorkerConfig)
    (path branch : Option String) (now : ℕ) (s : TeamTables)
    → IsGrown s (register_single_worker_once lower team_id config path branch now s).1
unfolding IsOneSession
single-IsGrown lower team_id config path branch now s =
    elim (register_single_worker_once-IsOneSession lower team_id config path branch now s) [
      | inl same ↦ unchanged same
      | inr (fresh, rows, done) ↦ sessions-IsGrown (ap (λ t. t.teams) done) (λ k x e. rw done (
          get-put_fresh s.sessions config.worker_id k (worker_session team_id config now) x fresh
            e))
    ]

pub batch-IsGrown :
    (team_id lead : String) (configs : List WorkerConfig) (max_workers now : ℕ) (s : TeamTables)
    → IsGrown s (register_worker_batch_once team_id lead configs max_workers now s).1
batch-IsGrown team_id lead configs max_workers now s =
    elim (register_cases team_id lead configs max_workers now s) [
      | inl (e, refused) ↦ unchanged (ap (λ r. r.1) refused)
      | inr (new, room, done) ↦
          sessions-IsGrown (ap (λ r. r.1.teams) done)
            (λ k x e. rw done (added_keeps team_id configs now s.sessions k x new e))
    ]
