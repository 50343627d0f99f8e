-- ===== src/Storage/Team/Leads.antt =====
-- Teams and their leads under registrations in any order.
use subagent_bridge.Prelude.{
  ℕ, String, true, ◌≡◌, inl, inr, sym, ap, ◌∙◌, Option, some, List, [], ◌∷◌, arith, Option-cases,
}
use subagent_bridge.Prelude.Dict.{get}
use subagent_bridge.Team.Contracts.{WorkerConfig, AgentTeam}
use subagent_bridge.Storage.Team.{TeamTables}
use subagent_bridge.Storage.Team.Register.{
  is_lead_of, create_team_with_lead_once, register_single_worker_once, register_worker_batch_once,
}
use subagent_bridge.Storage.Team.Grown.{IsGrown, create-IsGrown, single-IsGrown, batch-IsGrown}

pub data Registration : Type 0 where
  create_call : String → String → String → ℕ → Registration
  single_call : String → WorkerConfig → Option String → Option String → ℕ → Registration
  batch_call : String → String → List WorkerConfig → ℕ → ℕ → Registration

-- Every team has its lead among the sessions, as a lead of this team.
abbrev pub IsLed : TeamTables → Type 0
IsLed s =
    (team_id : String) (team : AgentTeam)
    → get s.teams team_id ≡ some team
    → is_lead_of team_id (get s.sessions team.lead_session_id) ≡ true

lead_stays :
    (s t : TeamTables) (team_id lead : String)
    → IsGrown s t
    → is_lead_of team_id (get s.sessions lead) ≡ true
    → is_lead_of team_id (get t.sessions lead) ≡ true
lead_stays s t team_id lead g h = elim (Option-cases (get s.sessions lead)) [
  | inl absent ↦ absurd (ground (arith, h, absent))
  | inr (x, found) ↦
      rw (g.sessions_stay lead x found) (sym (ap (λ o. is_lead_of team_id o) found) ∙ h)
]

grown-IsLed : (s t : TeamTables) → IsGrown s t → IsLed s → IsLed t
grown-IsLed s t g h team_id team e = elim (g.new_teams_led team_id team e) [
  | inl old ↦ lead_stays s t team_id team.lead_session_id g (h team_id team old)
  | inr led ↦ led
]

module _ (lower : String → String) where
  unfoldable pub register_call : Registration → TeamTables → TeamTables
  register_call (create_call team_id lead title now) s =
      (create_team_with_lead_once team_id lead title now s).1
  register_call (single_call team_id config path branch now) s =
      (register_single_worker_once lower team_id config path branch now s).1
  register_call (batch_call team_id lead configs max_workers now) s =
      (register_worker_batch_once team_id lead configs max_workers now s).1

  -- The calls, the last one first.
  unfoldable pub register_all : TeamTables → List Registration → TeamTables
  register_all s [] = s
  register_all s (c ∷ cs) = register_call c (register_all s cs)

  register_call-IsGrown : (c : Registration) (s : TeamTables) → IsGrown s (register_call c s)
  unfolding register_call
  register_call-IsGrown (create_call team_id lead title now) s =
      create-IsGrown team_id lead title now s
  register_call-IsGrown (single_call team_id config path branch now) s =
      single-IsGrown lower team_id config path branch now s
  register_call-IsGrown (batch_call team_id lead configs max_workers now) s =
      batch-IsGrown team_id lead configs max_workers now s

  -- If every team has its lead among the sessions, as a lead of that team, then every team has
  -- after any registrations of teams, workers and batches.
  pub register_all-IsLed :
      (s : TeamTables) (cs : List Registration) → IsLed s → IsLed (register_all s cs)
  unfolding register_all
  register_all-IsLed s [] h = h
  register_all-IsLed s (c ∷ cs) h =
      grown-IsLed (register_all s cs) (register_call c (register_all s cs))
        (register_call-IsGrown c (register_all s cs)) (register_all-IsLed s cs h)
