-- ===== src/Storage/Team/Next.antt =====
-- The task that a worker is given next, and the checkpoint that it resumes from.
use subagent_bridge.Prelude.{
  ◌≤◌, ◌<◌, String, Bool, true, false, ◌≡◌, ◌⊎◌, inl, inr, refl, ap, some, keep_if, arith, ◌==◌,
  ==_refl, ==→eq, Bool-cases,
}
use subagent_bridge.Prelude.Int.{ℤ, pos, negsuc, lt_int}
use subagent_bridge.Prelude.Dict.{Dict, get}
use subagent_bridge.Prelude.Order.{
  first_by, IsKeyOrder, some_or_nil, first_by-All, first_by-Any, first_by-holds,
}
use subagent_bridge.Team.Contracts.{
  QueueItem, QueueTaskStatus, WorkerCheckpoint, pending, dispatched, running, interrupted,
  completed, cancelled, failed, ambiguous, is_pending,
}
use subagent_bridge.Storage.Team.{TeamTables, values_of, later_checkpoint, load_latest_checkpoint}
use subagent_bridge.Storage.Team.Rows.{all-keep_if, keep_if-All, keep_if-none, IsRow, keep_if-IsRow}
use subagent_bridge.Storage.Team.Queue.{more_urgent, is_pending_for, fetch_next_pending_task}

lt_int_irrefl : (a : ℤ) → lt_int a a ≡ false
lt_int_irrefl (pos a) = ground arith
lt_int_irrefl (negsuc a) = ground arith

lt_int_asym : (a b : ℤ) → lt_int a b ≡ true → lt_int b a ≡ false
lt_int_asym (pos a) (pos b) h = ground arith
lt_int_asym (pos a) (negsuc b) h = absurd (ground arith)
lt_int_asym (negsuc a) (pos b) h = refl
lt_int_asym (negsuc a) (negsuc b) h = ground arith

lt_int_later : (a b c : ℤ) → lt_int a b ≡ false → lt_int b c ≡ false → lt_int a c ≡ false
lt_int_later (pos a) (pos b) (pos c) h g = ground arith
lt_int_later (pos a) (pos b) (negsuc c) h g = refl
lt_int_later (pos a) (negsuc b) (pos c) h g = absurd (ground arith)
lt_int_later (pos a) (negsuc b) (negsuc c) h g = refl
lt_int_later (negsuc a) (pos b) c h g = absurd (ground arith)
lt_int_later (negsuc a) (negsuc b) (pos c) h g = absurd (ground arith)
lt_int_later (negsuc a) (negsuc b) (negsuc c) h g = ground arith

more_urgent-IsKeyOrder : IsKeyOrder more_urgent
more_urgent-IsKeyOrder = record {
  strict = λ x. ground (arith, lt_int_irrefl x.priority);
  later = λ x y z h g. ground (
    arith,
    lt_int_later x.priority y.priority z.priority,
    lt_int_later y.priority z.priority x.priority,
    lt_int_later z.priority x.priority y.priority,
    lt_int_later z.priority y.priority x.priority,
    lt_int_later y.priority x.priority z.priority,
    lt_int_later x.priority z.priority y.priority,
    lt_int_asym x.priority y.priority,
    lt_int_asym y.priority z.priority,
    lt_int_asym x.priority z.priority,
  );
  asym =
      λ x y h. ground (arith, lt_int_asym x.priority y.priority, lt_int_asym y.priority x.priority);
}

later_checkpoint-IsKeyOrder : IsKeyOrder later_checkpoint
later_checkpoint-IsKeyOrder = record {
  strict = λ x. ground arith;
  later = λ x y z h g. ground arith;
  asym = λ x y h. ground arith;
}

first_of_table :
    {V : Type 0} (before : V → V → Bool) (p : V → Bool) (rows : Dict V) (k : String) (x : V)
    → IsKeyOrder before
    → get rows k ≡ some x
    → p x ≡ true
    → (b : V) × (first_by before (keep_if p (values_of rows)) ≡ some b)
      × IsRow b rows
      × (p b ≡ true)
      × (before x b ≡ false)
first_of_table before p rows k x o h m = elim (some_or_nil before (keep_if p (values_of rows))) [
  | inl empty ↦ absurd (ground (arith, keep_if-none p rows k x empty h, m))
  | inr (b, found) ↦ (
    b,
    found,
    first_by-holds (λ v. IsRow v rows) before (keep_if p (values_of rows)) b found
        (keep_if-IsRow p rows),
    first_by-Any before p (keep_if p (values_of rows)) b found (all-keep_if p (values_of rows)),
    keep_if-All (λ y. before y b ≡ false) p rows k x
        (first_by-All before (keep_if p (values_of rows)) b o found) h m,
  )
]

-- The order of the integers.
abbrev pub Less : ℤ → ℤ → Type 0
Less (pos a) (pos b) = a < b
Less (pos a) (negsuc b) = ⊥
Less (negsuc a) (pos b) = Unit
Less (negsuc a) (negsuc b) = b < a

lt_int→Less : (a b : ℤ) → lt_int a b ≡ true → Less a b
lt_int→Less (pos a) (pos b) h = ground arith
lt_int→Less (pos a) (negsuc b) h = absurd (ground arith)
lt_int→Less (negsuc a) (pos b) h = tt
lt_int→Less (negsuc a) (negsuc b) h = ground arith

lt_int_total : (a b : ℤ) → lt_int a b ≡ false → lt_int b a ≡ false → a ≡ b
lt_int_total (pos a) (pos b) h g = ap pos (ground arith)
lt_int_total (pos a) (negsuc b) h g = absurd (ground arith)
lt_int_total (negsuc a) (pos b) h g = absurd (ground arith)
lt_int_total (negsuc a) (negsuc b) h g = ap negsuc (ground arith)

pending_only : (status : QueueTaskStatus) → is_pending status ≡ true → status ≡ pending
pending_only pending h = refl
pending_only dispatched h = absurd (ground arith)
pending_only running h = absurd (ground arith)
pending_only interrupted h = absurd (ground arith)
pending_only completed h = absurd (ground arith)
pending_only cancelled h = absurd (ground arith)
pending_only failed h = absurd (ground arith)
pending_only ambiguous h = absurd (ground arith)

-- An item that waits for this worker of this team.
pub record IsWaiting (team_id worker_id : String) (x : QueueItem) : Type 0 where
  pub of_team : x.team_id ≡ team_id
  pub for_worker : x.to_session_id ≡ worker_id
  pub is_open : x.status ≡ pending

-- The second item is due no later than the first: it has a higher priority, or the same one and is
-- not younger.
abbrev pub IsDueBy : QueueItem → QueueItem → Type 0
IsDueBy x b =
    Less x.priority b.priority ⊎ ((x.priority ≡ b.priority) × (b.created_at ≤ x.created_at))

due_by : (x b : QueueItem) → more_urgent x b ≡ false → IsDueBy x b
due_by x b h = elim (Bool-cases (lt_int x.priority b.priority)) [
  | inl less ↦ inl (lt_int→Less x.priority b.priority less)
  | inr not_less ↦
      inr (
        lt_int_total x.priority b.priority not_less (ground (arith, h)),
        ground (arith, h, not_less),
      )
]

waiting→pending :
    (team_id worker_id : String) (x : QueueItem)
    → IsWaiting team_id worker_id x
    → is_pending_for team_id worker_id x ≡ true
waiting→pending team_id worker_id x h =
    rw (h.of_team, h.for_worker, h.is_open, ==_refl team_id, ==_refl worker_id) refl

pending→IsWaiting :
    (team_id worker_id : String) (x : QueueItem)
    → is_pending_for team_id worker_id x ≡ true
    → IsWaiting team_id worker_id x
pending→IsWaiting team_id worker_id x h = record {
  of_team = ==→eq x.team_id team_id (ground (arith, h));
  for_worker = ==→eq x.to_session_id worker_id (ground (arith, h));
  is_open = pending_only x.status (ground (arith, h));
}

-- What a worker is given, seen from an item that waits for it.
abbrev pub IsGiven : String → String → TeamTables → QueueItem → Type 0
IsGiven team_id worker_id s x =
    (b : QueueItem) × (fetch_next_pending_task team_id worker_id s ≡ some b)
    × IsRow b s.queue
    × IsWaiting team_id worker_id b
    × IsDueBy x b

-- While an item of the team is pending for a worker, the worker is given an item: a row of the
-- queue that is pending for it in this team, of no lower priority than that item, and no younger if
-- the priorities are the same.
pub fetched-IsGiven :
    (s : TeamTables) (team_id worker_id id : String) (x : QueueItem)
    → get s.queue id ≡ some x
    → IsWaiting team_id worker_id x
    → IsGiven team_id worker_id s x
unfolding fetch_next_pending_task
fetched-IsGiven s team_id worker_id id x h m =
    let (b, found, row, pending_one, urgent) =
      first_of_table more_urgent (is_pending_for team_id worker_id) s.queue id x
        more_urgent-IsKeyOrder h (waiting→pending team_id worker_id x m) in
    (b, found, row, pending→IsWaiting team_id worker_id b pending_one, due_by x b urgent)

-- The second checkpoint is as late as the first.
abbrev pub IsAsLate : WorkerCheckpoint → WorkerCheckpoint → Type 0
IsAsLate x b =
    (x.step_index < b.step_index) ⊎ ((x.step_index ≡ b.step_index) × (x.created_at ≤ b.created_at))

as_late : (x b : WorkerCheckpoint) → later_checkpoint x b ≡ false → IsAsLate x b
as_late x b h = ground arith

-- What a worker resumes from, seen from a checkpoint of it.
abbrev pub IsResumed : String → TeamTables → WorkerCheckpoint → Type 0
IsResumed worker_id s x =
    (b : WorkerCheckpoint) × (load_latest_checkpoint worker_id s ≡ some b)
    × IsRow b s.checkpoints
    × (b.worker_id ≡ worker_id)
    × IsAsLate x b

-- A worker that has saved a checkpoint resumes from a row of the table that is its own and as late
-- as that checkpoint: of a higher step, or of the same step and not older.
pub latest-IsResumed :
    (s : TeamTables) (worker_id id : String) (x : WorkerCheckpoint)
    → get s.checkpoints id ≡ some x
    → x.worker_id ≡ worker_id
    → IsResumed worker_id s x
unfolding load_latest_checkpoint
latest-IsResumed s worker_id id x h m =
    let (b, found, row, own, late) =
      first_of_table later_checkpoint (λ c. c.worker_id == worker_id) s.checkpoints id x
        later_checkpoint-IsKeyOrder h (rw m (==_refl worker_id)) in
    (b, found, row, ==→eq b.worker_id worker_id own, as_late x b late)
