-- ===== src/Domain/Dispatch/Ledger.antt =====
-- The tracker under calls in any order: every attempt that was started is accounted for.
use subagent_bridge.Prelude.{
  ℕ, suc, ◌+◌, String, ◌≡◌, ◌⊎◌, inl, inr, refl, Bool, true, false, Option, none, some, List, [],
  ◌∷◌, ◌++◌, arith, ==→eq, Option-cases, Bool-cases, ◌==◌, ◌∙◌, if◌then◌else◌, length,
  length-append,
}
use subagent_bridge.Prelude.Exec.{Error, ok, err, permission_error, key_error}
use subagent_bridge.Prelude.Dict.{get, put, get-put, get-put_self, total, measure, total-put}
use subagent_bridge.Domain.Dispatch.{
  superseded, DispatchAttempt, Tracker, new_tracker, is_active, next_number, Start, attempt_of,
  supersede, start_dispatch, ended, complete_dispatch,
}

pub data Call : Type 0 where
  start : Start → Call
  complete : String → String → Bool → Call

unfoldable pub after : Call → Tracker → Tracker
after (start a) s = (start_dispatch a s).1
after (complete task id success) s = (complete_dispatch task id success s).1

-- The calls, the last one first.
unfoldable pub run : List Call → Tracker
unfolding after
run [] = new_tracker
run (c ∷ cs) = after c (run cs)

-- How many attempts were started, for any task and for one.
abbrev pub starts : List Call → ℕ
starts [] = 0
starts (start a ∷ cs) = suc (starts cs)
starts (complete task id success ∷ cs) = starts cs

abbrev pub starts_of : String → List Call → ℕ
starts_of task [] = 0
starts_of task (start a ∷ cs) =
    let rest = starts_of task cs in if a.task_id == task then suc rest else rest
starts_of task (complete t id success ∷ cs) = starts_of task cs

abbrev pub running : DispatchAttempt → ℕ
running a = if is_active a.status then 1 else 0

complete_cases :
    (task id : String) (success : Bool) (s : Tracker)
    → ((e : Error) × (complete_dispatch task id success s ≡ (err e, s)))
      ⊎ ((a : DispatchAttempt) × (get s.active_attempts task ≡ some a)
          × (a.dispatch_id ≡ id)
          × (is_active a.status ≡ true)
          × (complete_dispatch task id success s ≡ (
            ok (ended success a),
            record {
              active_attempts = put s.active_attempts task (ended success a);
              history = s.history ++ ended success a ∷ [];
            },
          )))
unfolding complete_dispatch
complete_cases task id success s = elim (Option-cases (get s.active_attempts task)) [
  | inl absent ↦ inl (key_error, rw absent)
  | inr (a, found) ↦ elim (Bool-cases (a.dispatch_id == id)) [
    | inr other ↦ inl (permission_error, rw (found, other))
    | inl same ↦ elim (Bool-cases (is_active a.status)) [
      | inr over ↦ inl (permission_error, rw (found, same, over))
      | inl live ↦ inr (a, found, ==→eq _ _ same, live, rw (found, same, live))
    ]
  ]
]

complete_of_ended :
    (task id : String) (success : Bool) (s : Tracker) (a : DispatchAttempt)
    → get s.active_attempts task ≡ some a
    → is_active a.status ≡ false
    → complete_dispatch task id success s ≡ (err permission_error, s)
unfolding complete_dispatch
complete_of_ended task id success s a found over = elim (Bool-cases (a.dispatch_id == id)) [
  | inr other ↦ rw (found, other)
  | inl same ↦ rw (found, same, over)
]

ended-is_active :
    (success : Bool) (a : DispatchAttempt) → is_active (ended success a).status ≡ false
ended-is_active true a = refl
ended-is_active false a = refl

-- A dispatch ends at most once: after a completion that returned, any further completion for that
-- task raises PermissionError and changes nothing, until a new dispatch of the task starts.
pub completes_once :
    (task id id' : String) (success again : Bool) (s : Tracker) (a : DispatchAttempt)
    → (complete_dispatch task id success s).0 ≡ ok a
    → complete_dispatch task id' again (complete_dispatch task id success s).1
      ≡ (err permission_error, (complete_dispatch task id success s).1)
completes_once task id id' success again s a done = elim (complete_cases task id success s) [
  | inl (e, refused) ↦ absurd (ground (arith, refused))
  | inr (b, found, same, live, how) ↦ rw how (
      complete_of_ended task id' again _ (ended success b)
        (get-put_self s.active_attempts task (ended success b)) (ended-is_active success b))
]

abbrev pub in_progress : Tracker → ℕ
in_progress s = total running s.active_attempts

-- What a start supersedes goes to the history.
length-supersede :
    (prior : Option DispatchAttempt) (history : List DispatchAttempt)
    → length (supersede prior history) ≡ length history + measure running prior
length-supersede none history = omega arith
length-supersede (some prior) history =
    ground (arith, length-append history (record prior { status = superseded } ∷ []))

after_start :
    (a : Start) (s : Tracker)
    → length (start_dispatch a s).1.history + in_progress (start_dispatch a s).1
      ≡ suc (length s.history + in_progress s)
unfolding start_dispatch
after_start a s =
    let new = attempt_of a (next_number (get s.active_attempts a.task_id)) in
    omega (
      arith,
      length-supersede (get s.active_attempts a.task_id) s.history,
      total-put running s.active_attempts a.task_id new,
    )

running-ended : (success : Bool) (a : DispatchAttempt) → running (ended success a) ≡ 0
running-ended true a = refl
running-ended false a = refl

after_complete :
    (task id : String) (success : Bool) (s : Tracker)
    → length (complete_dispatch task id success s).1.history
        + in_progress (complete_dispatch task id success s).1
      ≡ length s.history + in_progress s
after_complete task id success s = elim (complete_cases task id success s) [
  | inl (e, refused) ↦ rw refused
  | inr (a, found, same, live, how) ↦
      let sum = total-put running s.active_attempts task (ended success a) in
      let old : measure running (get s.active_attempts task) ≡ 1 = rw (found, live) in
      rw how (
        omega (
          arith,
          sum,
          old,
          running-ended success a,
          length-append s.history (ended success a ∷ []),
        ))
]

-- After any calls, every attempt that was started is either in progress or in the history: the
-- history's entries and the attempts in progress are as many as the starts.
pub every_start_is_accounted :
    (cs : List Call) → length (run cs).history + in_progress (run cs) ≡ starts cs
unfolding run total
every_start_is_accounted [] = refl
every_start_is_accounted (start a ∷ cs) =
    omega (arith, after_start a (run cs), every_start_is_accounted cs)
every_start_is_accounted (complete task id success ∷ cs) =
    after_complete task id success (run cs) ∙ every_start_is_accounted cs

-- The number of the task's latest attempt, or 0.
abbrev pub latest_number : String → Tracker → ℕ
latest_number task s = measure (λ a. a.attempt_number) (get s.active_attempts task)

number-next :
    (prior : Option DispatchAttempt)
    → next_number prior ≡ suc (measure (λ a. a.attempt_number) prior)
number-next none = refl
number-next (some prior) = omega arith

number-start :
    (a : Start) (s : Tracker) (task : String)
    → latest_number task (start_dispatch a s).1
      ≡ (if a.task_id == task then suc (latest_number task s) else latest_number task s)
unfolding start_dispatch
number-start a s task = elim (Bool-cases (a.task_id == task)) [
  | inl here ↦
      rw (get-put, here) (rw (==→eq a.task_id task here) (number-next (get s.active_attempts task)))
  | inr there ↦ rw (get-put, there)
]

number_complete :
    (t id : String) (success : Bool) (s : Tracker) (task : String)
    → latest_number task (complete_dispatch t id success s).1 ≡ latest_number task s
number_complete t id success s task = elim (complete_cases t id success s) [
  | inl (e, refused) ↦ rw refused
  | inr (a, found, same, live, how) ↦ rw how (elim (Bool-cases (t == task)) [
    | inl here ↦ rw (get-put, here) (rw (← ==→eq t task here, found))
    | inr there ↦ rw (get-put, there)
  ])
]

-- The attempts of a task are numbered 1, 2, 3, … in the order of their starts.
pub attempts_are_numbered :
    (task : String) (cs : List Call) → latest_number task (run cs) ≡ starts_of task cs
unfolding run get
attempts_are_numbered task [] = refl
attempts_are_numbered task (start a ∷ cs) =
    ground (arith, number-start a (run cs) task, attempts_are_numbered task cs)
attempts_are_numbered task (complete t id success ∷ cs) =
    number_complete t id success (run cs) task ∙ attempts_are_numbered task cs
