-- ===== src/Storage/Team/Calls.antt =====
-- The queue under the store's transactions in any order: what is over stays as it is, and an item
-- holds its deduplication key alone.
use subagent_bridge.Prelude.{
  ℕ, String, true, false, not, ◌&&◌, ◌≡◌, inl, inr, refl, sym, ap, ◌∙◌, Option, none, some, List,
  [], ◌∷◌, keep_if, arith, ◌==◌, ==→eq, and_left, and_right, Bool-cases, Option-cases,
}
use subagent_bridge.Prelude.Int.{ℤ}
use subagent_bridge.Prelude.Text.{is_blank}
use subagent_bridge.Prelude.Dict.{get, get-put, get-put_cases, get-put_fresh}
use subagent_bridge.Prelude.Order.{some_or_nil}
use subagent_bridge.Storage.Json.{Json, Codec}
use subagent_bridge.Team.Contracts.{
  QueueItem, QueueTaskStatus, HandoffEvidence, is_final, is_retryable,
}
use subagent_bridge.Storage.Team.{TeamTables, values_of}
use subagent_bridge.Storage.Team.Rows.{keep_if-none}
use subagent_bridge.Storage.Team.Queue.{
  has_key, holds_key, newer_item, find_queue_item_by_dedup, find_duplicate, insert_queue_item_once,
  steer_queue_item_once, cancel_active_queue_item, mark_task_resuming,
}
use subagent_bridge.Storage.Team.Handoff.{finalize_handoff_transaction}
use subagent_bridge.Storage.Team.Steps.{
  IsUpdate, QueueStep, kept, inserted, updated, IsRetained, insert-IsStep, steer-IsStep,
  cancel-IsStep, resume-IsStep, finalize-IsStep,
}

pub data Call : Type 0 where
  insert_call : QueueItem → Call
  steer_call : String → String → Option Json → Option ℤ → ℕ → Call
  cancel_call : String → String → String → ℕ → Call
  resume_call : String → ℕ → Call
  finalize_call : String → HandoffEvidence → Option QueueTaskStatus → ℕ → Call

-- A resumption or a handoff of an item that has neither failed nor been cancelled; any other call.
abbrev pub IsOrderly : Call → TeamTables → Type 0
IsOrderly (resume_call id now) s = IsRetained id s
IsOrderly (finalize_call team evidence status now) s = IsRetained evidence.dispatch_id s
IsOrderly _ s = Unit

module _ (codec : Codec) where
  unfoldable pub after : Call → TeamTables → TeamTables
  after (insert_call item) s = (insert_queue_item_once item s).1
  after (steer_call lead id guidance priority now) s =
      (steer_queue_item_once codec lead id guidance priority now s).1
  after (cancel_call id lead reason now) s = (cancel_active_queue_item id lead reason now s).1
  after (resume_call id now) s = (mark_task_resuming id now s).1
  after (finalize_call team evidence status now) s =
      (finalize_handoff_transaction team evidence status now s).1

  -- The calls, the last one first, from the tables that the file holds.
  unfoldable pub run : TeamTables → List Call → TeamTables
  run s [] = s
  run s (c ∷ cs) = after c (run s cs)

  abbrev pub AreOrderly : TeamTables → List Call → Type 0
  AreOrderly s [] = Unit
  AreOrderly s (c ∷ cs) = IsOrderly c (run s cs) × AreOrderly s cs

  after-IsStep : (c : Call) (s : TeamTables) → QueueStep (IsOrderly c s) s (after c s)
  unfolding after
  after-IsStep (insert_call item) s = insert-IsStep item s
  after-IsStep (steer_call lead id guidance priority now) s =
      steer-IsStep codec lead id guidance priority now s
  after-IsStep (cancel_call id lead reason now) s = cancel-IsStep id lead reason now s
  after-IsStep (resume_call id now) s = resume-IsStep id now s
  after-IsStep (finalize_call team evidence status now) s =
      finalize-IsStep team evidence status now s

step_keeps :
    {O : Type 0} {s t : TeamTables} (id : String) (x : QueueItem)
    → QueueStep O s t
    → get s.queue id ≡ some x
    → is_final x.status ≡ true
    → get t.queue id ≡ some x
step_keeps id x (kept same) h over = rw same h
step_keeps {s = s} id x (inserted new fresh free e) h over =
    rw e (get-put_fresh s.queue new.dispatch_id id new x free h)
step_keeps {s = s} id x (updated k old new found u e) h over = elim (Bool-cases (k == id)) [
  | inl here ↦
      let at_id = sym (ap (λ j. get s.queue j) (==→eq k id here)) ∙ found in
      absurd (ground (arith, u.open_before, over, sym h ∙ at_id))
  | inr apart ↦ rw (e, get-put, apart) h
]

module _ (codec : Codec) where
  -- A completed or cancelled item is as it was after any inserts, steerings, cancellations,
  -- resumptions and handoffs: it is not run again, steered, cancelled or handed over again.
  pub final_items_stay :
      (s : TeamTables) (cs : List Call) (id : String) (x : QueueItem)
      → get s.queue id ≡ some x
      → is_final x.status ≡ true
      → get (run codec s cs).queue id ≡ some x
  unfolding run
  final_items_stay s [] id x h over = h
  final_items_stay s (c ∷ cs) id x h over =
      step_keeps id x (after-IsStep codec c (run codec s cs)) (final_items_stay s cs id x h over)
        over

-- No two items hold the same key of the same team.
abbrev pub IsDeduplicated : TeamTables → Type 0
IsDeduplicated s =
    (team key j k : String) (x y : QueueItem)
    → is_blank key ≡ false
    → get s.queue j ≡ some x
    → get s.queue k ≡ some y
    → holds_key team key x ≡ true
    → holds_key team key y ≡ true
    → j ≡ k

none_held :
    (s : TeamTables) (team key k : String) (y : QueueItem)
    → find_queue_item_by_dedup team key s ≡ none
    → get s.queue k ≡ some y
    → holds_key team key y ≡ false
unfolding find_queue_item_by_dedup
none_held s team key k y h e =
    elim (some_or_nil newer_item (keep_if (holds_key team key) (values_of s.queue))) [
      | inl empty ↦ keep_if-none (holds_key team key) s.queue k y empty e
      | inr (b, found) ↦ absurd (ground (arith, sym found ∙ h))
    ]

-- An item that may be inserted is the first to hold its key.
first_holder :
    (s : TeamTables) (new : QueueItem) (team key k : String) (y : QueueItem)
    → find_duplicate new s ≡ none
    → is_blank key ≡ false
    → holds_key team key new ≡ true
    → get s.queue k ≡ some y
    → holds_key team key y ≡ false
first_holder s new team key k y fresh named holds e = elim (Option-cases new.dedup_key) [
  | inl keyless ↦ absurd (ground (arith, keyless, holds))
  | inr (d, keyed) ↦
      let same_team : new.team_id ≡ team = ==→eq new.team_id team (ground arith) in
      let same_key : d ≡ key = ==→eq d key (key_of d keyed) in
      let searched : find_duplicate new s ≡ find_queue_item_by_dedup team key s =
        rw (keyed, same_key, named, same_team) refl in
      none_held s team key k y (sym searched ∙ fresh) e
]
  where
    key_of : (d : String) → new.dedup_key ≡ some d → (d == key) ≡ true
    key_of d keyed = and_right (new.team_id == team) (d == key) (
        and_left (new.team_id == team && d == key) (not (is_retryable new.status)) (
          sym
            (ap (λ o. new.team_id == team && has_key key o && not (is_retryable new.status)) keyed)
          ∙ holds))

-- What an orderly update writes held its key before.
held_before :
    {O : Type 0} (team key : String) (old new : QueueItem)
    → IsUpdate O old new
    → O
    → holds_key team key new ≡ true
    → holds_key team key old ≡ true
held_before team key old new u o h =
    let retry : is_retryable old.status ≡ true → is_retryable new.status ≡ true = u.stays_over o in
    let moved : (old.team_id == team && has_key key old.dedup_key && not (is_retryable new.status))
        ≡ true =
      rw (← u.same_team, ← u.same_key) h in
    elim (Bool-cases (is_retryable old.status)) [
      | inl over ↦ absurd (ground (arith, retry over, h))
      | inr live ↦ ground (arith, live, moved)
    ]

step_deduplicates :
    {O : Type 0} {s t : TeamTables} → QueueStep O s t → O → IsDeduplicated s → IsDeduplicated t
step_deduplicates {s = s} (kept same) o h team key j k x y named hx hy px py =
    h team key j k x y named (sym (ap (λ q. get q j) same) ∙ hx) (sym (ap (λ q. get q k) same) ∙ hy)
      px py
step_deduplicates {s = s} (inserted new fresh free e) o h team key j k x y named hx hy px py =
    let id = new.dispatch_id in
    elim (get-put_cases s.queue id j new x (sym (ap (λ q. get q j) e) ∙ hx)) [
      | inl (here, is_x) ↦
          elim (get-put_cases s.queue id k new y (sym (ap (λ q. get q k) e) ∙ hy)) [
            | inl (there, is_y) ↦ sym here ∙ there
            | inr old_y ↦
                absurd (
                  ground
                    (arith, py, first_holder s new team key k y fresh named (rw is_x px) old_y))
          ]
      | inr old_x ↦ elim (get-put_cases s.queue id k new y (sym (ap (λ q. get q k) e) ∙ hy)) [
        | inl (there, is_y) ↦
            absurd
              (ground (arith, px, first_holder s new team key j x fresh named (rw is_y py) old_x))
        | inr old_y ↦ h team key j k x y named old_x old_y px py
      ]
    ]
step_deduplicates {s = s} (updated id old new found u e) o h team key j k x y named hx hy px py =
    elim (get-put_cases s.queue id j new x (sym (ap (λ q. get q j) e) ∙ hx)) [
      | inl (here, is_x) ↦
          elim (get-put_cases s.queue id k new y (sym (ap (λ q. get q k) e) ∙ hy)) [
            | inl (there, is_y) ↦ sym here ∙ there
            | inr old_y ↦
                sym here
                ∙ h team key id k old y named found old_y
                    (held_before team key old new u o (rw is_x px)) py
          ]
      | inr old_x ↦ elim (get-put_cases s.queue id k new y (sym (ap (λ q. get q k) e) ∙ hy)) [
        | inl (there, is_y) ↦
            h team key j id x old named old_x found px
              (held_before team key old new u o (rw is_y py))
            ∙ there
        | inr old_y ↦ h team key j k x y named old_x old_y px py
      ]
    ]

module _ (codec : Codec) where
  -- If no two items hold the same key of a team, then none do after any inserts, steerings,
  -- cancellations, resumptions and handoffs, as long as no failed or cancelled item is resumed or
  -- handed over. An item holds its key unless it failed or was cancelled.
  pub queue-IsDeduplicated :
      (s : TeamTables) (cs : List Call)
      → AreOrderly codec s cs
      → IsDeduplicated s
      → IsDeduplicated (run codec s cs)
  unfolding run
  queue-IsDeduplicated s [] o h = h
  queue-IsDeduplicated s (c ∷ cs) o h =
      step_deduplicates (after-IsStep codec c (run codec s cs)) o.0
        (queue-IsDeduplicated s cs o.1 h)
