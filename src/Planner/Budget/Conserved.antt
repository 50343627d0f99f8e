-- ===== src/Planner/Budget/Conserved.antt =====
-- The budget under calls in any order: nothing is created, and no ceiling is passed.
use subagent_bridge.Prelude.{
  ℕ, ◌+◌, ◌-◌, ◌≤◌, ◌<◌, String, ◌≡◌, ◌⊎◌, inl, inr, refl, not, ◌||◌, none, some, List, [], ◌∷◌,
  ◌∙◌, arith, Option-cases, Bool-cases, length, ltb, leb,
}
use subagent_bridge.Prelude.Exec.{Error, Result, ok, err, value_error, key_error, budget_exceeded}
use subagent_bridge.Prelude.Int.{ℤ, nat_of}
use subagent_bridge.Prelude.Dict.{
  get, put, remove, total, measure, total-put, total-remove, length-total,
}
use subagent_bridge.Planner.Budget.{
  Reservation, BudgetLedger, new_ledger, reserve_args_ok, release_args_ok, reservation,
  reserve_locked, reserve, release_locked, release,
}

pub reserve_cases :
    (id : String) (tokens cost : ℕ) (s : BudgetLedger)
    → ((e : Error) × (reserve_locked id tokens cost s ≡ (err e, s)))
      ⊎ ((get s.reservations id ≡ none)
          × (length s.reservations < s.max_workers)
          × (tokens ≤ s.tokens)
          × (cost ≤ s.cost)
          × (reserve_locked id tokens cost s ≡ (
            ok (reservation id tokens cost),
            record s {
              tokens = s.tokens - tokens;
              cost = s.cost - cost;
              reservations = put s.reservations id (reservation id tokens cost);
            },
          )))
unfolding reserve_locked
reserve_cases id tokens cost s = elim (Option-cases (get s.reservations id)) [
  | inr (r, there) ↦ inl (budget_exceeded, rw there)
  | inl absent ↦
      elim (Bool-cases
        (leb s.max_workers (length s.reservations) || ltb s.tokens tokens || ltb s.cost cost)) [
          | inl full ↦ inl (budget_exceeded, rw (absent, full))
          | inr room ↦ inr (absent, ground arith, ground arith, ground arith, rw (absent, room))
        ]
]

pub release_cases :
    (id : String) (tokens cost : ℕ) (s : BudgetLedger)
    → ((e : Error) × (release_locked id tokens cost s ≡ (err e, s)))
      ⊎ ((r : Reservation) × (get s.reservations id ≡ some r)
          × (tokens ≤ r.token_allowance)
          × (cost ≤ r.cost_microunits)
          × (release_locked id tokens cost s ≡ (
            ok tt,
            record s {
              tokens = s.tokens + tokens;
              cost = s.cost + cost;
              reservations = remove s.reservations id;
            },
          )))
unfolding release_locked
release_cases id tokens cost s = elim (Option-cases (get s.reservations id)) [
  | inl absent ↦ inl (key_error, rw absent)
  | inr (r, there) ↦
      elim (Bool-cases (not (leb tokens r.token_allowance) || not (leb cost r.cost_microunits))) [
        | inl over ↦ inl (value_error, rw (there, over))
        | inr fits ↦ inr (r, there, ground arith, ground arith, rw (there, fits))
      ]
]

pub data Call : Type 0 where
  reserve_call : String → ℤ → ℤ → Call
  release_call : String → ℤ → ℤ → Call

unfoldable pub after : Call → BudgetLedger → BudgetLedger
after (reserve_call id tokens cost) s = (reserve id tokens cost s).1
after (release_call id tokens cost) s = (release id tokens cost s).1

-- The calls, the last one first.
unfoldable pub run : BudgetLedger → List Call → BudgetLedger
run s [] = s
run s (c ∷ cs) = after c (run s cs)

abbrev pub allowance : Reservation → ℕ
allowance r = r.token_allowance

abbrev pub cost_of : Reservation → ℕ
cost_of r = r.cost_microunits

abbrev pub if_returned : Result (Unit {0}) → ℕ → ℕ
if_returned (ok _) n = n
if_returned (err _) n = 0

-- What a call uses up: a release that returns gives back the unused part of its reservation, and
-- the rest is gone. Any other call uses nothing up.
abbrev pub used : (Reservation → ℕ) → (ℤ → ℤ → ℕ) → Call → BudgetLedger → ℕ
used f unused (reserve_call id tokens cost) s = 0
used f unused (release_call id tokens cost) s =
    if_returned (release id tokens cost s).0
      (measure f (get s.reservations id) - unused tokens cost)

abbrev pub used_tokens : Call → BudgetLedger → ℕ
used_tokens = used allowance (λ tokens cost. nat_of tokens)

abbrev pub used_cost : Call → BudgetLedger → ℕ
used_cost = used cost_of (λ tokens cost. nat_of cost)

abbrev pub used_up : (Call → BudgetLedger → ℕ) → BudgetLedger → List Call → ℕ
used_up u s [] = 0
used_up u s (c ∷ cs) = u c (run s cs) + used_up u s cs

-- The books of a ledger: free, reserved, and the reservations within the worker ceiling.
abbrev pub booked_tokens : BudgetLedger → ℕ
booked_tokens s = s.tokens + total allowance s.reservations

abbrev pub booked_cost : BudgetLedger → ℕ
booked_cost s = s.cost + total cost_of s.reservations

record Books (spent spent' : ℕ) (s s' : BudgetLedger) : Type 0 where
  tokens : booked_tokens s' + spent ≡ booked_tokens s
  cost : booked_cost s' + spent' ≡ booked_cost s
  ceiling : s'.max_workers ≡ s.max_workers
  workers : length s.reservations ≤ s.max_workers → length s'.reservations ≤ s'.max_workers

reserve-Books :
    (id : String) (tokens cost : ℤ) (s : BudgetLedger)
    → Books
        (used_tokens (reserve_call id tokens cost) s)
        (used_cost (reserve_call id tokens cost) s)
        s
        (reserve id tokens cost s).1
unfolding reserve
reserve-Books id tokens cost s = elim (Bool-cases (reserve_args_ok id tokens cost)) [
  | inr bad ↦
      rw bad (record { tokens = omega arith; cost = omega arith; ceiling = refl; workers = λ h. h })
  | inl good ↦ rw good (elim (reserve_cases id (nat_of tokens) (nat_of cost) s) [
    | inl (e, failed) ↦
        rw failed
          (record { tokens = omega arith; cost = omega arith; ceiling = refl; workers = λ h. h })
    | inr (new, room, enough, enough', done) ↦
        let r = reservation id (nat_of tokens) (nat_of cost) in
        let absent : (f : Reservation → ℕ) → measure f (get s.reservations id) ≡ 0 = λ f. rw new in
        rw done (record {
          tokens = omega (arith, total-put allowance s.reservations id r, absent allowance, enough);
          cost = omega (arith, total-put cost_of s.reservations id r, absent cost_of, enough');
          ceiling = refl;
          workers = λ h. omega (
            arith,
            total-put (λ r. 1) s.reservations id r,
            absent (λ r. 1),
            length-total s.reservations,
            length-total (put s.reservations id r),
            room,
          );
        })
  ])
]

release-Books :
    (id : String) (tokens cost : ℤ) (s : BudgetLedger)
    → Books
        (used_tokens (release_call id tokens cost) s)
        (used_cost (release_call id tokens cost) s)
        s
        (release id tokens cost s).1
unfolding release
release-Books id tokens cost s = elim (Bool-cases (release_args_ok tokens cost)) [
  | inr bad ↦
      rw bad (record { tokens = omega arith; cost = omega arith; ceiling = refl; workers = λ h. h })
  | inl good ↦ rw good (elim (release_cases id (nat_of tokens) (nat_of cost) s) [
    | inl (e, failed) ↦
        rw failed
          (record { tokens = omega arith; cost = omega arith; ceiling = refl; workers = λ h. h })
    | inr (r, there, fits, fits', done) ↦
        let found : (f : Reservation → ℕ) → measure f (get s.reservations id) ≡ f r =
          λ f. rw there in
        rw done (record {
          tokens = omega (arith, total-remove allowance s.reservations id, found allowance, fits);
          cost = omega (arith, total-remove cost_of s.reservations id, found cost_of, fits');
          ceiling = refl;
          workers = λ h. omega (
            arith,
            total-remove (λ r. 1) s.reservations id,
            length-total s.reservations,
            length-total (remove s.reservations id),
          );
        })
  ])
]

after-Books : (c : Call) (s : BudgetLedger) → Books (used_tokens c s) (used_cost c s) s (after c s)
unfolding after
after-Books (reserve_call id tokens cost) s = reserve-Books id tokens cost s
after-Books (release_call id tokens cost) s = release-Books id tokens cost s

-- After any calls, what is free, what is reserved and what the releases have used up make the
-- budget of the start, in tokens and in cost: no sequence of calls creates or loses budget.
pub budget_is_conserved :
    (s : BudgetLedger) (cs : List Call)
    → (booked_tokens (run s cs) + used_up used_tokens s cs ≡ booked_tokens s)
      × (booked_cost (run s cs) + used_up used_cost s cs ≡ booked_cost s)
unfolding run
budget_is_conserved s [] = (omega arith, omega arith)
budget_is_conserved s (c ∷ cs) =
    let (tokens, cost) = budget_is_conserved s cs in
    let books = after-Books c (run s cs) in
    (omega (arith, tokens, books.tokens), omega (arith, cost, books.cost))

max_workers-run : (s : BudgetLedger) (cs : List Call) → (run s cs).max_workers ≡ s.max_workers
unfolding run
max_workers-run s [] = refl
max_workers-run s (c ∷ cs) = (after-Books c (run s cs)).ceiling ∙ max_workers-run s cs

workers-run :
    (s : BudgetLedger) (cs : List Call)
    → length s.reservations ≤ s.max_workers
    → length (run s cs).reservations ≤ (run s cs).max_workers
unfolding run
workers-run s [] h = h
workers-run s (c ∷ cs) h = (after-Books c (run s cs)).workers (workers-run s cs h)

new_ledger_fields :
    (tokens cost workers : ℤ) (s : BudgetLedger)
    → new_ledger tokens cost workers ≡ ok s
    → (s.tokens ≡ nat_of tokens)
      × (s.cost ≡ nat_of cost)
      × (s.max_workers ≡ nat_of workers)
      × (s.reservations ≡ [])
unfolding new_ledger
new_ledger_fields tokens cost workers s made = ground arith

total-nil : (f : Reservation → ℕ) → total f [] ≡ 0
unfolding total
total-nil f = refl

-- From a ledger that its constructor made, no sequence of calls holds more reservations at once
-- than the worker ceiling, nor more tokens or cost than the ceilings given to the constructor.
pub ceilings_hold :
    (tokens cost workers : ℤ) (s : BudgetLedger) (cs : List Call)
    → new_ledger tokens cost workers ≡ ok s
    → (length (run s cs).reservations ≤ nat_of workers)
      × (total allowance (run s cs).reservations ≤ nat_of tokens)
      × (total cost_of (run s cs).reservations ≤ nat_of cost)
ceilings_hold tokens cost workers s cs made =
    let (free, free', ceiling, empty) = new_ledger_fields tokens cost workers s made in
    let (booked, booked') = budget_is_conserved s cs in
    let none_yet : (f : Reservation → ℕ) → total f s.reservations ≡ 0 =
      λ f. rw empty (total-nil f) in
    let idle : length s.reservations ≡ 0 = rw empty in
    (
      omega (arith, workers-run s cs (omega (arith, idle)), max_workers-run s cs, ceiling),
      omega (arith, booked, none_yet allowance, free),
      omega (arith, booked', none_yet cost_of, free'),
    )
