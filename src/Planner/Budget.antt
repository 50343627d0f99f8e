-- ===== src/Planner/Budget.antt =====
-- subagentbridge/planner/budget.py: `BudgetLedger`. The lock makes each method one step.
pub mod Conserved
use subagent_bridge.Prelude.{
  ℕ, ◌+◌, ◌-◌, String, Bool, not, ◌&&◌, ◌||◌, List, [], length, ltb, leb, is_some, if◌then◌else◌,
}
use subagent_bridge.Prelude.Exec.{
  Result, ok, err, Exec, pure, gets, modify, state, raise_if, or_raise, ◌>>=◌, ◌>>◌, value_error,
  key_error, budget_exceeded,
}
use subagent_bridge.Prelude.Int.{ℤ, is_negative, nat_of}
use subagent_bridge.Prelude.Text.{strips_to_nothing}
use subagent_bridge.Prelude.Dict.{Dict, get, put, remove}

pub record Reservation : Type 0 where
  pub dispatch_id : String
  pub token_allowance : ℕ
  pub cost_microunits : ℕ

-- `max_workers` is positive and the amounts never fall below 0, so they are natural numbers.
pub record BudgetLedger : Type 0 where
  pub tokens : ℕ
  pub cost : ℕ
  pub max_workers : ℕ
  pub reservations : Dict Reservation

-- The test of both constructors: integers, not negative, and a positive worker ceiling.
abbrev pub ceilings_ok : ℤ → ℤ → ℤ → Bool
ceilings_ok tokens cost workers =
    not (is_negative tokens || is_negative cost || is_negative workers) && ltb 0 (nat_of workers)

unfoldable pub new_ledger : ℤ → ℤ → ℤ → Result BudgetLedger
new_ledger tokens cost workers =
    if ceilings_ok tokens cost workers
    then ok (record {
      tokens = nat_of tokens;
      cost = nat_of cost;
      max_workers = nat_of workers;
      reservations = [];
    })
    else err value_error

-- The tests of arguments that both ledgers make before they take the lock.
unfoldable pub reserve_args_ok : String → ℤ → ℤ → Bool
unfolding strips_to_nothing
reserve_args_ok dispatch_id tokens cost =
    not (strips_to_nothing dispatch_id || is_negative tokens || is_negative cost)

unfoldable pub release_args_ok : ℤ → ℤ → Bool
release_args_ok tokens cost = not (is_negative tokens || is_negative cost)

abbrev pub reservation : String → ℕ → ℕ → Reservation
reservation dispatch_id tokens cost = record {
  dispatch_id = dispatch_id;
  token_allowance = tokens;
  cost_microunits = cost;
}

-- The part of `reserve` under the lock.
unfoldable pub reserve_locked : String → ℕ → ℕ → Exec BudgetLedger Reservation
reserve_locked dispatch_id tokens cost = do
  s ← state
  raise_if (is_some (get s.reservations dispatch_id)) budget_exceeded
  raise_if (leb s.max_workers (length s.reservations) || ltb s.tokens tokens || ltb s.cost cost)
      budget_exceeded
  let r = reservation dispatch_id tokens cost
  modify (λ s. record s {
    tokens = s.tokens - tokens;
    cost = s.cost - cost;
    reservations = put s.reservations dispatch_id r;
  })
  pure r

unfoldable pub reserve : String → ℤ → ℤ → Exec BudgetLedger Reservation
reserve dispatch_id tokens cost = do
  raise_if (not (reserve_args_ok dispatch_id tokens cost)) value_error
  reserve_locked dispatch_id (nat_of tokens) (nat_of cost)

-- The part of `release` under the lock.
unfoldable pub release_locked : String → ℕ → ℕ → Exec BudgetLedger (Unit {0})
release_locked dispatch_id unused_tokens unused_cost = do
  found ← gets (λ s. get s.reservations dispatch_id)
  r ← or_raise found key_error
  raise_if (not (leb unused_tokens r.token_allowance) || not (leb unused_cost r.cost_microunits))
      value_error
  modify (λ s. record s {
    tokens = s.tokens + unused_tokens;
    cost = s.cost + unused_cost;
    reservations = remove s.reservations dispatch_id;
  })

unfoldable pub release : String → ℤ → ℤ → Exec BudgetLedger (Unit {0})
release dispatch_id unused_tokens unused_cost = do
  raise_if (not (release_args_ok unused_tokens unused_cost)) value_error
  release_locked dispatch_id (nat_of unused_tokens) (nat_of unused_cost)
