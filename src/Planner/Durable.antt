-- ===== src/Planner/Durable.antt =====
-- subagentbridge/planner/budget.py: `DurableBudgetLedger`, over the two tables of its SQLite file.
-- Each method is one BEGIN IMMEDIATE transaction, so processes that share the file take turns.
pub mod Rows
pub mod Refines
pub mod Restarts
use subagent_bridge.Prelude.{
  ℕ, ◌+◌, ◌-◌, String, Bool, not, ◌&&◌, ◌||◌, Option, none, some, List, [], ◌∷◌, ◌++◌, length, ltb,
  leb, is_some, any, count_if, keep_if, ◌==◌, if◌then◌else◌,
}
use subagent_bridge.Prelude.Exec.{
  Result, ok, err, Exec, pure, gets, modify, state, raise_if, or_raise, transaction, ◌>>=◌, ◌>>◌,
  value_error, key_error, type_error, budget_exceeded,
}
use subagent_bridge.Prelude.Int.{ℤ, nat_of}
use subagent_bridge.Prelude.Dict.{Dict, get, put}
use subagent_bridge.Planner.Budget.{
  Reservation, reservation, reserve_args_ok, release_args_ok, ceilings_ok,
}

-- A row of budget_ledger, whose primary key is ledger_id.
pub record LedgerRow : Type 0 where
  pub tokens_remaining : ℕ
  pub cost_remaining : ℕ
  pub max_workers : ℕ

-- A row of budget_reservations, in the order of insertion.
pub record ReservationRow : Type 0 where
  pub ledger_id : String
  pub dispatch_id : String
  pub token_allowance : ℕ
  pub cost_microunits : ℕ

pub record Database : Type 0 where
  pub budget_ledger : Dict LedgerRow
  pub budget_reservations : List ReservationRow

-- `WHERE ledger_id=? AND dispatch_id=?`, and `WHERE ledger_id=?`
abbrev pub is_key : String → String → ReservationRow → Bool
is_key ledger_id dispatch_id r = r.ledger_id == ledger_id && r.dispatch_id == dispatch_id

abbrev pub is_of : String → ReservationRow → Bool
is_of ledger_id r = r.ledger_id == ledger_id

-- `SELECT token_allowance, cost_microunits … fetchone()`
abbrev pub select_one : String → String → List ReservationRow → Option (ℕ × ℕ)
select_one ledger_id dispatch_id [] = none
select_one ledger_id dispatch_id (r ∷ rows) =
    let rest = select_one ledger_id dispatch_id rows in
    if is_key ledger_id dispatch_id r then some (r.token_allowance, r.cost_microunits) else rest

-- The part of `__init__` that may write: the ledger's row is inserted only if there is none.
unfoldable pub open_ledger : String → ℤ → ℤ → ℤ → Exec Database (Unit {0})
open_ledger ledger_id tokens cost workers = do
  raise_if (not (ceilings_ok tokens cost workers)) value_error
  row ← gets (λ s. get s.budget_ledger ledger_id)
  if is_some row
      then pure tt
      else modify (λ s. record s {
        budget_ledger = put s.budget_ledger ledger_id (record {
          tokens_remaining = nat_of tokens;
          cost_remaining = nat_of cost;
          max_workers = nat_of workers;
        });
      })

unfoldable pub reserve_transaction : String → String → ℕ → ℕ → Exec Database Reservation
reserve_transaction ledger_id dispatch_id tokens cost = do
  found ← gets (λ s. get s.budget_ledger ledger_id)
  row ← or_raise found budget_exceeded
  s ← state
  raise_if (any (is_key ledger_id dispatch_id) s.budget_reservations) budget_exceeded
  let active_count = count_if (is_of ledger_id) s.budget_reservations
  raise_if
      (leb row.max_workers active_count
        || ltb row.tokens_remaining tokens
        || ltb row.cost_remaining cost)
      budget_exceeded
  let row' = record row {
    tokens_remaining = row.tokens_remaining - tokens;
    cost_remaining = row.cost_remaining - cost;
  }
  modify (λ s. record s { budget_ledger = put s.budget_ledger ledger_id row' })
  let new : ReservationRow = record {
    ledger_id = ledger_id;
    dispatch_id = dispatch_id;
    token_allowance = tokens;
    cost_microunits = cost;
  }
  modify (λ s. record s { budget_reservations = s.budget_reservations ++ new ∷ [] })
  pure (reservation dispatch_id tokens cost)

unfoldable pub durable_reserve : String → String → ℤ → ℤ → Exec Database Reservation
durable_reserve ledger_id dispatch_id tokens cost = do
  raise_if (not (reserve_args_ok dispatch_id tokens cost)) value_error
  transaction (reserve_transaction ledger_id dispatch_id (nat_of tokens) (nat_of cost))

-- With no ledger row, unpacking `None` raises TypeError.
unfoldable pub release_transaction : String → String → ℕ → ℕ → Exec Database (Unit {0})
release_transaction ledger_id dispatch_id unused_tokens unused_cost = do
  found ← gets (λ s. select_one ledger_id dispatch_id s.budget_reservations)
  allowed ← or_raise found key_error
  raise_if (not (leb unused_tokens allowed.0) || not (leb unused_cost allowed.1)) value_error
  ledger ← gets (λ s. get s.budget_ledger ledger_id)
  row ← or_raise ledger type_error
  let row' = record row {
    tokens_remaining = row.tokens_remaining + unused_tokens;
    cost_remaining = row.cost_remaining + unused_cost;
  }
  modify (λ s. record s { budget_ledger = put s.budget_ledger ledger_id row' })
  modify (λ s. record s {
    budget_reservations = keep_if (λ r. not (is_key ledger_id dispatch_id r)) s.budget_reservations;
  })

unfoldable pub durable_release : String → String → ℤ → ℤ → Exec Database (Unit {0})
durable_release ledger_id dispatch_id unused_tokens unused_cost = do
  raise_if (not (release_args_ok unused_tokens unused_cost)) value_error
  transaction
      (release_transaction ledger_id dispatch_id (nat_of unused_tokens) (nat_of unused_cost))
