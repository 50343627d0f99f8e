-- ===== src/Planner/Examples.antt =====
-- Runs of the budget ledgers, and the theorems of this package at them.
use subagent_bridge.Prelude.{◌+◌, ◌≤◌, ◌≡◌, refl, some, List, [], ◌∷◌, length}
use subagent_bridge.Prelude.Exec.{ok}
use subagent_bridge.Prelude.Int.{pos}
use subagent_bridge.Prelude.Dict.{get, put, remove, total}
use subagent_bridge.Planner.Budget.{
  Reservation, BudgetLedger, new_ledger, reservation, reserve_args_ok, release_args_ok,
  reserve_locked, reserve, release_locked, release,
}
use subagent_bridge.Planner.Budget.Conserved.{
  Call, reserve_call, release_call, after, run, used_tokens, used_cost, used_up, booked_tokens,
  booked_cost, allowance, cost_of, budget_is_conserved, ceilings_hold,
}
use subagent_bridge.Planner.Durable.{Database, durable_reserve, durable_release}
use subagent_bridge.Planner.Durable.Rows.{view, rows_of}
use subagent_bridge.Planner.Durable.Restarts.{
  FileCall, open_call, hold_call, free_call, run_file, calls_of, restarts_keep_budget,
}
use subagent_bridge.Planner.Durable.Refines.{
  Refines, durable_reserve-Refines, durable_release-Refines,
}

abbrev fresh : BudgetLedger
fresh = record { tokens = 100; cost = 50; max_workers = 2; reservations = [] }

-- The last call first: d-3 finds no worker slot, then d-1 ends with 10 tokens unused.
abbrev calls : List Call
calls =
    release_call "d-1" (pos 10) (pos 0)
    ∷ reserve_call "d-3" (pos 1) (pos 1)
    ∷ reserve_call "d-2" (pos 20) (pos 5)
    ∷ reserve_call "d-1" (pos 40) (pos 10)
    ∷ []

fresh_is_new : new_ledger (pos 100) (pos 50) (pos 2) ≡ ok fresh
unfolding new_ledger
fresh_is_new = refl

calls_leave : run fresh calls ≡ record {
  tokens = 50;
  cost = 35;
  max_workers = 2;
  reservations = ("d-2", reservation "d-2" 20 5) ∷ [];
}
unfolding run after reserve release reserve_args_ok release_args_ok reserve_locked release_locked
    get put remove
calls_leave = refl

budget_is_conserved_example :
    (booked_tokens (run fresh calls) + used_up used_tokens fresh calls ≡ booked_tokens fresh)
    × (booked_cost (run fresh calls) + used_up used_cost fresh calls ≡ booked_cost fresh)
budget_is_conserved_example = budget_is_conserved fresh calls

ceilings_hold_example :
    (length (run fresh calls).reservations ≤ 2)
    × (total allowance (run fresh calls).reservations ≤ 100)
    × (total cost_of (run fresh calls).reservations ≤ 50)
ceilings_hold_example = ceilings_hold (pos 100) (pos 50) (pos 2) fresh calls fresh_is_new

abbrev file : Database
file = record {
  budget_ledger =
      ("default", record { tokens_remaining = 60; cost_remaining = 40; max_workers = 2 })
      ∷ ("other", record { tokens_remaining = 7; cost_remaining = 7; max_workers = 1 })
      ∷ [];
  budget_reservations =
      record {
        ledger_id = "default";
        dispatch_id = "d-1";
        token_allowance = 40;
        cost_microunits = 10;
      }
      ∷ [];
}

abbrev held : BudgetLedger
held = record {
  tokens = 60;
  cost = 40;
  max_workers = 2;
  reservations = ("d-1", reservation "d-1" 40 10) ∷ [];
}

held_in_file : view "default" file ≡ some held
unfolding get rows_of
held_in_file = refl

durable_reserve-Refines_example :
    Refines Reservation "default" file
      (durable_reserve "default" "d-2" (pos 20) (pos 5) file)
      (reserve "d-2" (pos 20) (pos 5) held)
durable_reserve-Refines_example =
    durable_reserve-Refines "default" "d-2" (pos 20) (pos 5) file held held_in_file (refl, tt)

durable_release-Refines_example :
    Refines
      (Unit {0})
      "default"
      file
      (durable_release "default" "d-1" (pos 3) (pos 0) file)
      (release "d-1" (pos 3) (pos 0) held)
durable_release-Refines_example =
    durable_release-Refines "default" "d-1" (pos 3) (pos 0) file held held_in_file (refl, tt)

-- The last call first: the file is opened again, with other ceilings, between two calls, and the
-- other ledger is used as well.
abbrev file_calls : List FileCall
file_calls =
    free_call "default" "d-1" (pos 10) (pos 0)
    ∷ open_call "default" (pos 999) (pos 999) (pos 9)
    ∷ hold_call "other" "d-1" (pos 5) (pos 5)
    ∷ hold_call "default" "d-2" (pos 20) (pos 5)
    ∷ []

own_calls_only :
    calls_of "default" file_calls
    ≡ release_call "d-1" (pos 10) (pos 0) ∷ reserve_call "d-2" (pos 20) (pos 5) ∷ []
own_calls_only = refl

restarts_keep_budget_example :
    view "default" (run_file file file_calls) ≡ some (run held (calls_of "default" file_calls))
restarts_keep_budget_example =
    restarts_keep_budget "default" held file file_calls held_in_file (refl, tt)
