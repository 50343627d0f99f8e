-- ===== src/Planner/Durable/Refines.antt =====
-- The durable ledger does what the in-memory ledger does, for each ledger of the file by itself.
use subagent_bridge.Prelude.{
  ℕ, ◌+◌, ◌-◌, String, ◌≡◌, ◌⊎◌, inl, inr, refl, ◌∙◌, false, not, ◌||◌, some, [], ◌∷◌, ◌++◌, arith,
  ==_refl, Option-cases, Bool-cases, length, ltb, leb, is_some, any, keep_if, ◌==◌,
}
use mathlib.Core.Option.{some-injective}
use subagent_bridge.Prelude.Exec.{Error, Result, ok, err, value_error, key_error, budget_exceeded}
use subagent_bridge.Prelude.Int.{ℤ, nat_of}
use subagent_bridge.Prelude.Dict.{get, put, remove, get-put}
use subagent_bridge.Planner.Budget.{
  Reservation, BudgetLedger, reservation, reserve_args_ok, release_args_ok, reserve_locked, reserve,
  release_locked, release,
}
use subagent_bridge.Planner.Durable.{
  LedgerRow, Database, is_key, open_ledger, reserve_transaction, durable_reserve,
  release_transaction, durable_release,
}
use subagent_bridge.Planner.Durable.Rows.{
  rows_of, ledger_of, view, HasKeys, any-rows_of, select-rows_of, count-rows_of, new_row,
  rows_of-insert, rows_of-insert_other, rows_of-delete, rows_of-delete_other, HasKeys-insert,
  HasKeys-delete,
}

-- The ledger `id` of the file, with this row.
abbrev mine : String → Database → LedgerRow → BudgetLedger
mine id db row = ledger_of row (rows_of id db.budget_reservations)

module _ (id key : String) (tokens cost : ℕ) (db : Database) (row : LedgerRow)
    (found : get db.budget_ledger id ≡ some row) where
  -- The transaction and the method of the in-memory ledger make the same tests.
  reserve_same :
      ((e : Error) × (reserve_transaction id key tokens cost db ≡ (err e, db))
        × (reserve_locked key tokens cost (mine id db row) ≡ (err e, mine id db row)))
      ⊎ ((any (is_key id key) db.budget_reservations ≡ false)
          × (reserve_transaction id key tokens cost db ≡ (
            ok (reservation key tokens cost),
            record {
              budget_ledger = put db.budget_ledger id (record row {
                tokens_remaining = row.tokens_remaining - tokens;
                cost_remaining = row.cost_remaining - cost;
              });
              budget_reservations = db.budget_reservations ++ new_row id key tokens cost ∷ [];
            },
          ))
          × (reserve_locked key tokens cost (mine id db row) ≡ (
            ok (reservation key tokens cost),
            record (mine id db row) {
              tokens = row.tokens_remaining - tokens;
              cost = row.cost_remaining - cost;
              reservations = put (mine id db row).reservations key (reservation key tokens cost);
            },
          )))
  unfolding reserve_transaction reserve_locked
  reserve_same =
      let same = any-rows_of id key db.budget_reservations in
      let counted = count-rows_of id key db.budget_reservations in
      elim (Bool-cases (is_some (get (mine id db row).reservations key))) [
        | inl twice ↦ inl (budget_exceeded, rw (found, same, twice), rw twice)
        | inr once ↦
            elim (Bool-cases (
              leb row.max_workers (length (mine id db row).reservations)
              || ltb row.tokens_remaining tokens
              || ltb row.cost_remaining cost)) [
                | inl full ↦
                    inl (budget_exceeded, rw (found, same, once, counted, full), rw (once, full))
                | inr room ↦
                    inr (same ∙ once, rw (found, same, once, counted, room), rw (once, room))
              ]
      ]

  release_same :
      ((e : Error) × (release_transaction id key tokens cost db ≡ (err e, db))
        × (release_locked key tokens cost (mine id db row) ≡ (err e, mine id db row)))
      ⊎ ((release_transaction id key tokens cost db ≡ (
        ok tt,
        record {
          budget_ledger = put db.budget_ledger id (record row {
            tokens_remaining = row.tokens_remaining + tokens;
            cost_remaining = row.cost_remaining + cost;
          });
          budget_reservations = keep_if (λ r. not (is_key id key r)) db.budget_reservations;
        },
      ))
          × (release_locked key tokens cost (mine id db row) ≡ (
            ok tt,
            record (mine id db row) {
              tokens = row.tokens_remaining + tokens;
              cost = row.cost_remaining + cost;
              reservations = remove (mine id db row).reservations key;
            },
          )))
  unfolding release_transaction release_locked
  release_same =
      let same = select-rows_of id key db.budget_reservations in
      elim (Option-cases (get (mine id db row).reservations key)) [
        | inl absent ↦ inl (key_error, rw (same, absent), rw absent)
        | inr (r, there) ↦
            elim (Bool-cases
              (not (leb tokens r.token_allowance) || not (leb cost r.cost_microunits))) [
                | inl over ↦ inl (value_error, rw (same, there, over), rw (there, over))
                | inr fits ↦ inr (rw (same, there, fits, found), rw (there, fits))
              ]
      ]

-- The durable call `r` from `db` answers as the in-memory call `m` of this ledger; it leaves what
-- `m` leaves, the primary key intact, and every other ledger of the file as it was.
pub record Refines (A : Type 0) (id : String) (db : Database) (r : Result A × Database)
    (m : Result A × BudgetLedger) : Type 0 where
  pub result : r.0 ≡ m.0
  pub state : view id r.1 ≡ some m.1
  pub keys : HasKeys r.1.budget_reservations
  pub others : (other : String) → (id == other) ≡ false → view other r.1 ≡ view other db

module _ (id key : String) (tokens cost : ℤ) (db : Database) (row : LedgerRow)
    (found : get db.budget_ledger id ≡ some row) (keys : HasKeys db.budget_reservations) where
  unchanged : {A : Type 0} (r : Result A) → Refines A id db (r, db) (r, mine id db row)
  unchanged r = record { result = refl; state = rw found; keys = keys; others = λ other h. refl }

  reserve-Refines :
      Refines Reservation id db
        (durable_reserve id key tokens cost db)
        (reserve key tokens cost (mine id db row))
  unfolding durable_reserve reserve
  reserve-Refines = elim (Bool-cases (reserve_args_ok key tokens cost)) [
    | inr bad ↦ rw bad (unchanged (err value_error))
    | inl good ↦ rw good (elim (reserve_same id key (nat_of tokens) (nat_of cost) db row found) [
      | inl (e, durable, memory) ↦ rw (durable, memory) (unchanged (err e))
      | inr (once, durable, memory) ↦
          rw (durable, memory)
            (record {
              result = refl;
              state = rw (get-put, ==_refl id, rows_of-insert id key _ _ _ once);
              keys = HasKeys-insert id key db.budget_reservations _ _ once keys;
              others = λ other h. rw (get-put, h, rows_of-insert_other id key other _ _ _ h);
            })
    ])
  ]

  release-Refines :
      Refines
        (Unit {0})
        id
        db
        (durable_release id key tokens cost db)
        (release key tokens cost (mine id db row))
  unfolding durable_release release
  release-Refines = elim (Bool-cases (release_args_ok tokens cost)) [
    | inr bad ↦ rw bad (unchanged (err value_error))
    | inl good ↦ rw good (elim (release_same id key (nat_of tokens) (nat_of cost) db row found) [
      | inl (e, durable, memory) ↦ rw (durable, memory) (unchanged (err e))
      | inr (durable, memory) ↦
          rw (durable, memory)
            (record {
              result = refl;
              state = rw (get-put, ==_refl id, rows_of-delete id key _ keys);
              keys = HasKeys-delete id key db.budget_reservations keys;
              others = λ other h. rw (get-put, h, rows_of-delete_other id key other _ h);
            })
    ])
  ]

row_of :
    (id : String) (db : Database) (b : BudgetLedger)
    → view id db ≡ some b
    → (row : LedgerRow) × (get db.budget_ledger id ≡ some row) × (mine id db row ≡ b)
row_of id db b h = elim (Option-cases (get db.budget_ledger id)) [
  | inl absent ↦ absurd (ground (arith, absent))
  | inr (row, found) ↦ (row, found, some-injective _ _ (rw found at h))
]

-- `reserve` of the durable ledger refines `reserve` of the in-memory one: on a file that holds
-- ledger `b` under `id`, and no (ledger, dispatch) pair twice, it answers as `b` would, leaves what
-- `b` would become, keeps the primary key, and does not touch any other ledger of the file.
pub durable_reserve-Refines :
    (id key : String) (tokens cost : ℤ) (db : Database) (b : BudgetLedger)
    → view id db ≡ some b
    → HasKeys db.budget_reservations
    → Refines Reservation id db (durable_reserve id key tokens cost db) (reserve key tokens cost b)
durable_reserve-Refines id key tokens cost db b h keys =
    let (row, found, same) = row_of id db b h in
    rw (← same) (reserve-Refines id key tokens cost db row found keys)

-- `release` of the durable ledger refines `release` of the in-memory one, in the same sense.
pub durable_release-Refines :
    (id key : String) (tokens cost : ℤ) (db : Database) (b : BudgetLedger)
    → view id db ≡ some b
    → HasKeys db.budget_reservations
    → Refines (Unit {0}) id db (durable_release id key tokens cost db) (release key tokens cost b)
durable_release-Refines id key tokens cost db b h keys =
    let (row, found, same) = row_of id db b h in
    rw (← same) (release-Refines id key tokens cost db row found keys)

-- Opening a ledger that the file holds writes nothing.
pub reopened_same :
    (id : String) (tokens cost workers : ℤ) (db : Database) (b : BudgetLedger)
    → view id db ≡ some b
    → (open_ledger id tokens cost workers db).1 ≡ db
unfolding open_ledger
reopened_same id tokens cost workers db b h =
    let (row, found, same) = row_of id db b h in ground (arith, found)
