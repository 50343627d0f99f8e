-- ===== src/Planner/Durable/Rows.antt =====
-- The rows of budget_reservations that belong to one ledger, under SELECT, INSERT and DELETE.
use subagent_bridge.Prelude.{
  ℕ, String, ◌≡◌, inl, inr, refl, ap, false, not, Option, none, some, List, [], ◌∷◌, ◌++◌, arith,
  eq_iff, ==→eq, Bool-cases, length, is_some, if◌then◌else◌, any, any-append, any-keep_if, count_if,
  keep_if, ◌==◌,
}
use subagent_bridge.Prelude.Dict.{Dict, get, put, remove}
use subagent_bridge.Planner.Budget.{Reservation, BudgetLedger, reservation}
use subagent_bridge.Planner.Durable.{LedgerRow, ReservationRow, Database, is_key, is_of, select_one}

-- The reservations of one ledger, as the in-memory ledger would hold them.
unfoldable pub rows_of : String → List ReservationRow → Dict Reservation
rows_of id [] = []
rows_of id (r ∷ rows) =
    let rest = rows_of id rows in
    if r.ledger_id == id
    then (r.dispatch_id, reservation r.dispatch_id r.token_allowance r.cost_microunits) ∷ rest
    else rest

abbrev pub ledger_of : LedgerRow → Dict Reservation → BudgetLedger
ledger_of row rs = record {
  tokens = row.tokens_remaining;
  cost = row.cost_remaining;
  max_workers = row.max_workers;
  reservations = rs;
}

abbrev pub view_row : Option LedgerRow → Dict Reservation → Option BudgetLedger
view_row none rs = none
view_row (some row) rs = some (ledger_of row rs)

-- What the file says of one ledger.
abbrev pub view : String → Database → Option BudgetLedger
view id db = view_row (get db.budget_ledger id) (rows_of id db.budget_reservations)

-- The primary key of budget_reservations.
abbrev pub HasKeys : List ReservationRow → Type 0
HasKeys [] = Unit
HasKeys (r ∷ rows) = (any (is_key r.ledger_id r.dispatch_id) rows ≡ false) × HasKeys rows

abbrev pub pair_of : Option Reservation → Option (ℕ × ℕ)
pair_of none = none
pair_of (some r) = some (r.token_allowance, r.cost_microunits)

module _ (id key : String) where
  pub any-rows_of :
      (rows : List ReservationRow) → any (is_key id key) rows ≡ is_some (get (rows_of id rows) key)
  unfolding rows_of get
  any-rows_of [] = refl
  any-rows_of (r ∷ rows) = ground (arith, any-rows_of rows)

  pub select-rows_of :
      (rows : List ReservationRow) → select_one id key rows ≡ pair_of (get (rows_of id rows) key)
  unfolding rows_of get
  select-rows_of [] = refl
  select-rows_of (r ∷ rows) = ground (arith, select-rows_of rows)

  pub count-rows_of :
      (rows : List ReservationRow) → count_if (is_of id) rows ≡ length (rows_of id rows)
  unfolding rows_of
  count-rows_of [] = refl
  count-rows_of (r ∷ rows) = ground (arith, count-rows_of rows)

  abbrev pub new_row : ℕ → ℕ → ReservationRow
  new_row tokens cost = record {
    ledger_id = id;
    dispatch_id = key;
    token_allowance = tokens;
    cost_microunits = cost;
  }

  pub rows_of-insert :
      (rows : List ReservationRow) (tokens cost : ℕ)
      → any (is_key id key) rows ≡ false
      → rows_of id (rows ++ new_row tokens cost ∷ [])
        ≡ put (rows_of id rows) key (reservation key tokens cost)
  unfolding rows_of put
  rows_of-insert [] tokens cost h = ground (arith, eq_iff id id)
  rows_of-insert (r ∷ rows) tokens cost h = ground (arith, rows_of-insert rows tokens cost)

  pub rows_of-insert_other :
      (other : String) (rows : List ReservationRow) (tokens cost : ℕ)
      → (id == other) ≡ false
      → rows_of other (rows ++ new_row tokens cost ∷ []) ≡ rows_of other rows
  unfolding rows_of
  rows_of-insert_other other [] tokens cost h = rw h
  rows_of-insert_other other (r ∷ rows) tokens cost h =
      ground (arith, rows_of-insert_other other rows tokens cost h)

  keep_if-none :
      (rows : List ReservationRow)
      → any (is_key id key) rows ≡ false
      → keep_if (λ r. not (is_key id key r)) rows ≡ rows
  keep_if-none [] h = refl
  keep_if-none (r ∷ rows) h = ground (arith, keep_if-none rows)

  pub rows_of-delete :
      (rows : List ReservationRow)
      → HasKeys rows
      → rows_of id (keep_if (λ r. not (is_key id key r)) rows) ≡ remove (rows_of id rows) key
  unfolding rows_of remove
  rows_of-delete [] h = refl
  rows_of-delete (r ∷ rows) h = elim (Bool-cases (r.ledger_id == id)) [
    | inr other ↦ rw (other) (rw other (rows_of-delete rows h.1))
    | inl same ↦ elim (Bool-cases (r.dispatch_id == key)) [
      | inr kept ↦ rw (same, kept) (rw (same, rows_of-delete rows h.1))
      | inl gone ↦
          rw (same, gone)
            (ap (rows_of id) (
              keep_if-none rows
                (rw (← ==→eq r.ledger_id id same, ← ==→eq r.dispatch_id key gone) h.0)))
    ]
  ]

  pub rows_of-delete_other :
      (other : String) (rows : List ReservationRow)
      → (id == other) ≡ false
      → rows_of other (keep_if (λ r. not (is_key id key r)) rows) ≡ rows_of other rows
  unfolding rows_of
  rows_of-delete_other other [] h = refl
  rows_of-delete_other other (r ∷ rows) h = ground (
    arith,
    rows_of-delete_other other rows h,
    eq_iff r.ledger_id id,
    eq_iff r.ledger_id other,
    eq_iff id other,
  )

  pub HasKeys-insert :
      (rows : List ReservationRow) (tokens cost : ℕ)
      → any (is_key id key) rows ≡ false
      → HasKeys rows
      → HasKeys (rows ++ new_row tokens cost ∷ [])
  HasKeys-insert [] tokens cost h k = (refl, tt)
  HasKeys-insert (r ∷ rows) tokens cost h k = (
    ground (
      arith,
      any-append (is_key r.ledger_id r.dispatch_id) rows (new_row tokens cost ∷ []),
      eq_iff id r.ledger_id,
      eq_iff r.ledger_id id,
      eq_iff key r.dispatch_id,
      eq_iff r.dispatch_id key,
    ),
    HasKeys-insert rows tokens cost (ground arith) k.1,
  )

  pub HasKeys-delete :
      (rows : List ReservationRow)
      → HasKeys rows
      → HasKeys (keep_if (λ r. not (is_key id key r)) rows)
  HasKeys-delete [] k = tt
  HasKeys-delete (r ∷ rows) k = elim (Bool-cases (is_key id key r)) [
    | inl gone ↦ rw gone (HasKeys-delete rows k.1)
    | inr kept ↦ rw kept (
      any-keep_if (is_key r.ledger_id r.dispatch_id) (λ x. not (is_key id key x)) rows k.0,
      HasKeys-delete rows k.1,
    )
  ]
