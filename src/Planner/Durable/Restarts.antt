-- ===== src/Planner/Durable/Restarts.antt =====
-- One file under the calls of any processes and ledgers, with restarts: each ledger goes on where it
-- was.
use subagent_bridge.Prelude.{
  String, Bool, true, false, not, ◌||◌, ◌≡◌, ◌⊎◌, inl, inr, refl, sym, ap, ◌∙◌, none, some, List,
  [], ◌∷◌, leb, ◌==◌, ==→eq, Bool-cases, Option-cases, if◌then◌else◌,
}
use subagent_bridge.Prelude.Exec.{Result}
use subagent_bridge.Prelude.Int.{ℤ, nat_of}
use subagent_bridge.Prelude.Dict.{get, get-put}
use subagent_bridge.Planner.Budget.{
  BudgetLedger, reserve_args_ok, release_args_ok, ceilings_ok, reserve, release,
}
use subagent_bridge.Planner.Budget.Conserved
use subagent_bridge.Planner.Budget.Conserved.{Call, reserve_call, release_call}
use subagent_bridge.Planner.Durable.{
  Database, select_one, open_ledger, reserve_transaction, durable_reserve, release_transaction,
  durable_release,
}
use subagent_bridge.Planner.Durable.Rows.{rows_of, ledger_of, view, HasKeys}
use subagent_bridge.Planner.Durable.Refines.{
  Refines, durable_reserve-Refines, durable_release-Refines, reopened_same,
}

-- A call of the file: the constructor of a ledger with its ceilings, or a method.
pub data FileCall : Type 0 where
  open_call : String → ℤ → ℤ → ℤ → FileCall
  hold_call : String → String → ℤ → ℤ → FileCall
  free_call : String → String → ℤ → ℤ → FileCall

unfoldable pub after_file : FileCall → Database → Database
after_file (open_call id tokens cost workers) db = (open_ledger id tokens cost workers db).1
after_file (hold_call id key tokens cost) db = (durable_reserve id key tokens cost db).1
after_file (free_call id key tokens cost) db = (durable_release id key tokens cost db).1

-- The calls, the last one first.
unfoldable pub run_file : Database → List FileCall → Database
run_file db [] = db
run_file db (c ∷ cs) = after_file c (run_file db cs)

-- The methods that were called on one ledger, without the constructor.
abbrev pub calls_of : String → List FileCall → List Call
calls_of id [] = []
calls_of id (open_call other tokens cost workers ∷ cs) = calls_of id cs
calls_of id (hold_call other key tokens cost ∷ cs) =
    let rest = calls_of id cs in if other == id then reserve_call key tokens cost ∷ rest else rest
calls_of id (free_call other key tokens cost ∷ cs) =
    let rest = calls_of id cs in if other == id then release_call key tokens cost ∷ rest else rest

-- A ledger that the file does not hold.
view_cases :
    (id : String) (db : Database)
    → (get db.budget_ledger id ≡ none) ⊎ ((b : BudgetLedger) × (view id db ≡ some b))
view_cases id db = elim (Option-cases (get db.budget_ledger id)) [
  | inl absent ↦ inl absent
  | inr (row, found) ↦ inr (ledger_of row (rows_of id db.budget_reservations), rw found refl)
]

reserve_unopened :
    (id key : String) (tokens cost : ℤ) (db : Database)
    → get db.budget_ledger id ≡ none
    → (durable_reserve id key tokens cost db).1 ≡ db
unfolding durable_reserve reserve_transaction
reserve_unopened id key tokens cost db absent =
    elim (Bool-cases (reserve_args_ok key tokens cost)) [
      | inr bad ↦ rw bad refl
      | inl good ↦ rw (good, absent) refl
    ]

release_unopened :
    (id key : String) (tokens cost : ℤ) (db : Database)
    → get db.budget_ledger id ≡ none
    → (durable_release id key tokens cost db).1 ≡ db
unfolding durable_release release_transaction
release_unopened id key tokens cost db absent = elim (Bool-cases (release_args_ok tokens cost)) [
  | inr bad ↦ rw bad refl
  | inl good ↦ elim (Option-cases (select_one id key db.budget_reservations)) [
    | inl missing ↦ rw (good, missing) refl
    | inr (allowed, found) ↦
        elim (Bool-cases
          (not (leb (nat_of tokens) allowed.0) || not (leb (nat_of cost) allowed.1))) [
            | inl over ↦ rw (good, found, over) refl
            | inr fits ↦ rw (good, found, fits, absent) refl
          ]
  ]
]

-- The ledger `id` is `b` in the file, and the file keeps its primary key.
record IsHeld (id : String) (b : BudgetLedger) (db : Database) : Type 0 where
  seen : view id db ≡ some b
  keys : HasKeys db.budget_reservations

same_file :
    {id : String} {b : BudgetLedger} {db db' : Database}
    → db' ≡ db
    → IsHeld id b db
    → IsHeld id b db'
same_file same h = rw same h

other_open :
    (id other : String) (tokens cost workers : ℤ) (b : BudgetLedger) (db : Database)
    → (other == id) ≡ false
    → IsHeld id b db
    → IsHeld id b (open_ledger other tokens cost workers db).1
unfolding open_ledger
other_open id other tokens cost workers b db apart h =
    elim (Bool-cases (ceilings_ok tokens cost workers)) [
      | inr bad ↦ rw bad h
      | inl good ↦ elim (Option-cases (get db.budget_ledger other)) [
        | inr (row, there) ↦ rw (good, there) h
        | inl fresh ↦ rw (good, fresh) (record { seen = rw (get-put, apart) h.seen; keys = h.keys })
      ]
    ]

-- What a call that refines a method of its own ledger does to the ledger `id`.
refined :
    {A : Type 0} (id other : String) (b : BudgetLedger) (db : Database) (r : Result A × Database)
    (called : BudgetLedger → Result A × BudgetLedger)
    → ((c : BudgetLedger) → view other db ≡ some c → Refines A other db r (called c))
    → (get db.budget_ledger other ≡ none → r.1 ≡ db)
    → IsHeld id b db
    → IsHeld id (if other == id then (called b).1 else b) r.1
refined id other b db r called refines unopened h = elim (Bool-cases (other == id)) [
  | inl own ↦
      let same : other ≡ id = ==→eq other id own in
      let one = refines b (ap (λ i. view i db) same ∙ h.seen) in
      rw own (record { seen = sym (ap (λ i. view i r.1) same) ∙ one.state; keys = one.keys })
  | inr apart ↦ elim (view_cases other db) [
    | inl absent ↦ rw apart (same_file (unopened absent) h)
    | inr (c, held) ↦
        let one = refines c held in
        rw apart (record { seen = one.others id apart ∙ h.seen; keys = one.keys })
  ]
]

run_own :
    (b : BudgetLedger) (own : Bool) (c : Call) (cs : List Call)
    → Conserved.run b (if own then c ∷ cs else cs)
      ≡ (if own then Conserved.after c (Conserved.run b cs) else Conserved.run b cs)
unfolding Conserved.run
run_own b true c cs = refl
run_own b false c cs = refl

after_file-IsHeld :
    (id : String) (b : BudgetLedger) (db : Database) (c : FileCall) (cs : List FileCall)
    → IsHeld id (Conserved.run b (calls_of id cs)) (run_file db cs)
    → IsHeld id (Conserved.run b (calls_of id (c ∷ cs))) (run_file db (c ∷ cs))
unfolding run_file after_file Conserved.run Conserved.after
after_file-IsHeld id b db (open_call other tokens cost workers) cs h =
    elim (Bool-cases (other == id)) [
      | inl own ↦
          same_file
            (reopened_same other tokens cost workers (run_file db cs)
              (Conserved.run b (calls_of id cs))
              (ap (λ i. view i (run_file db cs)) (==→eq other id own) ∙ h.seen))
            h
      | inr apart ↦
          other_open id other tokens cost workers (Conserved.run b (calls_of id cs))
            (run_file db cs) apart h
    ]
after_file-IsHeld id b db (hold_call other key tokens cost) cs h =
    let now = run_file db cs in
    rw (run_own b (other == id) (reserve_call key tokens cost) (calls_of id cs)) (
      refined id other (Conserved.run b (calls_of id cs)) now
        (durable_reserve other key tokens cost now) (reserve key tokens cost)
        (λ c held. durable_reserve-Refines other key tokens cost now c held h.keys)
        (reserve_unopened other key tokens cost now) h)
after_file-IsHeld id b db (free_call other key tokens cost) cs h =
    let now = run_file db cs in
    rw (run_own b (other == id) (release_call key tokens cost) (calls_of id cs)) (
      refined id other (Conserved.run b (calls_of id cs)) now
        (durable_release other key tokens cost now) (release key tokens cost)
        (λ c held. durable_release-Refines other key tokens cost now c held h.keys)
        (release_unopened other key tokens cost now) h)

run_file-IsHeld :
    (id : String) (b : BudgetLedger) (db : Database) (cs : List FileCall)
    → IsHeld id b db
    → IsHeld id (Conserved.run b (calls_of id cs)) (run_file db cs)
unfolding run_file Conserved.run
run_file-IsHeld id b db [] h = h
run_file-IsHeld id b db (c ∷ cs) h = after_file-IsHeld id b db c cs (run_file-IsHeld id b db cs h)

-- After any calls on any ledgers of the file, constructors with any ceilings among them, a ledger
-- that the file held at the start is what the in-memory ledger is after the same reservations and
-- releases of its own: a restart gives no budget back, and no other ledger takes any. The file must
-- hold no (ledger, dispatch) pair twice at the start.
pub restarts_keep_budget :
    (id : String) (b : BudgetLedger) (db : Database) (cs : List FileCall)
    → view id db ≡ some b
    → HasKeys db.budget_reservations
    → view id (run_file db cs) ≡ some (Conserved.run b (calls_of id cs))
restarts_keep_budget id b db cs h keys =
    (run_file-IsHeld id b db cs (record { seen = h; keys = keys })).seen
