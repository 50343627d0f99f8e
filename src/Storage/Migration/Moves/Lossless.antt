-- ===== src/Storage/Migration/Moves/Lossless.antt =====
-- A migration loses no row: of a table first, then of the whole schema.
use subagent_bridge.Prelude.{
  String, Bool, true, false, ◌≡◌, inl, inr, refl, sym, ◌∙◌, Option, none, some, [], ◌∷◌, all, any,
  arith, Bool-cases, Option-cases,
}
use subagent_bridge.Prelude.Exec.{Result, ok, err, migration_conflict, migration_integrity}
use subagent_bridge.Prelude.Dict.{Dict, get, put, get-put_fresh, get-all}
use subagent_bridge.Storage.Migration.{QueueRow, LegacyQueue, equal_queue, same_queue}
use subagent_bridge.Storage.Migration.Moves.{
  conflicts, matched, insert_missing, migrate_rows, migrate_table, with_values, insert_queue,
  check_queue, migrate_queue,
}

module _ {V : Type 0} (same : V → V → Bool) where
  -- Each legacy row is in the new table, with the same values, and the old rows are as they were.
  pub record IsKept (legacy rows new : Dict V) : Type 0 where
    pub moved :
        (k : String) (v : V)
        → get legacy k ≡ some v
        → (w : V) × (get new k ≡ some w) × (same v w ≡ true)
    pub stayed : (k : String) (w : V) → get rows k ≡ some w → get new k ≡ some w

  found_matched :
      (v : V) (o : Option V) → matched same v o ≡ true → (w : V) × (o ≡ some w) × (same v w ≡ true)
  found_matched v none h = absurd (ground arith)
  found_matched v (some w) h = (w, refl, h)

  checked-moved :
      (legacy new : Dict V) (k : String) (v : V)
      → all (λ r. matched same r.1 (get new r.0)) legacy ≡ true
      → get legacy k ≡ some v
      → (w : V) × (get new k ≡ some w) × (same v w ≡ true)
  checked-moved legacy new k v h e =
      found_matched v (get new k) (get-all (λ j x. matched same x (get new j)) legacy k v h e)

insert_missing-stayed :
    {V : Type 0} (legacy rows : Dict V) (k : String) (w : V)
    → get rows k ≡ some w
    → get (insert_missing legacy rows) k ≡ some w
unfolding insert_missing
insert_missing-stayed [] rows k w e = e
insert_missing-stayed ((j, v) ∷ legacy) rows k w e = elim (Option-cases (get rows j)) [
  | inl fresh ↦
      rw fresh
        (insert_missing-stayed legacy (put rows j v) k w (get-put_fresh rows j k v w fresh e))
  | inr (old, there) ↦ rw there (insert_missing-stayed legacy rows k w e)
]

ok_inj : {A : Type 0} {a b : A} → ok a ≡ ok b → a ≡ b
ok_inj e = cc

migrate_rows-parts :
    {V : Type 0} (same : V → V → Bool) (legacy rows new : Dict V)
    → migrate_rows same legacy rows ≡ ok new
    → (insert_missing legacy rows ≡ new) × (all (λ r. matched same r.1 (get new r.0)) legacy ≡ true)
unfolding migrate_rows
migrate_rows-parts same legacy rows new e =
    let made = insert_missing legacy rows in
    elim (Bool-cases (any (λ r. conflicts same r.1 (get rows r.0)) legacy)) [
      | inl bad ↦ absurd (ground (arith, sym (refused bad) ∙ e))
      | inr fine ↦ elim (Bool-cases (all (λ r. matched same r.1 (get made r.0)) legacy)) [
        | inr odd ↦ absurd (ground (arith, sym (broken fine odd) ∙ e))
        | inl good ↦
            let is : made ≡ new = ok_inj (sym (passed fine good) ∙ e) in (is, rw (← is) good)
      ]
    ]
  where
    refused :
        any (λ r. conflicts same r.1 (get rows r.0)) legacy ≡ true
        → migrate_rows same legacy rows ≡ err migration_conflict
    refused bad = rw bad refl

    broken :
        any (λ r. conflicts same r.1 (get rows r.0)) legacy ≡ false
        → all (λ r. matched same r.1 (get (insert_missing legacy rows) r.0)) legacy ≡ false
        → migrate_rows same legacy rows ≡ err migration_integrity
    broken fine odd = rw (fine, odd) refl

    passed :
        any (λ r. conflicts same r.1 (get rows r.0)) legacy ≡ false
        → all (λ r. matched same r.1 (get (insert_missing legacy rows) r.0)) legacy ≡ true
        → migrate_rows same legacy rows ≡ ok (insert_missing legacy rows)
    passed fine good = rw (fine, good) refl

migrate_rows-IsKept :
    {V : Type 0} (same : V → V → Bool) (legacy rows new : Dict V)
    → migrate_rows same legacy rows ≡ ok new
    → IsKept same legacy rows new
migrate_rows-IsKept same legacy rows new e =
    let parts = migrate_rows-parts same legacy rows new e in
    record {
      moved = λ k v h. checked-moved same legacy new k v parts.1 h;
      stayed = λ k w h. rw (← parts.0) (insert_missing-stayed legacy rows k w h);
    }

insert_queue-stayed :
    (legacy rows new : Dict QueueRow) (k : String) (w : QueueRow)
    → insert_queue legacy rows ≡ ok new
    → get rows k ≡ some w
    → get new k ≡ some w
unfolding insert_queue
insert_queue-stayed [] rows new k w e h = let same : rows ≡ new = ok_inj e in rw (← same) h
insert_queue-stayed ((j, v) ∷ legacy) rows new k w e h =
    elim (Bool-cases (conflicts equal_queue v (get rows j))) [
      | inl bad ↦ absurd (ground (arith, sym (rejected bad) ∙ e))
      | inr fine ↦ elim (Option-cases (get rows j)) [
        | inl fresh ↦
            insert_queue-stayed legacy (put rows j v) new k w (sym (added fine fresh) ∙ e)
              (get-put_fresh rows j k v w fresh h)
        | inr (old, there) ↦
            insert_queue-stayed legacy rows new k w (sym (left fine old there) ∙ e) h
      ]
    ]
  where
    rejected :
        conflicts equal_queue v (get rows j) ≡ true
        → insert_queue ((j, v) ∷ legacy) rows ≡ err migration_conflict
    rejected bad = rw bad refl

    added :
        conflicts equal_queue v (get rows j) ≡ false
        → get rows j ≡ none
        → insert_queue ((j, v) ∷ legacy) rows ≡ insert_queue legacy (put rows j v)
    added fine fresh = rw (fine, fresh) refl

    left :
        conflicts equal_queue v (get rows j) ≡ false
        → (old : QueueRow) → get rows j ≡ some old
        → insert_queue ((j, v) ∷ legacy) rows ≡ insert_queue legacy rows
    left fine old there = rw (fine, there) refl

-- A legacy queue, with the defaults for the columns it lacks.
abbrev pub legacy_values : Option LegacyQueue → Dict QueueRow
legacy_values none = []
legacy_values (some t) = with_values t t.rows

check_queue-parts :
    (legacy new : Dict QueueRow) (r : Result (Dict QueueRow))
    → check_queue legacy r ≡ ok new
    → (r ≡ ok new) × (all (λ x. matched same_queue x.1 (get new x.0)) legacy ≡ true)
check_queue-parts legacy new (err f) e = absurd (ground arith)
check_queue-parts legacy new (ok rows) e =
    elim (Bool-cases (all (λ x. matched same_queue x.1 (get rows x.0)) legacy)) [
      | inr bad ↦ absurd (ground (arith, sym (rejected bad) ∙ e))
      | inl good ↦
          let same : rows ≡ new = ok_inj (sym (passed good) ∙ e) in (rw same refl, rw (← same) good)
    ]
  where
    rejected :
        all (λ x. matched same_queue x.1 (get rows x.0)) legacy ≡ false
        → check_queue legacy (ok rows) ≡ err migration_integrity
    rejected bad = rw bad refl

    passed :
        all (λ x. matched same_queue x.1 (get rows x.0)) legacy ≡ true
        → check_queue legacy (ok rows) ≡ ok rows
    passed good = rw good refl

abbrev pub legacy_rows {ℓ} : {V : Type ℓ} → Option (Dict V) → Dict V
legacy_rows none = []
legacy_rows (some rows) = rows

none-IsKept : {V : Type 0} (same : V → V → Bool) (rows : Dict V) → IsKept same [] rows rows
unfolding get
none-IsKept same rows = record { moved = λ k v h. absurd (ground arith); stayed = λ k w h. h }

pub migrate_table-IsKept :
    {V : Type 0} (same : V → V → Bool) (legacy : Option (Dict V)) (rows new : Dict V)
    → migrate_table same legacy rows ≡ ok new
    → IsKept same (legacy_rows legacy) rows new
migrate_table-IsKept same none rows new e = rw (← ok_inj e) (none-IsKept same rows)
migrate_table-IsKept same (some legacy) rows new e = migrate_rows-IsKept same legacy rows new e

pub migrate_queue-IsKept :
    (legacy : Option LegacyQueue) (rows new : Dict QueueRow)
    → migrate_queue legacy rows ≡ ok new
    → IsKept same_queue (legacy_values legacy) rows new
unfolding migrate_queue
migrate_queue-IsKept none rows new e = rw (← ok_inj e) (none-IsKept same_queue rows)
migrate_queue-IsKept (some t) rows new e =
    let legacy = with_values t t.rows in
    let parts = check_queue-parts legacy new (insert_queue legacy rows) e in
    record {
      moved = λ k v h. checked-moved same_queue legacy new k v parts.1 h;
      stayed = λ k w h. insert_queue-stayed legacy rows new k w parts.0 h;
    }
