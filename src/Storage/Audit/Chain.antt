-- ===== src/Storage/Audit/Chain.antt =====
-- The chain of a stream: a checked stream stays checked when its next row is appended.
use subagent_bridge.Prelude.{
  ℕ, suc, ◌+◌, ◌≤◌, String, Bool, true, false, ◌&&◌, ◌≡◌, inl, inr, refl, sym, ap, ◌∙◌, List, [],
  ◌∷◌, ◌++◌, length, keep_if, all, leb, arith, nat_eq, ◌==◌, ==_refl, ==→eq, and_left, and_right,
  Bool-cases,
}
use subagent_bridge.Prelude.Exec.{ok, err, ledger_integrity}
use subagent_bridge.Storage.Json.{Codec}
use subagent_bridge.Storage.Audit.{
  Row, genesis, insert_row, by_seq, read_rows, last_sha, digest, row_ok, check_from, check_rows,
  next_row,
}

append-nil : (xs : List Row) → xs ++ [] ≡ xs
append-nil [] = refl
append-nil (x ∷ xs) = rw (append-nil xs) refl

keep_if-append :
    (p : Row → Bool) (xs ys : List Row) → keep_if p (xs ++ ys) ≡ keep_if p xs ++ keep_if p ys
keep_if-append p [] ys = refl
keep_if-append p (x ∷ xs) ys = elim (Bool-cases (p x)) [
  | inl h ↦ rw (h, keep_if-append p xs ys) refl
  | inr h ↦ rw (h, keep_if-append p xs ys) refl
]

insert_row-append :
    (x r : Row) (rows : List Row)
    → leb x.seq r.seq ≡ true
    → insert_row x (rows ++ r ∷ []) ≡ insert_row x rows ++ r ∷ []
insert_row-append x r [] h = rw h refl
insert_row-append x r (y ∷ rows) h = elim (Bool-cases (leb x.seq y.seq)) [
  | inl e ↦ rw e refl
  | inr e ↦ rw (e, insert_row-append x r rows h) refl
]

all-insert_row :
    (p : Row → Bool) (x : Row) (rows : List Row) → all p (insert_row x rows) ≡ (p x && all p rows)
all-insert_row p x [] = refl
all-insert_row p x (y ∷ rows) = elim (Bool-cases (leb x.seq y.seq)) [
  | inl e ↦ rw e refl
  | inr e ↦ rw (e, all-insert_row p x rows) (ground arith)
]

all-by_seq : (p : Row → Bool) (rows : List Row) → all p (by_seq rows) ≡ all p rows
all-by_seq p [] = refl
all-by_seq p (x ∷ rows) = rw (all-insert_row, all-by_seq p rows) refl

by_seq-append :
    (rows : List Row) (r : Row)
    → all (λ x. leb x.seq r.seq) rows ≡ true
    → by_seq (rows ++ r ∷ []) ≡ by_seq rows ++ r ∷ []
by_seq-append [] r h = refl
by_seq-append (x ∷ rows) r h = rw (by_seq-append rows r (and_right (leb x.seq r.seq) _ h)) (
    insert_row-append x r (by_seq rows)
      (and_left (leb x.seq r.seq) (all (λ y. leb y.seq r.seq) rows) h))

module _ (codec : Codec) where
  check-cons :
      (stream : String) (n : ℕ) (prev tail : String) (r : Row) (rows : List Row)
      → check_from codec stream n prev (r ∷ rows) ≡ ok tail
      → (row_ok codec stream n prev r ≡ true)
        × (check_from codec stream (suc n) r.event_sha rows ≡ ok tail)
  unfolding check_from
  check-cons stream n prev tail r rows e = elim (Bool-cases (row_ok codec stream n prev r)) [
    | inl fine ↦
        let whole : check_from codec stream n prev (r ∷ rows)
            ≡ check_from codec stream (suc n) r.event_sha rows =
          rw fine refl in
        (fine, sym whole ∙ e)
    | inr broken ↦
        let whole : check_from codec stream n prev (r ∷ rows) ≡ err ledger_integrity =
          rw broken refl in
        absurd (ground (arith, sym whole ∙ e))
  ]

  row_ok-seq :
      (stream : String) (n : ℕ) (prev : String) (r : Row)
      → row_ok codec stream n prev r ≡ true
      → r.seq ≡ n
  unfolding row_ok
  row_ok-seq stream n prev r h =
      let linked = r.prev_sha == prev in
      let digested =
        digest codec stream r.seq r.idempotency_key r.event_type r.payload_json prev
        == r.event_sha in
      ground
        (arith, and_left (nat_eq r.seq n) linked (and_left (nat_eq r.seq n && linked) digested h))

  -- The numbers of a checked chain.
  check-bounded :
      (stream : String) (n m : ℕ) (prev tail : String) (rows : List Row)
      → check_from codec stream n prev rows ≡ ok tail
      → length rows + n ≤ suc m
      → all (λ x. leb x.seq m) rows ≡ true
  check-bounded stream n m prev tail [] e h = refl
  check-bounded stream n m prev tail (r ∷ rows) e h =
      let parts = check-cons stream n prev tail r rows e in
      let here = row_ok-seq stream n prev r parts.0 in
      let rest = check-bounded stream (suc n) m r.event_sha tail rows parts.1 (omega arith) in
      rw (here, rest) (ground arith)

  check-append :
      (stream : String) (n : ℕ) (prev tail : String) (rows : List Row) (r : Row)
      → check_from codec stream n prev rows ≡ ok tail
      → row_ok codec stream (length rows + n) (last_sha prev rows) r ≡ true
      → check_from codec stream n prev (rows ++ r ∷ []) ≡ ok r.event_sha
  unfolding check_from
  check-append stream n prev tail [] r e h =
      let same : 0 + n ≡ n = omega arith in
      let fine : row_ok codec stream n prev r ≡ true =
        sym (ap (λ k. row_ok codec stream k prev r) same) ∙ h in
      rw fine refl
  check-append stream n prev tail (x ∷ rows) r e h =
      let parts = check-cons stream n prev tail x rows e in
      let next : length rows + suc n ≡ suc (length rows) + n = omega arith in
      rw parts.0 (check-append stream (suc n) x.event_sha tail rows r parts.1 (rw next h))

  next_row-row_ok :
      (stream key kind body : String) (rows : List Row)
      → row_ok codec stream
          (length rows + 1)
          (last_sha genesis rows)
          (next_row codec stream key kind body rows)
        ≡ true
  unfolding row_ok next_row
  next_row-row_ok stream key kind body rows =
      let seq = length rows + 1 in
      let prev = last_sha genesis rows in
      rw (==_refl prev, ==_refl (digest codec stream seq key kind body prev)) (ground arith)

-- The rows of a stream are in the order of their numbers and chained by their digests.
abbrev pub IsVerified : Codec → List Row → Type 0
IsVerified codec rows =
    (stream : String)
    → (tail : String) × (check_rows codec stream (read_rows stream rows) ≡ ok tail)

module _ (codec : Codec) where
  -- The rows that a stream has after an append.
  pub read-append :
      (stream key kind body : String) (rows : List Row) (tail : String)
      → check_rows codec stream (read_rows stream rows) ≡ ok tail
      → read_rows stream (rows ++ next_row codec stream key kind body (read_rows stream rows) ∷ [])
        ≡ read_rows stream rows ++ next_row codec stream key kind body (read_rows stream rows) ∷ []
  unfolding read_rows check_rows next_row
  read-append stream key kind body rows tail e =
      let mine : Row → Bool = λ r. r.stream == stream in
      let old = by_seq (keep_if mine rows) in
      let new = next_row codec stream key kind body old in
      let low = check-bounded codec stream 1 new.seq genesis tail old e (omega arith) in
      rw (keep_if-append mine rows (new ∷ []), ==_refl stream)
        (by_seq-append (keep_if mine rows) new
          (sym (all-by_seq (λ x. leb x.seq new.seq) (keep_if mine rows)) ∙ low))

  read-other :
      (stream : String) (rows : List Row) (new : Row)
      → (new.stream == stream) ≡ false
      → read_rows stream (rows ++ new ∷ []) ≡ read_rows stream rows
  unfolding read_rows
  read-other stream rows new h =
      rw (keep_if-append (λ r. r.stream == stream) rows (new ∷ []), h)
        (rw (append-nil (keep_if (λ r. r.stream == stream) rows)) refl)

  pub append-ok :
      (stream key kind body : String) (rows : List Row) (tail : String)
      → check_rows codec stream (read_rows stream rows) ≡ ok tail
      → check_rows codec stream (
          read_rows stream
            (rows ++ next_row codec stream key kind body (read_rows stream rows) ∷ []))
        ≡ ok (next_row codec stream key kind body (read_rows stream rows)).event_sha
  unfolding check_rows
  append-ok stream key kind body rows tail e =
      let old = read_rows stream rows in
      rw (read-append stream key kind body rows tail e) (
        check-append codec stream 1 genesis tail old (next_row codec stream key kind body old) e
          (next_row-row_ok codec stream key kind body old))

  apart_of :
      (stream asked key kind body : String) (rows : List Row)
      → (stream == asked) ≡ false
      → ((next_row codec stream key kind body (read_rows stream rows)).stream == asked) ≡ false
  unfolding next_row
  apart_of stream asked key kind body rows h = h

  pub append-IsVerified :
      (stream key kind body : String) (rows : List Row)
      → IsVerified codec rows
      → IsVerified codec (rows ++ next_row codec stream key kind body (read_rows stream rows) ∷ [])
  append-IsVerified stream key kind body rows h asked =
      let new = next_row codec stream key kind body (read_rows stream rows) in
      elim (Bool-cases (stream == asked)) [
        | inl same ↦
            rw (← ==→eq stream asked same)
              (new.event_sha, append-ok stream key kind body rows (h stream).0 (h stream).1)
        | inr apart ↦ (
          (h asked).0,
          rw (read-other asked rows new (apart_of stream asked key kind body rows apart))
              (h asked).1,
        )
      ]
