-- ===== src/Storage/Team/Rows.antt =====
-- The rows of a table that a WHERE clause selects.
use subagent_bridge.Prelude.{
  String, Bool, true, false, ◌≡◌, inl, inr, refl, sym, ◌∙◌, subst, some, List, [], ◌∷◌, keep_if,
  All, all, arith, ◌==◌, Bool-cases, ◌⊎◌, All-weaken,
}
use subagent_bridge.Prelude.Dict.{Dict, get}
use subagent_bridge.Prelude.Order.{some_inj}
use subagent_bridge.Storage.Team.{values_of}

-- Each selected row meets the clause.
pub all-keep_if {ℓ} : {A : Type ℓ} (p : A → Bool) (xs : List A) → all p (keep_if p xs) ≡ true
all-keep_if p [] = refl
all-keep_if p (x ∷ xs) = ground (arith, all-keep_if p xs)

module _ {V : Type 0} where
  -- What holds of the selected rows holds of a row of the table that meets the clause.
  pub keep_if-All :
      (P : V → Type 0) (p : V → Bool) (rows : Dict V) (k : String) (y : V)
      → All P (keep_if p (values_of rows))
      → get rows k ≡ some y
      → p y ≡ true
      → P y
  unfolding get
  keep_if-All P p [] k y h e m = absurd (ground arith)
  keep_if-All P p ((j, w) ∷ rows) k y h e m = elim (Bool-cases (j == k)) [
    | inl here ↦
        let same : w ≡ y = some_inj (sym (first here) ∙ e) in
        let meets : p w ≡ true = rw same m in subst P same (subst (All P) (taken meets) h).0
    | inr there ↦ elim (Bool-cases (p w)) [
      | inl meets ↦
          keep_if-All P p rows k y (subst (All P) (taken meets) h).1 (sym (next there) ∙ e) m
      | inr lacks ↦
          keep_if-All P p rows k y (subst (All P) (skipped lacks) h) (sym (next there) ∙ e) m
    ]
  ]
    where
      taken : p w ≡ true → keep_if p (values_of ((j, w) ∷ rows)) ≡ w ∷ keep_if p (values_of rows)
      taken h = rw h refl

      skipped : p w ≡ false → keep_if p (values_of ((j, w) ∷ rows)) ≡ keep_if p (values_of rows)
      skipped h = rw h refl

      first : (j == k) ≡ true → get ((j, w) ∷ rows) k ≡ some w
      first here = rw here refl

      next : (j == k) ≡ false → get ((j, w) ∷ rows) k ≡ get rows k
      next there = rw there refl

  -- No row of the table meets a clause that selects none.
  pub keep_if-none :
      (p : V → Bool) (rows : Dict V) (k : String) (y : V)
      → keep_if p (values_of rows) ≡ []
      → get rows k ≡ some y
      → p y ≡ false
  keep_if-none p rows k y h e = elim (Bool-cases (p y)) [
    | inl meets ↦ absurd (keep_if-All (λ v. ⊥) p rows k y (subst (All (λ v. ⊥)) (sym h) tt) e meets)
    | inr lacks ↦ lacks
  ]

  -- The value of a row.
  abbrev pub IsRow : V → Dict V → Type 0
  IsRow v [] = ⊥
  IsRow v ((k, w) ∷ rows) = (w ≡ v) ⊎ IsRow v rows

  -- The clause selects rows.
  pub keep_if-IsRow :
      (p : V → Bool) (rows : Dict V) → All (λ v. IsRow v rows) (keep_if p (values_of rows))
  keep_if-IsRow p [] = tt
  keep_if-IsRow p ((k, w) ∷ rows) =
      let others : All (λ v. IsRow v ((k, w) ∷ rows)) (keep_if p (values_of rows)) =
        All-weaken (λ v h. inr h) (keep_if p (values_of rows)) (keep_if-IsRow p rows) in
      elim (Bool-cases (p w)) [
        | inl meets ↦ rw meets (inl refl, others)
        | inr lacks ↦ rw lacks others
      ]
