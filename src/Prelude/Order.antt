-- ===== src/Prelude/Order.antt =====
-- What SQL's ORDER BY and LIMIT 1 select, where rows that compare equal keep their order.
use mathlib.Core.Path.{◌≡◌, refl, sym, ◌∙◌, subst}
use mathlib.Core.Logic.{◌⊎◌, inl, inr}
use mathlib.Core.Bool.{Bool, true, false}
use mathlib.Core.Option.{Option, none, some}
use mathlib.Core.List.{List, [], ◌∷◌}
use native.Mathlib.Omega.{arith}
use subagent_bridge.Prelude.Tests.{if◌then◌else◌, Bool-cases, Option-cases, and_left, and_right}
use subagent_bridge.Prelude.Lists.{All, All-weaken, all}

pub some_inj {ℓ} : {A : Type ℓ} {a b : A} → some a ≡ some b → a ≡ b
some_inj e = cc

module _ {ℓ} {A : Type ℓ} where
  abbrev pub insert_by : (A → A → Bool) → A → List A → List A
  insert_by before x [] = x ∷ []
  insert_by before x (y ∷ ys) =
      let rest = insert_by before x ys in if before y x then y ∷ rest else x ∷ y ∷ ys

  -- `ORDER BY`, where `before a b` says that `a` must come before `b`.
  abbrev pub sort_by : (A → A → Bool) → List A → List A
  sort_by before [] = []
  sort_by before (x ∷ xs) = insert_by before x (sort_by before xs)

  abbrev pick : (A → A → Bool) → A → Option A → Option A
  pick before x none = some x
  pick before x (some y) = if before y x then some y else some x

  -- `ORDER BY … LIMIT 1`
  abbrev pub first_by : (A → A → Bool) → List A → Option A
  first_by before [] = none
  first_by before (x ∷ xs) = pick before x (first_by before xs)

  -- The order is strict and its negation transitive, as of keys that are compared.
  pub record IsKeyOrder (before : A → A → Bool) : Type ℓ where
    pub strict : (x : A) → before x x ≡ false
    pub later : (x y z : A) → before x y ≡ false → before y z ≡ false → before x z ≡ false
    pub asym : (x y : A) → before x y ≡ true → before y x ≡ false

  pub some_or_nil :
      (before : A → A → Bool) (xs : List A) → (xs ≡ []) ⊎ ((b : A) × (first_by before xs ≡ some b))
  some_or_nil before [] = inl refl
  some_or_nil before (x ∷ xs) = elim (Option-cases (first_by before xs)) [
    | inl none_left ↦ inr (x, rw none_left refl)
    | inr (y, h) ↦ elim (Bool-cases (before y x)) [
      | inl lt ↦ inr (y, rw (h, lt) refl)
      | inr ge ↦ inr (x, rw (h, ge) refl)
    ]
  ]

  -- No row must come before the one that is selected.
  pub first_by-All :
      (before : A → A → Bool) (xs : List A) (b : A)
      → IsKeyOrder before
      → first_by before xs ≡ some b
      → All (λ x. before x b ≡ false) xs
  first_by-All before [] b o e = absurd (ground arith)
  first_by-All before (x ∷ xs) b o e = elim (some_or_nil before xs) [
    | inl empty ↦
        let alone : first_by before (x ∷ xs) ≡ some x = rw empty refl in
        let same : x ≡ b = some_inj (sym alone ∙ e) in (rw (← same) (o.strict x), rw empty tt)
    | inr (y, h) ↦ elim (Bool-cases (before y x)) [
      | inl lt ↦
          let first : first_by before (x ∷ xs) ≡ some y = rw (h, lt) refl in
          let same : y ≡ b = some_inj (sym first ∙ e) in
          subst (λ c. (before x c ≡ false) × All (λ z. before z c ≡ false) xs) same
            (o.asym y x lt, first_by-All before xs y o h)
      | inr ge ↦
          let first : first_by before (x ∷ xs) ≡ some x = rw (h, ge) refl in
          let same : x ≡ b = some_inj (sym first ∙ e) in
          subst (λ c. (before x c ≡ false) × All (λ z. before z c ≡ false) xs) same
            (o.strict x, All-weaken (λ z k. o.later z y x k ge) xs (first_by-All before xs y o h))
    ]
  ]

  -- What is selected is one of the rows.
  pub first_by-Any :
      (before : A → A → Bool) (p : A → Bool) (xs : List A) (b : A)
      → first_by before xs ≡ some b
      → all p xs ≡ true
      → p b ≡ true
  first_by-Any before p [] b e h = absurd (ground arith)
  first_by-Any before p (x ∷ xs) b e h = elim (some_or_nil before xs) [
    | inl empty ↦
        let alone : first_by before (x ∷ xs) ≡ some x = rw empty refl in
        let same : x ≡ b = some_inj (sym alone ∙ e) in rw (← same) (and_left (p x) (all p xs) h)
    | inr (y, g) ↦ elim (Bool-cases (before y x)) [
      | inl lt ↦
          let first : first_by before (x ∷ xs) ≡ some y = rw (g, lt) refl in
          let same : y ≡ b = some_inj (sym first ∙ e) in
          rw (← same) (first_by-Any before p xs y g (and_right (p x) (all p xs) h))
      | inr ge ↦
          let first : first_by before (x ∷ xs) ≡ some x = rw (g, ge) refl in
          let same : x ≡ b = some_inj (sym first ∙ e) in rw (← same) (and_left (p x) (all p xs) h)
    ]
  ]

  -- What holds of every row holds of the one that is selected.
  pub first_by-holds {κ} :
      (P : A → Type κ) (before : A → A → Bool) (xs : List A) (b : A)
      → first_by before xs ≡ some b
      → All P xs
      → P b
  first_by-holds P before [] b e h = absurd (ground arith)
  first_by-holds P before (x ∷ xs) b e h = elim (some_or_nil before xs) [
    | inl empty ↦
        let alone : first_by before (x ∷ xs) ≡ some x = rw empty refl in
        subst P (some_inj (sym alone ∙ e)) h.0
    | inr (y, g) ↦ elim (Bool-cases (before y x)) [
      | inl lt ↦
          let first : first_by before (x ∷ xs) ≡ some y = rw (g, lt) refl in
          subst P (some_inj (sym first ∙ e)) (first_by-holds P before xs y g h.1)
      | inr ge ↦
          let first : first_by before (x ∷ xs) ≡ some x = rw (g, ge) refl in
          subst P (some_inj (sym first ∙ e)) h.0
    ]
  ]
