-- ===== src/Planner/Plan/Fuel.antt =====
-- The search of a plan ends within its fuel: entries of the stack and tasks that were not entered
-- become fewer with every step.
use subagent_bridge.Prelude.{
  ℕ, zero, suc, ◌+◌, ◌≤◌, ◌<◌, String, Bool, true, false, not, ◌&&◌, ◌||◌, ◌≡◌, ◌≢◌, ◌⊎◌, inl, inr,
  refl, sym, ap, ◌∙◌, some, List, [], ◌∷◌, length, has, arith, eq_iff, ◌==◌, ==_refl, ==→eq,
  Bool-cases, Option-cases, if◌then◌else◌,
}
use subagent_bridge.Prelude.Exec.{Result, ok, err, Result-cases, key_error, out_of_fuel}
use subagent_bridge.Prelude.Dict.{get}
use subagent_bridge.Planner.Plan.{
  Graph, Search, push_deps, without, left, entered, step, search, search_all, keys, sorted,
  new_search, plan_size, order_tasks, plan_fine, validate_task_dag,
}

-- The node was entered before.
abbrev pub is_entered : Search → String → Bool
is_entered s k = has k s.visiting || has k s.visited

-- What the tasks that were not entered may still push.
abbrev weight : (String → Bool) → Graph → ℕ
weight p [] = 0
weight p ((k, deps) ∷ g) = let rest = weight p g in if p k then rest else suc (length deps) + rest

abbrev measure : Graph → Search → ℕ
measure g s = length s.stack + weight (is_entered s) g

weight_less :
    (p q : String → Bool) (g : Graph)
    → ((k : String) → p k ≡ true → q k ≡ true)
    → weight q g ≤ weight p g
weight_less p q [] h = ground arith
weight_less p q ((k, deps) ∷ g) h = ground (arith, h k, weight_less p q g h)

weight_enter :
    (p q : String → Bool) (g : Graph) (node : String) (deps : List String)
    → ((k : String) → p k ≡ true → q k ≡ true)
    → get g node ≡ some deps
    → p node ≡ false
    → q node ≡ true
    → weight q g + suc (length deps) ≤ weight p g
unfolding get
weight_enter p q [] node deps h e a b = absurd (ground arith)
weight_enter p q ((k, ds) ∷ g) node deps h e a b = elim (Bool-cases (k == node)) [
  | inl here ↦
      let same = ==→eq k node here in
      let found : some ds ≡ some deps = sym (first here) ∙ e in
      ground (arith, found, weight_less p q g h, sym (ap p same), sym (ap q same), a, b)
  | inr there ↦ ground (arith, h k, weight_enter p q g node deps h (sym (next there) ∙ e) a b)
]
  where
    first : (k == node) ≡ true → get ((k, ds) ∷ g) node ≡ some ds
    first h = rw h refl

    next : (k == node) ≡ false → get ((k, ds) ∷ g) node ≡ get g node
    next h = rw h refl

length-push_deps :
    (visited deps : List String) (stack : List (String × Bool))
    → length (push_deps visited deps stack) ≤ length deps + length stack
length-push_deps visited [] stack = ground arith
length-push_deps visited (dep ∷ deps) stack = ground (arith, length-push_deps visited deps stack)

pub has-without :
    (x node : String) (xs : List String) → has x (without node xs) ≡ (has x xs && not (node == x))
has-without x node [] = refl
has-without x node (y ∷ xs) =
    ground (arith, eq_iff y x, eq_iff y node, eq_iff node x, has-without x node xs)

left_entered :
    (node k : String) (s : Search) → is_entered s k ≡ true → is_entered (left node s) k ≡ true
left_entered node k s h = ground (arith, eq_iff node k, has-without k node s.visiting)

pub ok_inj {ℓ} : {A : Type ℓ} {a b : A} → ok a ≡ ok b → a ≡ b
ok_inj e = cc

-- A step adds no more than it has popped.
step_less :
    (g : Graph) (node : String) (leaving : Bool) (s t : Search)
    → step g node leaving s ≡ ok t
    → measure g t ≤ measure g s
unfolding step
step_less g node true s t h = elim (Bool-cases (has node s.visiting)) [
  | inr absent ↦ absurd (ground (arith, absent, h))
  | inl there ↦
      let done : step g node true s ≡ ok (left node s) = rw there refl in
      let same : left node s ≡ t = ok_inj (sym done ∙ h) in
      rw (← same) (
        ground (
          arith,
          weight_less (is_entered s) (is_entered (left node s)) g (λ k. left_entered node k s),
        ))
]
step_less g node false s t h = elim (Bool-cases (has node s.visiting)) [
  | inl there ↦ absurd (ground (arith, there, h))
  | inr absent ↦ elim (Bool-cases (has node s.visited)) [
    | inl seen ↦
        let done : step g node false s ≡ ok s = rw (absent, seen) refl in
        let same : s ≡ t = ok_inj (sym done ∙ h) in rw (← same) (ground arith)
    | inr fresh ↦ elim (Option-cases (get g node)) [
      | inl lost ↦
          let done : step g node false s ≡ err key_error = rw (absent, fresh, lost) refl in
          absurd (ground (arith, sym done ∙ h))
      | inr (deps, found) ↦
          let done : step g node false s ≡ ok (entered node deps s) =
            rw (absent, fresh, found) refl in
          let same : entered node deps s ≡ t = ok_inj (sym done ∙ h) in
          let unseen : is_entered s node ≡ false = rw (absent, fresh) refl in
          rw (← same) (
            ground (
              arith,
              length-push_deps s.visited deps ((node, true) ∷ s.stack),
              weight_enter (is_entered s) (is_entered (entered node deps s)) g node deps
                  (λ k m. ground arith) found unseen (rw (==_refl node) refl),
            ))
    ]
  ]
]

abbrev ran_out {ℓ} : {A : Type ℓ} → Result A → Bool
ran_out (err out_of_fuel) = true
ran_out _ = false

step_returns :
    (g : Graph) (node : String) (leaving : Bool) (s : Search)
    → ran_out (step g node leaving s) ≡ false
unfolding step
step_returns g node true s = ground arith
step_returns g node false s = elim (Option-cases (get g node)) [
  | inl lost ↦ rw lost (ground arith)
  | inr (deps, found) ↦ rw found (ground arith)
]

pub List-cases {ℓ} :
    {A : Type ℓ} (xs : List A) → (xs ≡ []) ⊎ ((x : A) × (rest : List A) × (xs ≡ x ∷ rest))
List-cases [] = inl refl
List-cases (x ∷ rest) = inr (x, rest, refl)

search_returns : (n : ℕ) (g : Graph) (s : Search) → measure g s < n → ran_out (search n g s) ≡ false
unfolding search
search_returns zero g s h = absurd (ground arith)
search_returns (suc n) g s h = elim (List-cases s.stack) [
  | inl empty ↦ rw empty refl
  | inr ((node, leaving), rest, pushed) ↦
      let popped = record s { stack = rest } in
      elim (Result-cases (step g node leaving popped)) [
        | inr (e, bad) ↦
            rw (pushed, bad) (sym (ap ran_out bad) ∙ step_returns g node leaving popped)
        | inl (t, next) ↦
            rw (pushed, next)
              (search_returns n g t (
                ground
                  (arith, step_less g node leaving popped t next, ap (λ l. length l) pushed, h)))
      ]
]

weight_plan : (p : String → Bool) (g : Graph) → weight p g ≤ plan_size g
unfolding plan_size
weight_plan p [] = ground arith
weight_plan p ((k, deps) ∷ g) = ground (arith, weight_plan p g)

search_all_returns :
    (fuel : ℕ) (g : Graph) (tasks : List String) (s : Search)
    → suc (plan_size g) < fuel
    → ran_out (search_all fuel g tasks s) ≡ false
unfolding search_all
search_all_returns fuel g [] s h = refl
search_all_returns fuel g (task ∷ tasks) s h =
    let begun = record s { stack = (task, false) ∷ [] } in
    elim (Bool-cases (has task s.visited)) [
      | inl seen ↦ rw seen (search_all_returns fuel g tasks s h)
      | inr fresh ↦ elim (Result-cases (search fuel g begun)) [
        | inl (t, done) ↦ rw (fresh, done) (search_all_returns fuel g tasks t h)
        | inr (e, bad) ↦
            rw (fresh, bad)
              (sym (ap ran_out bad)
                ∙ search_returns fuel g begun (ground (arith, weight_plan (is_entered begun) g, h)))
      ]
    ]

-- The search of a plan never runs out of its fuel: every task plan gets an order or an exception.
pub validation_terminates :
    (dependencies acceptance_criteria : Graph)
    → validate_task_dag dependencies acceptance_criteria ≢ err out_of_fuel
unfolding validate_task_dag order_tasks
validation_terminates dependencies acceptance_criteria e =
    let fuel = suc (suc (plan_size dependencies)) in
    let tasks = sorted (keys dependencies) in
    elim (Bool-cases (plan_fine dependencies acceptance_criteria)) [
      | inr bad ↦ absurd (ground (arith, bad, e))
      | inl fine ↦ elim (Result-cases (search_all fuel dependencies tasks new_search)) [
        | inl (s, done) ↦ absurd (ground (arith, fine, done, e))
        | inr (x, bad) ↦ absurd (
            ground (
              arith,
              fine,
              bad,
              e,
              search_all_returns fuel dependencies tasks new_search (ground arith),
            ))
      ]
    ]
