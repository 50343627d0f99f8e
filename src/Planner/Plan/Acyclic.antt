-- ===== src/Planner/Plan/Acyclic.antt =====
-- Every plan whose checks hold gets an order, or has a cycle.
use subagent_bridge.Prelude.{
  ℕ, zero, suc, String, Bool, true, false, not, ◌&&◌, ◌≡◌, ◌⊎◌, inl, inr, refl, sym, ap, ◌∙◌, subst,
  Option, none, some, List, [], ◌∷◌, has, all, distinct, is_some, arith, eq_iff, ==_refl,
  Bool-cases, and_left, and_right,
}
use subagent_bridge.Prelude.Exec.{ok, err, out_of_fuel}
use subagent_bridge.Prelude.Text.{codes}
use subagent_bridge.Prelude.Dict.{get, get-all}
use subagent_bridge.Planner.Plan.{
  Graph, Search, left, entered, step, search, search_all, before, keys, sorted, new_search,
  plan_size, order_tasks, bounded_text, deps_fine, plan_fine, validate_task_dag,
}
use subagent_bridge.Planner.Plan.Fuel.{List-cases, has-without, validation_terminates}
use subagent_bridge.Planner.Plan.Cycles.{
  Depends, leaves, IsChained, are_planned, IsChained-less, IsChained-push, chained_leaf,
  leaves-push_deps, planned_push,
}
use subagent_bridge.Planner.Plan.Validated.{has-sort_by, has-keys}

abbrev pub HasCycle : Graph → Type 0
HasCycle g = (x : String) × Depends g x x

-- Every dependency is a task of the plan.
abbrev IsClosed : Graph → Type 0
IsClosed g =
    (x : String) (deps : List String)
    → get g x ≡ some deps
    → all (λ d. is_some (get g d)) deps ≡ true

record IsOnPath (g : Graph) (s : Search) : Type 0 where
  chained : IsChained g [] s.stack
  planned : are_planned g s.stack ≡ true
  same : (x : String) → has x s.visiting ≡ has x (leaves s.stack)
  once : distinct (leaves s.stack) ≡ true

some_of {ℓ} : {A : Type ℓ} (o : Option A) → is_some o ≡ true → (a : A) × (o ≡ some a)
some_of none h = absurd (ground arith)
some_of (some a) h = (a, refl)

-- A step finds a cycle or goes on.
step_cases :
    (g : Graph) (node : String) (leaving : Bool) (s : Search)
    → IsClosed g
    → IsOnPath g (record s { stack = (node, leaving) ∷ s.stack })
    → HasCycle g ⊎ ((t : Search) × (step g node leaving s ≡ ok t) × IsOnPath g t)
unfolding step
step_cases g node true s c i =
    let there : has node s.visiting ≡ true = i.same node ∙ rw (==_refl node) refl in
    inr (
      left node s,
      rw there refl,
      record {
        chained =
            IsChained-less g (node ∷ []) [] s.stack (λ x k. absurd (ground arith)) i.chained.1;
        planned = and_right (is_some (get g node)) (are_planned g s.stack) i.planned;
        same = λ x. ground (arith, has-without x node s.visiting, i.same x, i.once, eq_iff node x);
        once = and_right (not (has node (leaves s.stack))) (distinct (leaves s.stack)) i.once;
      },
    )
step_cases g node false s c i = elim (Bool-cases (has node s.visiting)) [
  | inl there ↦ inl (
    node,
    chained_leaf g (node ∷ []) node node s.stack i.chained (sym (i.same node) ∙ there)
        (rw (==_refl node) refl),
  )
  | inr absent ↦ elim (Bool-cases (has node s.visited)) [
    | inl seen ↦ inr (
      s,
      rw (absent, seen) refl,
      record {
        chained = IsChained-less g (node ∷ []) [] s.stack (λ x k. absurd (ground arith)) i.chained;
        planned = and_right (is_some (get g node)) (are_planned g s.stack) i.planned;
        same = i.same;
        once = i.once;
      },
    )
    | inr fresh ↦
        let (deps, found) =
          some_of (get g node)
            (and_left (is_some (get g node)) (are_planned g s.stack) i.planned) in
        let pushed = leaves-push_deps s.visited deps ((node, true) ∷ s.stack) in
        inr (
          entered node deps s,
          rw (absent, fresh, found) refl,
          record {
            chained =
                IsChained-push g node s.visited deps [] s.stack (λ x k. rw found k)
                  (λ x k. absurd (ground arith)) i.chained;
            planned =
                planned_push g s.visited deps ((node, true) ∷ s.stack) (c node deps found)
                  i.planned;
            same = λ x. ground (arith, i.same x) ∙ sym (ap (λ l. has x l) pushed);
            once = ap distinct pushed ∙ ground (arith, i.once, sym (i.same node) ∙ absent, absent);
          },
        )
  ]
]

-- So does a search, or it has too little fuel.
search_cases :
    (n : ℕ) (g : Graph) (s : Search)
    → IsClosed g
    → IsOnPath g s
    → HasCycle g
      ⊎ ((search n g s ≡ err out_of_fuel)
          ⊎ ((t : Search) × (search n g s ≡ ok t) × IsOnPath g t × (t.stack ≡ [])))
unfolding search
search_cases zero g s c i = inr (inl refl)
search_cases (suc n) g s c i = elim (List-cases s.stack) [
  | inl empty ↦ inr (inr (s, rw empty refl, i, empty))
  | inr ((node, leaving), rest, pushed) ↦
      let popped = record s { stack = rest } in
      let same : s ≡ record s { stack = (node, leaving) ∷ rest } =
        ap (λ l. record s { stack = l }) pushed in
      elim (step_cases g node leaving popped c (subst (λ u. IsOnPath g u) same i)) [
        | inl cycle ↦ inl cycle
        | inr (u, next, j) ↦ elim (search_cases n g u c j) [
          | inl cycle ↦ inl cycle
          | inr (inl spent) ↦ inr (inl (rw (pushed, next) spent))
          | inr (inr (t, done, k, empty)) ↦ inr (inr (t, rw (pushed, next) done, k, empty))
        ]
      ]
]

begun-IsOnPath :
    (g : Graph) (task : String) (s : Search)
    → IsOnPath g s
    → s.stack ≡ []
    → is_some (get g task) ≡ true
    → IsOnPath g (record s { stack = (task, false) ∷ [] })
begun-IsOnPath g task s i empty p = record {
  chained = tt;
  planned = rw p refl;
  same = λ x. i.same x ∙ ap (λ l. has x (leaves l)) empty;
  once = refl;
}

search_all_cases :
    (fuel : ℕ) (g : Graph) (tasks : List String) (s : Search)
    → IsClosed g
    → IsOnPath g s
    → s.stack ≡ []
    → all (λ d. is_some (get g d)) tasks ≡ true
    → HasCycle g
      ⊎ ((search_all fuel g tasks s ≡ err out_of_fuel)
          ⊎ ((t : Search) × (search_all fuel g tasks s ≡ ok t)))
unfolding search_all
search_all_cases fuel g [] s c i empty p = inr (inr (s, refl))
search_all_cases fuel g (task ∷ tasks) s c i empty p =
    let first = and_left (is_some (get g task)) (all (λ d. is_some (get g d)) tasks) p in
    let others = and_right (is_some (get g task)) (all (λ d. is_some (get g d)) tasks) p in
    elim (Bool-cases (has task s.visited)) [
      | inl seen ↦ rw seen (search_all_cases fuel g tasks s c i empty others)
      | inr fresh ↦
          elim (search_cases fuel g (record s { stack = (task, false) ∷ [] }) c
            (begun-IsOnPath g task s i empty first)) [
              | inl cycle ↦ inl cycle
              | inr (inl spent) ↦ inr (inl (rw (fresh, spent) refl))
              | inr (inr (t, done, k, done_empty)) ↦
                  rw (fresh, done) (search_all_cases fuel g tasks t c k done_empty others)
            ]
    ]

all_planned :
    (g : Graph) (xs : List String)
    → ((x : String) → has x xs ≡ true → is_some (get g x) ≡ true)
    → all (λ d. is_some (get g d)) xs ≡ true
all_planned g [] h = refl
all_planned g (x ∷ xs) h =
    ground (arith, h x, ==_refl x, all_planned g xs (λ y k. h y (ground (arith, k))))

fine-IsClosed : (g : Graph) → all (deps_fine g) g ≡ true → IsClosed g
fine-IsClosed g h x deps e =
    and_right (all bounded_text deps && distinct deps) (all (λ d. is_some (get g d)) deps)
      (get-all (λ k v. deps_fine g (k, v)) g x deps h e)

tasks_planned : (g : Graph) → all (λ d. is_some (get g d)) (sorted (keys g)) ≡ true
tasks_planned g =
    all_planned g (sorted (keys g))
      (λ x k. has-keys g x ∙ sym (has-sort_by (λ a b. before (codes a) (codes b)) x (keys g)) ∙ k)

new_search-IsOnPath : (g : Graph) → IsOnPath g new_search
new_search-IsOnPath g = record { chained = tt; planned = refl; same = λ x. refl; once = refl }

-- A plan whose checks hold gets an order, unless a task of it depends on itself, over one
-- dependency or several.
pub cycle_or_order :
    (dependencies acceptance_criteria : Graph)
    → plan_fine dependencies acceptance_criteria ≡ true
    → HasCycle dependencies
      ⊎ ((order : List String) × (validate_task_dag dependencies acceptance_criteria ≡ ok order))
unfolding validate_task_dag plan_fine order_tasks
cycle_or_order dependencies acceptance_criteria fine =
    let fuel = suc (suc (plan_size dependencies)) in
    let closed = fine-IsClosed dependencies (ground (arith, fine)) in
    elim (search_all_cases fuel dependencies (sorted (keys dependencies)) new_search closed
      (new_search-IsOnPath dependencies) refl (tasks_planned dependencies)) [
        | inl cycle ↦ inl cycle
        | inr (inl spent) ↦
            absurd (validation_terminates dependencies acceptance_criteria (rw (fine, spent) refl))
        | inr (inr (t, done)) ↦ inr (t.result, rw (fine, done) refl)
      ]
