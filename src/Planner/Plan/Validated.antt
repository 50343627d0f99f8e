-- ===== src/Planner/Plan/Validated.antt =====
-- A validated plan: its order is topological.
use subagent_bridge.Prelude.{
  ℕ, suc, String, Bool, true, false, ◌||◌, ◌≡◌, inl, inr, refl, sym, ◌∙◌, subst, List, [], ◌∷◌, has,
  distinct, is_some, arith, eq_iff, ◌==◌, Bool-cases,
}
use subagent_bridge.Prelude.Exec.{ok, err, Result-cases}
use subagent_bridge.Prelude.Text.{codes}
use subagent_bridge.Prelude.Dict.{get}
use subagent_bridge.Prelude.Order.{insert_by, sort_by}
use subagent_bridge.Planner.Plan.{
  Graph, Search, search, search_all, before, keys, sorted, new_search, plan_size, order_tasks,
  plan_fine, validate_task_dag,
}
use subagent_bridge.Planner.Plan.Fuel.{ok_inj}
use subagent_bridge.Planner.Plan.Order.{IsSound, is_ordered}
use subagent_bridge.Planner.Plan.Sound.{search-IsSearched}

-- What the loop over the tasks leaves.
record IsSearchedAll (g : Graph) (tasks : List String) (s t : Search) : Type 0 where
  sound : IsSound g t
  kept : (x : String) → has x s.visited ≡ true → has x t.visited ≡ true
  all_visited : (x : String) → has x tasks ≡ true → has x t.visited ≡ true

begun-IsSound :
    (g : Graph) (task : String) (s : Search)
    → IsSound g s
    → IsSound g (record s { stack = (task, false) ∷ [] })
begun-IsSound g task s i = record {
  waits = refl;
  ordered = i.ordered;
  same = i.same;
  disjoint = i.disjoint;
  once = i.once;
  planned = i.planned;
}

search_all-IsSearchedAll :
    (fuel : ℕ) (g : Graph) (tasks : List String) (s t : Search)
    → IsSound g s
    → search_all fuel g tasks s ≡ ok t
    → IsSearchedAll g tasks s t
unfolding search_all
search_all-IsSearchedAll fuel g [] s t i h =
    subst (λ u. IsSearchedAll g [] s u) (ok_inj h)
      (record { sound = i; kept = λ x k. k; all_visited = λ x k. absurd (ground arith) })
search_all-IsSearchedAll fuel g (task ∷ tasks) s t i h =
    let begun = record s { stack = (task, false) ∷ [] } in
    elim (Bool-cases (has task s.visited)) [
      | inl seen ↦
          let skipped : search_all fuel g (task ∷ tasks) s ≡ search_all fuel g tasks s =
            rw seen refl in
          let others = search_all-IsSearchedAll fuel g tasks s t i (sym skipped ∙ h) in
          record {
            sound = others.sound;
            kept = others.kept;
            all_visited =
                λ x k. ground (arith, k, eq_iff task x, seen, others.kept x, others.all_visited x);
          }
      | inr fresh ↦ elim (Result-cases (search fuel g begun)) [
        | inr (e, bad) ↦
            let failed_so : search_all fuel g (task ∷ tasks) s ≡ err e = rw (fresh, bad) refl in
            absurd (ground (arith, sym failed_so ∙ h))
        | inl (u, done) ↦
            let went : search_all fuel g (task ∷ tasks) s ≡ search_all fuel g tasks u =
              rw (fresh, done) refl in
            let first = search-IsSearched fuel g begun u (begun-IsSound g task s i) done in
            let others = search_all-IsSearchedAll fuel g tasks u t first.sound (sym went ∙ h) in
            record {
              sound = others.sound;
              kept = λ x k. others.kept x (first.tracked x (ground (arith, k)));
              all_visited =
                  λ x k. ground (arith, k, others.kept x, first.tracked x, others.all_visited x);
            }
      ]
    ]

has-insert_by :
    (b : String → String → Bool) (x y : String) (xs : List String)
    → has x (insert_by b y xs) ≡ (y == x || has x xs)
has-insert_by b x y [] = ground arith
has-insert_by b x y (z ∷ xs) = ground (arith, has-insert_by b x y xs)

pub has-sort_by :
    (b : String → String → Bool) (x : String) (xs : List String) → has x (sort_by b xs) ≡ has x xs
has-sort_by b x [] = refl
has-sort_by b x (y ∷ xs) = ground (arith, has-insert_by b x y (sort_by b xs), has-sort_by b x xs)

pub has-keys : (g : Graph) (x : String) → is_some (get g x) ≡ has x (keys g)
unfolding get
has-keys [] x = refl
has-keys ((k, deps) ∷ g) x = ground (arith, has-keys g x)

new_search-IsSound : (g : Graph) → IsSound g new_search
new_search-IsSound g = record {
  waits = refl;
  ordered = refl;
  same = λ x. refl;
  disjoint = λ x k. refl;
  once = refl;
  planned = λ x k. absurd (ground arith);
}

-- The order has exactly the tasks of the plan, each once and after all of its dependencies.
pub record IsTopological (g : Graph) (order : List String) : Type 0 where
  pub ordered : is_ordered g [] order ≡ true
  pub once : distinct order ≡ true
  pub same_tasks : (x : String) → has x order ≡ has x (keys g)

same_bool : (a b : Bool) → (a ≡ true → b ≡ true) → (b ≡ true → a ≡ true) → a ≡ b
same_bool a b f g = ground (arith, f, g)

order_tasks-IsTopological :
    (g : Graph) (order : List String) → order_tasks g ≡ ok order → IsTopological g order
unfolding order_tasks
order_tasks-IsTopological g order h =
    let fuel = suc (suc (plan_size g)) in
    elim (Result-cases (search_all fuel g (sorted (keys g)) new_search)) [
      | inr (e, bad) ↦
          let failed_so : order_tasks g ≡ err e = rw bad refl in
          absurd (ground (arith, sym failed_so ∙ h))
      | inl (t, done) ↦
          let result : order_tasks g ≡ ok t.result = rw done refl in
          let r =
            search_all-IsSearchedAll fuel g (sorted (keys g)) new_search t (new_search-IsSound g)
              done in
          subst (λ o. IsTopological g o) (ok_inj (sym result ∙ h))
            (record {
              ordered = r.sound.ordered;
              once = r.sound.once;
              same_tasks = λ x.
                  sym (r.sound.same x)
                  ∙ same_bool (has x t.visited) (has x (keys g))
                      (λ k. sym (has-keys g x) ∙ r.sound.planned x (ground (arith, k)))
                      (λ k.
                        r.all_visited x
                          (has-sort_by (λ a b. before (codes a) (codes b)) x (keys g) ∙ k));
            })
    ]

-- The order that a validated plan gets has exactly its tasks, each of them once and after all of its
-- dependencies.
pub validate_task_dag-IsTopological :
    (dependencies acceptance_criteria : Graph) (order : List String)
    → validate_task_dag dependencies acceptance_criteria ≡ ok order
    → IsTopological dependencies order
unfolding validate_task_dag
validate_task_dag-IsTopological dependencies acceptance_criteria order h =
    elim (Bool-cases (plan_fine dependencies acceptance_criteria)) [
      | inr bad ↦ absurd (ground (arith, bad, h))
      | inl fine ↦
          let whole : validate_task_dag dependencies acceptance_criteria
              ≡ order_tasks dependencies =
            rw fine refl in
          order_tasks-IsTopological dependencies order (sym whole ∙ h)
    ]
