-- ===== src/Planner/Plan.antt =====
-- subagentbridge/planner/budget.py: `validate_task_dag`, the iterative depth-first search over the
-- dependencies of a task plan. A stack is its top first; an entry is (node, leaving).
mod Examples
pub mod Fuel
pub mod Order
pub mod Cycles
pub mod Acyclic
pub mod Sound
pub mod Validated
use subagent_bridge.Prelude.{
  ℕ, zero, suc, ◌+◌, String, Bool, true, false, not, ◌&&◌, ◌||◌, Option, none, some, List, [], ◌∷◌,
  ◌++◌, length, map, any, all, has, distinct, is_some, is_empty, keep_if, ltb, nat_eq, ◌==◌,
  if◌then◌else◌,
}
use subagent_bridge.Prelude.Exec.{Error, Result, ok, err, value_error, key_error, out_of_fuel}
use subagent_bridge.Prelude.Text.{codes, strips_to_nothing, text_length}
use subagent_bridge.Prelude.Dict.{Dict, get}
use subagent_bridge.Prelude.Order.{sort_by}

abbrev pub Graph : Type 0
Graph = Dict (List String)

pub record Search : Type 0 where
  pub stack : List (String × Bool)
  pub visiting : List String
  pub visited : List String
  pub result : List String

-- `for dep in reversed(deps): if dep not in visited: stack.append((dep, False))`
abbrev pub push_deps : List String → List String → List (String × Bool) → List (String × Bool)
push_deps visited [] stack = stack
push_deps visited (dep ∷ deps) stack =
    let rest = push_deps visited deps stack in if has dep visited then rest else (dep, false) ∷ rest

abbrev pub without : String → List String → List String
without node xs = keep_if (λ x. not (x == node)) xs

abbrev pub left : String → Search → Search
left node s = record s {
  visiting = without node s.visiting;
  visited = node ∷ s.visited;
  result = s.result ++ node ∷ [];
}

abbrev pub entered : String → List String → Search → Search
entered node deps s = record s {
  visiting = node ∷ s.visiting;
  stack = push_deps s.visited deps ((node, true) ∷ s.stack);
}

-- `graph[node]`
abbrev pub enter : Option (List String) → String → Search → Result Search
enter none node s = err key_error
enter (some deps) node s = ok (entered node deps s)

-- The body of the while loop after `node, leaving = stack.pop()`; `remove` raises KeyError.
unfoldable pub step : Graph → String → Bool → Search → Result Search
step g node true s = if has node s.visiting then ok (left node s) else err key_error
step g node false s =
    if has node s.visiting
    then err value_error
    else if has node s.visited
    then ok s
    else enter (get g node) node s

abbrev pub and_then {ℓ κ} : {A : Type ℓ} {B : Type κ} → Result A → (A → Result B) → Result B
and_then (ok a) f = f a
and_then (err e) f = err e

-- `while stack`
unfoldable pub search : ℕ → Graph → Search → Result Search
search zero g s = err out_of_fuel
search (suc n) g s = elim s.stack [
  | [] ↦ ok s
  | (node, leaving) ∷ rest ↦
      and_then (step g node leaving (record s { stack = rest })) (λ t. search n g t)
]

-- `for task in sorted(graph)`
unfoldable pub search_all : ℕ → Graph → List String → Search → Result Search
search_all fuel g [] s = ok s
search_all fuel g (task ∷ tasks) s =
    let skipped = search_all fuel g tasks s in
    let started = search fuel g (record s { stack = (task, false) ∷ [] }) in
    if has task s.visited then skipped else and_then started (λ t. search_all fuel g tasks t)

-- Python's order of texts, by code points.
abbrev pub before : List ℕ → List ℕ → Bool
before [] [] = false
before [] (b ∷ bs) = true
before (a ∷ more) [] = false
before (a ∷ more) (b ∷ bs) = let rest = before more bs in ltb a b || nat_eq a b && rest

abbrev pub keys {ℓ} : {V : Type ℓ} → Dict V → List String
keys [] = []
keys ((k, v) ∷ d) = k ∷ keys d

abbrev pub sorted : List String → List String
sorted xs = sort_by (λ a b. before (codes a) (codes b)) xs

abbrev pub new_search : Search
new_search = record { stack = []; visiting = []; visited = []; result = [] }

-- The fuel of a search: each task is entered and left once, and each dependency is popped once.
unfoldable pub plan_size : Graph → ℕ
plan_size [] = 0
plan_size ((k, deps) ∷ g) = suc (length deps) + plan_size g

unfoldable pub order_tasks : Graph → Result (List String)
order_tasks g =
    and_then (search_all (suc (suc (plan_size g))) g (sorted (keys g)) new_search)
      (λ s. ok s.result)

abbrev pub bounded_text : String → Bool
bounded_text s = not (strips_to_nothing s) && not (ltb 256 (text_length s))

abbrev pub same_keys : Graph → Graph → Bool
same_keys a b = all (λ k. has k (keys b)) (keys a) && all (λ k. has k (keys a)) (keys b)

abbrev pub criteria_fine : String × List String → Bool
criteria_fine r =
    not (strips_to_nothing r.0)
    && not (is_empty r.1)
    && not (any strips_to_nothing r.1)
    && distinct r.1

abbrev pub deps_fine : Graph → String × List String → Bool
deps_fine g r = all bounded_text r.1 && distinct r.1 && all (λ d. is_some (get g d)) r.1

unfoldable pub plan_fine : Graph → Graph → Bool
plan_fine dependencies acceptance_criteria =
    not (is_empty dependencies)
    && same_keys dependencies acceptance_criteria
    && all bounded_text (keys dependencies)
    && all criteria_fine acceptance_criteria
    && all (deps_fine dependencies) dependencies

unfoldable pub validate_task_dag : Graph → Graph → Result (List String)
validate_task_dag dependencies acceptance_criteria =
    let order = order_tasks dependencies in
    if plan_fine dependencies acceptance_criteria then order else err value_error
