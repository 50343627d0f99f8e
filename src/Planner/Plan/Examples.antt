-- ===== src/Planner/Plan/Examples.antt =====
-- Plans, and the theorems of this part at them.
use subagent_bridge.Prelude.{◌≡◌, ◌≢◌, ◌⊎◌, refl, true, List, [], ◌∷◌, String}
use subagent_bridge.Prelude.Exec.{ok, err, value_error, out_of_fuel}
use subagent_bridge.Prelude.Text.{strips_to_nothing, text_length}
use subagent_bridge.Prelude.Dict.{get}
use subagent_bridge.Planner.Plan.{
  Graph, step, search, search_all, plan_size, order_tasks, plan_fine, validate_task_dag,
}
use subagent_bridge.Planner.Plan.Fuel.{validation_terminates}
use subagent_bridge.Planner.Plan.Acyclic.{HasCycle, cycle_or_order}
use subagent_bridge.Planner.Plan.Validated.{IsTopological, validate_task_dag-IsTopological}

abbrev plan : Graph
plan = ("ship", "test" ∷ "build" ∷ []) ∷ ("test", "build" ∷ []) ∷ ("build", []) ∷ []

abbrev criteria : Graph
criteria =
    ("build", "compiles" ∷ [])
    ∷ ("test", "passes" ∷ "covers" ∷ [])
    ∷ ("ship", "published" ∷ [])
    ∷ []

plan_is_ordered : validate_task_dag plan criteria ≡ ok ("build" ∷ "test" ∷ "ship" ∷ [])
unfolding validate_task_dag plan_fine order_tasks search_all search step plan_size strips_to_nothing
    text_length get
plan_is_ordered = refl

abbrev circle : Graph
circle = ("ship", "test" ∷ []) ∷ ("test", "build" ∷ []) ∷ ("build", "ship" ∷ []) ∷ []

circle_is_refused : validate_task_dag circle criteria ≡ err value_error
unfolding validate_task_dag plan_fine order_tasks search_all search step plan_size strips_to_nothing
    text_length get
circle_is_refused = refl

validate_task_dag-IsTopological_example : IsTopological plan ("build" ∷ "test" ∷ "ship" ∷ [])
validate_task_dag-IsTopological_example =
    validate_task_dag-IsTopological plan criteria ("build" ∷ "test" ∷ "ship" ∷ []) plan_is_ordered

validation_terminates_example : validate_task_dag circle criteria ≢ err out_of_fuel
validation_terminates_example = validation_terminates circle criteria

circle_is_fine : plan_fine circle criteria ≡ true
unfolding plan_fine strips_to_nothing text_length get
circle_is_fine = refl

cycle_or_order_example :
    HasCycle circle ⊎ ((order : List String) × (validate_task_dag circle criteria ≡ ok order))
cycle_or_order_example = cycle_or_order circle criteria circle_is_fine
