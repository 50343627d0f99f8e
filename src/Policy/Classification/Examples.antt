-- ===== src/Policy/Classification/Examples.antt =====
-- Requests, and the theorem of this part at one of them.
use subagent_bridge.Prelude.{◌≡◌, refl, [], ◌∷◌, true, false}
use subagent_bridge.Prelude.Exec.{ok}
use subagent_bridge.Prelude.Dict.{get}
use subagent_bridge.Prelude.Text.{strips_to_nothing, text_length, has_control}
use subagent_bridge.Policy.Classification.{
  OperationRequest, push, unknown, request_ok, make_request, rules, decision, classify,
}
use subagent_bridge.Policy.Classification.Gates.{IsInspection, ungated-IsInspection}

abbrev inspection : OperationRequest
inspection = record {
  task_id = "t-1";
  dispatch_id = "d-1";
  policy_revision = "p-1";
  operation = "task.inspect";
  argv = "git" ∷ "rev-parse" ∷ "HEAD" ∷ [];
  resource = "/w";
}

inspection_is_made : make_request inspection ≡ ok inspection
unfolding make_request request_ok strips_to_nothing text_length has_control
inspection_is_made = refl

-- A push by its own name, and one that is called an inspection.
pushes_need_a_human :
    (classify (record inspection { operation = "git.push" }) ≡ decision push true)
    × (classify (record inspection { argv = "git" ∷ "push" ∷ [] }) ≡ decision unknown true)
unfolding classify get rules
pushes_need_a_human = (refl, refl)

inspection_is_ungated : (classify inspection).human_gate_required ≡ false
unfolding classify get rules
inspection_is_ungated = refl

ungated-IsInspection_example : IsInspection inspection
ungated-IsInspection_example = ungated-IsInspection inspection inspection_is_ungated
