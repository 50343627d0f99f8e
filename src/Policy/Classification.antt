-- ===== src/Policy/Classification.antt =====
-- subagentbridge/policy/classification.py: the classification of an operation that a worker asks
-- for. `sha256` and `dumps`, json.dumps of the request's fields, are parameters.
pub mod Gates
mod Examples
use subagent_bridge.Prelude.{
  ℕ, String, Bool, true, false, not, ◌&&◌, ◌||◌, Option, none, some, List, [], ◌∷◌, length, any,
  all, is_empty, strs_eq, ltb, leb, ◌==◌, if◌then◌else◌,
}
use subagent_bridge.Prelude.Exec.{Result, ok, err, value_error}
use subagent_bridge.Prelude.Dict.{Dict, get}
use subagent_bridge.Prelude.Text.{is_blank, strips_to_nothing, text_length, has_control}

pub data GateCategory : Type 0 where
  auth dependency ci_deploy destructive push egress outside_workspace : GateCategory
  qa_change waiver budget tradeoff read unknown : GateCategory

pub record OperationRequest : Type 0 where
  pub task_id : String
  pub dispatch_id : String
  pub policy_revision : String
  pub operation : String
  pub argv : List String
  pub resource : String

abbrev pub bounded : ℕ → String → Bool
bounded limit s = not (strips_to_nothing s || ltb limit (text_length s) || has_control s)

abbrev pub argument_ok : String → Bool
argument_ok s = not (is_blank s) && leb (text_length s) 4096 && not (has_control s)

unfoldable pub request_ok : OperationRequest → Bool
request_ok r =
    bounded 256 r.task_id
    && bounded 256 r.dispatch_id
    && bounded 256 r.policy_revision
    && bounded 256 r.operation
    && bounded 4096 r.resource
    && leb (length r.argv) 64
    && all argument_ok r.argv

unfoldable pub make_request : OperationRequest → Result OperationRequest
make_request r = if request_ok r then ok r else err value_error

pub record GateDecision : Type 0 where
  pub category : GateCategory
  pub human_gate_required : Bool
  pub execution_authorized : Bool

unfoldable pub fingerprint :
    (String → String)
    → (String → String → String → String → List String → String → String)
    → OperationRequest
    → String
fingerprint sha256 dumps r =
    sha256 (dumps r.task_id r.dispatch_id r.policy_revision r.operation r.argv r.resource)

unfoldable pub rules : Dict GateCategory
rules =
    ("auth.change", auth)
    ∷ ("secret.read", auth)
    ∷ ("credential.write", auth)
    ∷ ("dependency.install", dependency)
    ∷ ("dependency.change", dependency)
    ∷ ("ci.modify", ci_deploy)
    ∷ ("deploy", ci_deploy)
    ∷ ("file.delete", destructive)
    ∷ ("branch.delete", destructive)
    ∷ ("data.migrate", destructive)
    ∷ ("git.push", push)
    ∷ ("git.force_push", push)
    ∷ ("git.rewrite", push)
    ∷ ("network.new_host", egress)
    ∷ ("file.write_outside_workspace", outside_workspace)
    ∷ ("qa.tests.modify", qa_change)
    ∷ ("qa.criteria.modify", qa_change)
    ∷ ("qa.waive", waiver)
    ∷ ("budget.override", budget)
    ∷ ("retry.limit_exceeded", budget)
    ∷ ("tradeoff.material", tradeoff)
    ∷ ("file.read", read)
    ∷ ("task.inspect", read)
    ∷ []

abbrev pub inspection_argv : List (List String)
inspection_argv =
    ("git" ∷ "status" ∷ "--porcelain" ∷ [])
    ∷ ("git" ∷ "rev-parse" ∷ "HEAD" ∷ [])
    ∷ ("git" ∷ "rev-parse" ∷ "HEAD^{tree}" ∷ [])
    ∷ []

abbrev pub is_listed : List String → Bool
is_listed argv = any (λ x. strs_eq x argv) inspection_argv

abbrev pub is_read : GateCategory → Bool
is_read read = true
is_read _ = false

-- `_RULES.get(operation, GateCategory.UNKNOWN)`
abbrev pub or_unknown : Option GateCategory → GateCategory
or_unknown none = unknown
or_unknown (some c) = c

-- `GateDecision(category, human_gate_required)` with the default: nothing is authorized.
abbrev pub decision : GateCategory → Bool → GateDecision
decision category human = record {
  category = category;
  human_gate_required = human;
  execution_authorized = false;
}

unfoldable pub classify : OperationRequest → GateDecision
classify r =
    let category = or_unknown (get rules r.operation) in
    if is_read category && r.operation == "file.read" && not (is_empty r.argv)
    then decision unknown true
    else if is_read category
        && r.operation == "task.inspect"
        && not (is_empty r.argv)
        && not (is_listed r.argv)
    then decision unknown true
    else decision category (not (is_read category))
