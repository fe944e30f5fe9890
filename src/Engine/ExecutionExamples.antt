-- ===== src/Engine/ExecutionExamples.antt =====
-- One execution of a token, at an exclusive gateway and at a task that fails.
use atom_engine.Base.{
  ◌≡◌, ◌++◌, refl, String, Bool, false, Option, none, some, [], ◌∷◌, Dict, lookup, insert, str_eq,
  if◌then◌else◌,
}
use atom_engine.Token.{Token, TokenState, Value, Values, Fields, new_token, set_state, move_to}
use atom_engine.Engine.{Engine, cancel_boundary_timers}
use atom_engine.Engine.Elements.{find_target_element_by_flow_id}
use atom_engine.Engine.Exclusive.{flow_test}
use atom_engine.Engine.Processor.{Env, executes}
use atom_engine.Engine.Execution.{
  Executor, answered, exclusive_executor, execute_token, execution_failed, refused,
}
use atom_engine.Engine.Steps.{execute_token-exclusive, execute_token-failed}

abbrev is_large : Dict Value → String → Bool
is_large variables expression = str_eq expression "= total > 100"

abbrev flow_list : Value
flow_list =
    Value.array (Values.cons (Value.text "small") (Values.cons (Value.text "large") Values.nil))

abbrev choice : Fields
choice =
    Fields.field "type" (Value.text "exclusiveGateway")
      (Fields.field "outgoing" flow_list Fields.end)

abbrev condition : Value
condition = Value.object (Fields.field "expression" (Value.text "= total > 100") Fields.end)

abbrev task : Fields
task =
    Fields.field "type" (Value.text "serviceTask")
      (Fields.field "incoming" (Value.text "large") Fields.end)

abbrev elements : Dict Value
elements =
    ("choice", Value.object choice)
    ∷ ("small", Value.object Fields.end)
    ∷ ("large", Value.object (Fields.field "condition" condition Fields.end))
    ∷ ("check", Value.object task)
    ∷ []

abbrev definitions : Dict (Dict Value)
definitions = ("order", elements) ∷ []

abbrev failing_executor : Executor
failing_executor token element s = record { token = token; engine = s; result = none }

abbrev executors : String → Value → Option Executor
executors type element =
    if str_eq type "exclusiveGateway"
    then some (exclusive_executor is_large definitions)
    else some failing_executor

abbrev env : Env
env = record { now = 20; fresh_id = λ n. "c" }

abbrev choosing_token : Token
unfolding new_token
choosing_token = new_token "t1" 10 "i" "order" "choice"

abbrev checking_token : Token
unfolding new_token
checking_token = new_token "t1" 10 "i" "order" "check"

abbrev engine : Engine
engine = record {
  tokens = ("t1", choosing_token) ∷ [];
  instances = [];
  token_read_fails = false;
  token_write_fails = false;
  instance_read_fails = false;
  instance_write_fails = false;
  create_timer_fails = false;
  calls = [];
}

execute_token-exclusive_example :
    let moved = move_to 20 "check" choosing_token in
    execute_token executors env definitions choosing_token engine ≡ record {
      token = moved;
      engine = record engine { tokens = insert "t1" moved engine.tokens };
      reply = answered (executes moved);
    }
unfolding lookup flow_test find_target_element_by_flow_id choosing_token
execute_token-exclusive_example =
    execute_token-exclusive executors env definitions is_large elements choosing_token choice engine
      refl refl refl refl flow_list "small" ("large" ∷ []) "check" refl refl (refl, (refl, tt)) refl
      refl refl

execute_token-failed_example :
    let failed_token = set_state 20 TokenState.failed checking_token in
    let o = execute_token executors env definitions checking_token engine in
    (o.token ≡ failed_token)
    × (lookup "t1" o.engine.tokens ≡ some failed_token)
    × (o.engine.calls ≡ [] ++ cancel_boundary_timers "t1" ∷ [])
    × (o.reply ≡ refused execution_failed)
unfolding lookup checking_token
execute_token-failed_example =
    execute_token-failed executors env definitions elements checking_token task engine refl refl
      "serviceTask" failing_executor refl refl refl refl refl
