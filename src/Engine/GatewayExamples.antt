-- ===== src/Engine/GatewayExamples.antt =====
-- An exclusive and an inclusive gateway with two flows.
use atom_engine.Base.{◌≡◌, refl, String, Bool, [], ◌∷◌, Dict, str_eq}
use atom_engine.Token.{Value, Values, Fields}
use atom_engine.Engine.Exclusive.{chosen}
use atom_engine.Engine.Inclusive.{execute_inclusive, evaluate_flow_condition}
use atom_engine.Engine.Branches.{execute_inclusive-flows, execute_inclusive-unread}

abbrev is_large : Dict Value → String → Bool
is_large variables expression = str_eq expression "= total > 100"

abbrev flow_list : Value
flow_list =
    Value.array (Values.cons (Value.text "small") (Values.cons (Value.text "large") Values.nil))

abbrev condition : Value
condition = Value.object (Fields.field "expression" (Value.text "= total > 100") Fields.end)

abbrev gateway : Value
gateway = Value.object (Fields.field "outgoing" flow_list Fields.end)

-- The flow "small" has no condition.
abbrev elements : Dict Value
elements =
    ("small", Value.object Fields.end)
    ∷ ("large", Value.object (Fields.field "condition" condition Fields.end))
    ∷ []

abbrev reading_gateway : Value
reading_gateway = Value.object (
    Fields.field "outgoing" flow_list (
      Fields.field "sequenceFlows"
        (Value.object (
          Fields.field "large"
            (Value.object (Fields.field "conditionExpression" condition Fields.end)) Fields.end))
        Fields.end))

execute_inclusive-flows_example :
    execute_inclusive is_large [] reading_gateway ≡ chosen ("large" ∷ [])
unfolding evaluate_flow_condition
execute_inclusive-flows_example =
    execute_inclusive-flows is_large [] reading_gateway flow_list "small" ("large" ∷ []) refl refl
      (refl, (refl, tt))

execute_inclusive-unread_example : execute_inclusive is_large [] gateway ≡ chosen ("small" ∷ [])
execute_inclusive-unread_example =
    execute_inclusive-unread is_large [] gateway flow_list "small" ("large" ∷ []) refl refl refl
      (refl, (refl, tt))
