-- ===== src/Engine/Inclusive.antt =====
-- The inclusive gateway (src/process/inclusive_gateway.go). EvaluateCondition of the expression
-- component is a parameter, as for the exclusive gateway.
use atom_engine.Base.{String, Bool, Option, none, some, List, [], ◌∷◌, Dict, str_eq, if◌then◌else◌}
use atom_engine.Token.{Value}
use atom_engine.Engine.{ExecutionResult}
use atom_engine.Engine.Elements.{member}
use atom_engine.Engine.Exclusive.{
  FlowTest, unconditional, conditional, flows_of, failure, chosen, next_default,
}

-- `evaluateFlowCondition`: a condition that cannot be read is none.
abbrev pub read_expression : Option Value → FlowTest
read_expression (some (Value.text e)) = if str_eq e "" then unconditional else conditional e
read_expression _ = unconditional

abbrev pub read_flow : Option Value → FlowTest
read_flow (some flow) = elim (member "conditionExpression" flow) [
  | none ↦ unconditional
  | some condition ↦ read_expression (member "expression" condition)
]
read_flow none = unconditional

unfoldable pub evaluate_flow_condition : Value → String → FlowTest
evaluate_flow_condition element flow_id = elim (member "sequenceFlows" element) [
  | none ↦ unconditional
  | some flows ↦ read_flow (member flow_id flows)
]

-- After the loop.
abbrev pub settle_flows : List String → List String × String → List String
settle_flows flows (flow_id ∷ rest, default_flow) = flow_id ∷ rest
settle_flows flows ([], default_flow) = if str_eq default_flow "" then flows else default_flow ∷ []

module _ (evaluate : Dict Value → String → Bool) (variables : Dict Value) where
  abbrev pub add_flow : FlowTest → String → List String → List String
  add_flow (conditional e) flow_id later = if evaluate variables e then flow_id ∷ later else later
  add_flow _ flow_id later = later

  -- The loop: the selected flows and the default flow.
  unfoldable pub select_flows : Value → List String → String → List String × String
  unfolding evaluate_flow_condition
  select_flows element [] default_flow = ([], default_flow)
  select_flows element (flow_id ∷ rest) default_flow =
      let test = evaluate_flow_condition element flow_id in
      let (later, default') = select_flows element rest (next_default test flow_id default_flow) in
      (add_flow test flow_id later, default')

  unfoldable pub execute_inclusive : Value → ExecutionResult
  unfolding select_flows
  execute_inclusive element = elim (member "outgoing" element) [
    | none ↦ failure "inclusive gateway has no outgoing sequence flows"
    | some outgoing ↦ elim (flows_of (some outgoing)) [
      | [] ↦ failure "inclusive gateway has no valid outgoing sequence flows"
      | first ∷ rest ↦ chosen (settle_flows (first ∷ rest) (select_flows element (first ∷ rest) ""))
    ]
  ]
