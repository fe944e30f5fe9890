-- ===== src/Engine/Exclusive.antt =====
-- The exclusive gateway (src/process/exclusive_gateway.go). EvaluateCondition of the expression
-- component is a parameter; it answers false where the component is missing or fails.
use atom_engine.Base.{
  String, Bool, true, false, Option, none, some, List, [], ◌∷◌, Dict, lookup, str_eq, if◌then◌else◌,
}
use atom_engine.Token.{Value, Values}
use atom_engine.Engine.{ExecutionResult}
use atom_engine.Engine.Elements.{member, field_of}

abbrev pub text_items : Values → List String
text_items Values.nil = []
text_items (Values.cons (Value.text s) rest) = s ∷ text_items rest
text_items (Values.cons _ rest) = text_items rest

-- `element["outgoing"]`, a list or one text.
abbrev pub flows_of : Option Value → List String
flows_of (some (Value.array items)) = text_items items
flows_of (some (Value.text s)) = s ∷ []
flows_of _ = []

abbrev pub failure : String → ExecutionResult
failure message = record {
  success = false;
  token_updated = false;
  next_elements = [];
  new_tokens = [];
  variables = none;
  waiting_for = "";
  completed = false;
  error = message;
  timer_request = none;
  is_timer_callback = false;
}

abbrev pub chosen : List String → ExecutionResult
chosen flows = record {
  success = true;
  token_updated = false;
  next_elements = flows;
  new_tokens = [];
  variables = none;
  waiting_for = "";
  completed = false;
  error = "";
  timer_request = none;
  is_timer_callback = false;
}

-- What the loop reads of a flow: nothing that it can use, no condition, or an expression.
pub data FlowTest : Type 0 where
  skipped : FlowTest
  unconditional : FlowTest
  conditional : String → FlowTest

abbrev pub expression_of : Option Value → FlowTest
expression_of (some (Value.text e)) = if str_eq e "" then skipped else conditional e
expression_of _ = skipped

-- The condition in `sequence_flow` takes the place of the direct one.
abbrev pub condition_of : Option Value → Option Value → Option Value
condition_of direct none = direct
condition_of direct (some sequence_flow) = elim (member "condition" sequence_flow) [
  | none ↦ direct
  | some c ↦ some c
]

abbrev pub test_condition : Option Value → FlowTest
test_condition none = unconditional
test_condition (some c) = expression_of (member "expression" c)

abbrev pub test_element : Option Value → FlowTest
test_element (some (Value.object flow)) =
    test_condition (condition_of (field_of "condition" flow) (field_of "sequence_flow" flow))
test_element _ = skipped

unfoldable pub flow_test : Dict Value → String → FlowTest
flow_test elements flow_id = test_element (lookup flow_id elements)

abbrev pub next_default : FlowTest → String → String → String
next_default unconditional flow_id default_flow =
    if str_eq default_flow "" then flow_id else default_flow
next_default _ flow_id default_flow = default_flow

-- The default flow, or else the first flow.
abbrev pub or_first : String → String → String
or_first default_flow first = if str_eq default_flow "" then first else default_flow

abbrev pub found_or : String → Option String × String → String
found_or first (some flow_id, _) = flow_id
found_or first (none, default_flow) = or_first default_flow first

module _ (evaluate : Dict Value → String → Bool) (variables : Dict Value) where
  -- A flow whose condition holds ends the loop.
  abbrev pub try_flow : FlowTest → String → String → Option String × String → Option String × String
  try_flow (conditional e) flow_id default_flow later =
      if evaluate variables e then (some flow_id, default_flow) else later
  try_flow _ flow_id default_flow later = later

  -- The loop of `evaluateGatewayConditions`, with the default flow found so far; `none` is the loop
  -- that ends without a condition that holds.
  unfoldable pub first_match : Dict Value → List String → String → Option String × String
  unfolding flow_test
  first_match elements [] default_flow = (none, default_flow)
  first_match elements (flow_id ∷ rest) default_flow =
      let test = flow_test elements flow_id in
      let later = first_match elements rest (next_default test flow_id default_flow) in
      try_flow test flow_id default_flow later

  -- `none` is a process that cannot be loaded; the first flow is then taken.
  unfoldable pub select_flow : Option (Dict Value) → String → List String → String
  unfolding first_match
  select_flow none first rest = first
  select_flow (some elements) first rest = found_or first (first_match elements (first ∷ rest) "")

  unfoldable pub execute_exclusive : Option (Dict Value) → Value → ExecutionResult
  unfolding select_flow
  execute_exclusive elements element = elim (member "outgoing" element) [
    | none ↦ failure "exclusive gateway has no outgoing sequence flows"
    | some outgoing ↦ elim (flows_of (some outgoing)) [
      | [] ↦ failure "exclusive gateway has no valid outgoing sequence flows"
      | first ∷ rest ↦ chosen (select_flow elements first rest ∷ [])
    ]
  ]
