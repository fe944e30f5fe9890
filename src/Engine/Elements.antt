-- ===== src/Engine/Elements.antt =====
-- What the engine reads of the elements of a parsed process (findTargetElementByFlowID and
-- isActivityElement of src/process/execution_processor.go). An element is what JSON decodes to; the
-- source walks the map of the elements in an order that Go leaves open.
use atom_engine.Base.{
  String, Bool, false, ◌||◌, Option, none, some, List, [], ◌∷◌, Dict, lookup, str_eq, if◌then◌else◌,
}
use atom_engine.Token.{Value, Values, Fields}

abbrev pub field_of : String → Fields → Option Value
field_of name Fields.end = none
field_of name (Fields.field key value rest) =
    if str_eq key name then some value else field_of name rest

-- `m[name]` where the value is a map.
abbrev pub member : String → Value → Option Value
member name (Value.object fields) = field_of name fields
member name _ = none

abbrev pub is_text : String → Value → Bool
is_text s (Value.text t) = str_eq t s
is_text s _ = false

abbrev pub holds_text : String → Values → Bool
holds_text s Values.nil = false
holds_text s (Values.cons v rest) = is_text s v || holds_text s rest

abbrev pub names_flow : String → Option Value → Bool
names_flow flow_id none = false
names_flow flow_id (some (Value.array items)) = holds_text flow_id items
names_flow flow_id (some v) = is_text flow_id v

-- The empty text is no target.
unfoldable pub find_target_element_by_flow_id : String → Dict Value → String
find_target_element_by_flow_id flow_id [] = ""
find_target_element_by_flow_id flow_id ((element_id, element) ∷ rest) =
    if names_flow flow_id (member "incoming" element)
    then element_id
    else find_target_element_by_flow_id flow_id rest

abbrev pub activity_types : List String
activity_types =
    "serviceTask" ∷ "userTask" ∷ "scriptTask" ∷ "sendTask" ∷ "receiveTask" ∷ "manualTask"
    ∷ "businessRuleTask" ∷ "callActivity" ∷ "subProcess" ∷ "task" ∷ []

abbrev pub is_one_of : Option Value → List String → Bool
is_one_of none types = false
is_one_of (some v) [] = false
is_one_of (some v) (t ∷ types) = is_text t v || is_one_of (some v) types

unfoldable pub is_activity_element : String → Dict Value → Bool
is_activity_element element_id elements = elim (lookup element_id elements) [
  | none ↦ false
  | some element ↦ is_one_of (member "type" element) activity_types
]

-- The loop of `moveTokenToNextElements`: a flow without a target is logged.
unfoldable pub target_elements : List String → Dict Value → List String
unfolding find_target_element_by_flow_id
target_elements [] elements = []
target_elements (flow_id ∷ rest) elements =
    let targets = target_elements rest elements in
    let target = find_target_element_by_flow_id flow_id elements in
    if str_eq target "" then targets else target ∷ targets
