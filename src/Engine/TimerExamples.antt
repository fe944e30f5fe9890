-- ===== src/Engine/TimerExamples.antt =====
-- A token that waits for its timer at an event with two flows.
use atom_engine.Base.{refl, true, false, [], ◌∷◌, Dict, lookup}
use atom_engine.Token.{Token, Value, Values, Fields, is_waiting, new_token, set_waiting_for}
use atom_engine.Engine.{Engine, load_token}
use atom_engine.Engine.Callbacks.{load_and_validate_token}
use atom_engine.Engine.Elements.{find_target_element_by_flow_id, target_elements}
use atom_engine.Engine.Processor.{Env}
use atom_engine.Engine.TimerCallbacks.{handle_timer_callback}
use atom_engine.Engine.TimerSteps.{SentTo, handle_timer_callback-first}

abbrev pause : Value
pause = Value.object (
    Fields.field "outgoing"
      (Value.array (Values.cons (Value.text "a") (Values.cons (Value.text "b") Values.nil)))
      Fields.end)

abbrev ship : Value
ship = Value.object (Fields.field "incoming" (Value.text "a") Fields.end)

abbrev bill : Value
bill = Value.object (Fields.field "incoming" (Value.text "b") Fields.end)

abbrev elements : Dict Value
elements = ("pause", pause) ∷ ("ship", ship) ∷ ("bill", bill) ∷ []

abbrev definitions : Dict (Dict Value)
definitions = ("order", elements) ∷ []

abbrev token : Token
unfolding new_token set_waiting_for
token = set_waiting_for 11 "timer:pause" (new_token "t1" 10 "i" "order" "pause")

abbrev engine : Engine
unfolding token
engine = record {
  tokens = ("t1", token) ∷ [];
  instances = [];
  token_read_fails = false;
  token_write_fails = false;
  instance_read_fails = false;
  instance_write_fails = false;
  create_timer_fails = false;
  calls = [];
}

abbrev env : Env
env = record { now = 20; fresh_id = λ n. "c" }

handle_timer_callback-first_example :
    SentTo env definitions token engine "ship"
      (handle_timer_callback env definitions true "pause" "t1" engine)
unfolding load_and_validate_token load_token lookup is_waiting set_waiting_for new_token token
    engine target_elements find_target_element_by_flow_id
handle_timer_callback-first_example =
    handle_timer_callback-first env definitions token engine "pause" pause elements ("a" ∷ "b" ∷ [])
      "ship" ("bill" ∷ []) refl refl refl refl refl refl
