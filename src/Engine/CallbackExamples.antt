-- ===== src/Engine/CallbackExamples.antt =====
-- A token that waits for a message, in a process that goes on over an exclusive gateway to an element
-- where it waits for another message.
use mathlib.Core.Option.{some_inj}
use atom_engine.Base.{
  ◌≡◌, refl, subst, if_cases, if◌then◌else◌, String, true, false, Option, none, some, insert, [],
  ◌∷◌, Dict, lookup, str_eq,
}
use atom_engine.Token.{
  Token, Value, Fields, clear_waiting_for, move_to, is_waiting, new_token, set_waiting_for,
}
use atom_engine.Engine.{Engine, ExecutionResult, load_token, save_token}
use atom_engine.Engine.Awaits.{awaits}
use atom_engine.Engine.Chain.{execute_chain, executed}
use atom_engine.Engine.Elements.{is_activity_element, target_elements}
use atom_engine.Engine.Exclusive.{execute_exclusive}
use atom_engine.Engine.Execution.{Executor, exclusive_executor}
use atom_engine.Engine.Executions.{exclusive_executor-LeavesFree, LeavesFree, NoneAsks}
use atom_engine.Engine.Outcomes.{AsksElse}
use atom_engine.Engine.Processor.{Env}
use atom_engine.Engine.Callbacks.{handle_intermediate_catch_message_callback}

abbrev paid : Value
paid = Value.object (Fields.field "outgoing" (Value.text "next") Fields.end)

abbrev ship : Value
ship = Value.object (
    Fields.field "type" (Value.text "intermediateCatchEvent")
      (Fields.field "incoming" (Value.text "onward") Fields.end))

abbrev choose : Value
choose = Value.object (
    Fields.field "type" (Value.text "exclusiveGateway") (
      Fields.field "incoming" (Value.text "next")
        (Fields.field "outgoing" (Value.text "onward") Fields.end)))

abbrev definitions : Dict (Dict Value)
definitions = ("order", ("paid", paid) ∷ ("choose", choose) ∷ ("ship", ship) ∷ []) ∷ []

abbrev token : Token
unfolding new_token set_waiting_for
token = set_waiting_for 11 "message:paid" (new_token "t1" 10 "i" "order" "paid")

abbrev engine : Engine
engine = record {
  tokens = ("t1", token) ∷ [];
  instances = [];
  token_read_fails = false;
  token_write_fails = false;
  instance_read_fails = false;
  instance_write_fails = false;
  create_timer_fails = false;
  calls = [];
}

abbrev env : Env
env = record { now = 20; fresh_id = λ n. "c" }

-- What an executor answers that makes a token wait.
abbrev waiting_result : String → ExecutionResult
waiting_result other = record {
  success = true;
  token_updated = true;
  next_elements = [];
  new_tokens = [];
  variables = none;
  waiting_for = other;
  completed = false;
  error = "";
  timer_request = none;
  is_timer_callback = false;
}

abbrev pub waiting_executors : Dict (Dict Value) → String → String → Value → Option Executor
waiting_executors processes other type element = some (
    if str_eq type "exclusiveGateway"
    then exclusive_executor (λ variables condition. false) processes
    else (λ t element s. record { token = t; engine = s; result = some (waiting_result other) }))

pub waiting_executors-NoneAsks :
    (processes : Dict (Dict Value)) (wait id other : String)
    → str_eq "" wait ≡ false
    → str_eq other wait ≡ false
    → NoneAsks wait id (waiting_executors processes other)
waiting_executors-NoneAsks processes wait id other named differs type element executor chosen t s
      idle free =
    subst (λ (x : Executor). LeavesFree wait id (x t element s)) (some_inj.0 chosen)
      (if_cases (λ (x : Executor). LeavesFree wait id (x t element s))
        (str_eq type "exclusiveGateway")
        (λ _.
          exclusive_executor-LeavesFree wait named id (λ variables condition. false) processes t
            element s idle free)
        (λ _. record {
          engine = free;
          token = idle;
          result = λ r given.
              subst (AsksElse wait) (some_inj.0 given) (record { waits = differs; children = tt });
        }))

abbrev resumed : Engine
unfolding handle_intermediate_catch_message_callback execute_chain
resumed =
    executed (waiting_executors definitions "message:shipped") env definitions 3
      (handle_intermediate_catch_message_callback env definitions "paid" "t1" none engine)

-- The executions after the callback have made the token wait for the other message.
waits_for_shipped : awaits "message:shipped" (lookup "t1" resumed.tokens) ≡ true
unfolding lookup resumed load_token is_waiting token save_token clear_waiting_for target_elements
    is_activity_element move_to insert execute_exclusive
waits_for_shipped = refl
