-- ===== src/Engine/Execution.antt =====
-- The execution of a token at its element (ExecuteToken of src/process/engine.go). The definitions
-- of the processes are what the storage holds of those that can be parsed. The registry of the
-- executors is a parameter: it gives an executor for a type and an element.
use atom_engine.Base.{String, Bool, Option, none, some, Dict, lookup, str_eq, if◌then◌else◌}
use atom_engine.Token.{Token, TokenState, Value, move_to, set_state}
use atom_engine.Engine.{Engine, ExecutionResult, call, cancel_boundary_timers, save_token}
use atom_engine.Engine.Elements.{member}
use atom_engine.Engine.Processor.{
  Answer, Env, Outcome, executes, process_execution_result, update_and,
}
use atom_engine.Engine.Exclusive.{execute_exclusive}

-- What an executor leaves: the token, which it shares, the engine, and the result; `none` is an error.
pub record Execution : Type 0 where
  pub token : Token
  pub engine : Engine
  pub result : Option ExecutionResult

abbrev pub Executor : Type 0
Executor = Token → Value → Engine → Execution

-- The executor of the exclusive gateways; it loads the process of the token.
abbrev pub exclusive_executor :
    (Dict Value → String → Bool) → Dict (Dict Value) → Token → Value → Engine → Execution
exclusive_executor evaluate definitions token element s = record {
  token = token;
  engine = s;
  result =
      some
        (execute_exclusive evaluate token.variables (lookup token.process_key definitions) element);
}

pub data Refusal : Type 0 where
  no_definition no_element no_target_ref invalid_target_ref invalid_element : Refusal
  no_type no_executor execution_failed : Refusal

-- A call that ends before the result of an executor is processed, or the answer of the processing.
pub data Reply : Type 0 where
  refused : Refusal → Reply
  answered : Answer → Reply

pub record Done : Type 0 where
  pub token : Token
  pub engine : Engine
  pub reply : Reply

abbrev pub refuse : Refusal → Token → Engine → Done
refuse r token s = record { token = token; engine = s; reply = refused r }

abbrev pub answer_of : Outcome → Done
answer_of o = record { token = o.token; engine = o.engine; reply = answered o.answer }

-- A sequence flow: the token goes to its target.
unfoldable pub follow_flow : Env → Token → Option Value → Engine → Done
unfolding update_and
follow_flow e token none s = refuse no_target_ref token s
follow_flow e token (some (Value.text target)) s =
    let moved = move_to e.now target token in answer_of (update_and (executes moved) moved s)
follow_flow e token (some v) s = refuse invalid_target_ref token s

-- The boundary timers of a token that fails are canceled; a failed save is logged.
unfoldable pub fail_token : Env → Token → Engine → Done
fail_token e token s =
    let called = call (cancel_boundary_timers token.token_id) s in
    let failed_token = set_state e.now TokenState.failed token in
    elim (save_token failed_token called) [
      | none ↦ refuse execution_failed failed_token called
      | some s' ↦ refuse execution_failed failed_token s'
    ]

-- From `executor.Execute` on.
unfoldable pub finish_execution : Env → Dict Value → Execution → Done
unfolding fail_token process_execution_result
finish_execution e elements x = elim x.result [
  | none ↦ fail_token e x.token x.engine
  | some result ↦ answer_of (process_execution_result e x.token result elements x.engine)
]

module _ (executors : String → Value → Option Executor) where
  -- From the type of the element on.
  unfoldable pub execute_type : Env → Dict Value → Token → String → Value → Engine → Done
  unfolding follow_flow finish_execution
  execute_type e elements token type element s =
      if str_eq type "sequenceFlow"
      then follow_flow e token (member "target_ref" element) s
      else elim (executors type element) [
        | none ↦ refuse no_executor token s
        | some executor ↦ finish_execution e elements (executor token element s)
      ]

  unfoldable pub execute_element : Env → Dict Value → Token → Value → Engine → Done
  unfolding execute_type
  execute_element e elements token (Value.object fields) s =
      type_or_refuse (member "type" (Value.object fields))
    where
      type_or_refuse : Option Value → Done
      type_or_refuse (some (Value.text type)) =
          execute_type e elements token type (Value.object fields) s
      type_or_refuse _ = refuse no_type token s
  execute_element e elements token v s = refuse invalid_element token s

  unfoldable pub execute_token : Env → Dict (Dict Value) → Token → Engine → Done
  unfolding execute_element
  execute_token e definitions token s = elim (lookup token.process_key definitions) [
    | none ↦ refuse no_definition token s
    | some elements ↦ elim (lookup token.current_element_id elements) [
      | none ↦ refuse no_element token s
      | some element ↦ execute_element e elements token element s
    ]
  ]
