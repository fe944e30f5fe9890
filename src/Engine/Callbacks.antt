-- ===== src/Engine/Callbacks.antt =====
-- The callback of a message for a token that waits (src/process/unified_message_manager.go), with the
-- helper of all callbacks (src/process/callback_helper.go), the movement of a token
-- (src/process/token_movement.go) and what it reads of a process (src/process/bpmn_helper.go). The
-- component is ready, and the definitions are those of the storage that can be parsed.
use atom_engine.Base.{
  String, Bool, ◌&&◌, Option, none, some, List, [], ◌∷◌, Dict, lookup, str_eq, if◌then◌else◌,
}
use atom_engine.Token.{Token, TokenState, Value, clear_waiting_for, is_waiting, set_state}
use atom_engine.Engine.{Engine, call, cancel_boundary_timers, load_token, save_token}
use atom_engine.Engine.Elements.{field_of}
use atom_engine.Engine.Exclusive.{flows_of}
use atom_engine.Engine.Processor.{
  Answer, Env, Outcome, done, merge_result, move_token_to_next_elements, update_and,
}
use atom_engine.Messages.Targets.{message_wait}

pub data CallbackError : Type 0 where
  not_waiting save_failed no_process no_current_element no_target timer_not_loaded : CallbackError

-- An error before the token moves, or what its movement ends with.
pub data CallbackAnswer : Type 0 where
  rejected : CallbackError → CallbackAnswer
  moved : Answer → CallbackAnswer

pub record Callback : Type 0 where
  pub engine : Engine
  pub answer : CallbackAnswer

abbrev pub reject : CallbackError → Engine → Callback
reject r s = record { engine = s; answer = rejected r }

abbrev pub moved_by : Outcome → Callback
moved_by o = record { engine = o.engine; answer = moved o.answer }

abbrev pub waits_for : String → Token → Bool
waits_for expected t = is_waiting t && str_eq t.waiting_for expected

-- Each error is `none`.
unfoldable pub load_and_validate_token : String → String → Engine → Option Token
load_and_validate_token token_id expected s = elim (load_token token_id s) [
  | none ↦ none
  | some t ↦ if waits_for expected t then some t else none
]

-- An element that is no map is an error.
abbrev pub get_element_outgoing_flows : Option Value → Option (List String)
get_element_outgoing_flows (some (Value.object fields)) =
    some (flows_of (field_of "outgoing" fields))
get_element_outgoing_flows _ = none

unfoldable pub complete_moved_token : Env → Token → Engine → Outcome
unfolding update_and
complete_moved_token e token s =
    update_and done (set_state e.now TokenState.completed token)
      (call (cancel_boundary_timers token.token_id) s)

-- From `if len(outgoingFlows) == 0` on.
unfoldable pub move_along : Env → Token → List String → Dict Value → Engine → Outcome
unfolding complete_moved_token move_token_to_next_elements
move_along e token [] elements s = complete_moved_token e token s
move_along e token (flow ∷ rest) elements s =
    move_token_to_next_elements e token (flow ∷ rest) elements s

-- `MoveTokenToNextElements` of the movement of a token.
unfoldable pub move_from : Env → Dict (Dict Value) → Token → String → Engine → Callback
unfolding move_along
move_from e definitions token element_id s = elim (lookup token.process_key definitions) [
  | none ↦ reject no_process s
  | some elements ↦ elim (get_element_outgoing_flows (lookup element_id elements)) [
    | none ↦ reject no_current_element s
    | some flows ↦ moved_by (move_along e token flows elements s)
  ]
]

-- `variables` is `none` where the source has nil. A failed cancellation of the timers is logged.
unfoldable pub process_callback_and_continue :
    Env → Dict (Dict Value) → Token → String → Option (Dict Value) → Engine → Callback
unfolding move_from
process_callback_and_continue e definitions token element_id variables s =
    let resumed = merge_result e.now variables (clear_waiting_for e.now token) in
    let called = call (cancel_boundary_timers token.token_id) s in
    let current = resumed.current_element_id in
    elim (save_token resumed called) [
      | none ↦ reject save_failed called
      | some s' ↦
          move_from e definitions resumed (if str_eq current "" then element_id else current) s'
    ]

unfoldable pub handle_intermediate_catch_message_callback :
    Env → Dict (Dict Value) → String → String → Option (Dict Value) → Engine → Callback
unfolding load_and_validate_token process_callback_and_continue
handle_intermediate_catch_message_callback e definitions message_name token_id variables s =
    elim (load_and_validate_token token_id (message_wait message_name) s) [
      | none ↦ reject not_waiting s
      | some token ↦
          process_callback_and_continue e definitions token token.current_element_id variables s
    ]
