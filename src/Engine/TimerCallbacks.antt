-- ===== src/Engine/TimerCallbacks.antt =====
-- The callbacks of timers (src/process/timer_callbacks.go), with the helper that goes on with given
-- flows (src/process/callback_helper.go). Its search for the target of a flow is that of the
-- execution processor. The component is ready.
use Prim.Native.String.{◌++◌ as str_append}
use atom_engine.Base.{String, Bool, Option, none, some, List, [], ◌∷◌, Dict, lookup, if◌then◌else◌}
use atom_engine.Token.{Token, Value, clear_waiting_for, move_to}
use atom_engine.Engine.{Engine, call, cancel_boundary_timers, cancel_event_timers, save_token}
use atom_engine.Engine.Callbacks.{
  Callback, get_element_outgoing_flows, load_and_validate_token, moved_by, no_current_element,
  no_process, no_target, not_waiting, reject, save_failed, timer_not_loaded,
}
use atom_engine.Engine.Elements.{target_elements}
use atom_engine.Engine.Processor.{Env, executes, merge_result, update_and}

-- From `Find target elements by flow IDs` on: only the first target is taken.
abbrev pub move_to_first : Env → Token → List String → Engine → Callback
move_to_first e t [] s = reject no_target s
move_to_first e t (target ∷ rest) s =
    moved_by (update_and (executes (move_to e.now target t)) (move_to e.now target t) s)

-- A failed cancellation of the timers is logged.
unfoldable pub process_callback_and_continue_with_flows :
    Env → Dict (Dict Value) → Token → List String → Option (Dict Value) → Engine → Callback
unfolding update_and target_elements
process_callback_and_continue_with_flows e definitions t flows variables s =
    let resumed = merge_result e.now variables (clear_waiting_for e.now t) in
    let called =
      call (cancel_event_timers t.token_id) (call (cancel_boundary_timers t.token_id) s) in
    elim (save_token resumed called) [
      | none ↦ reject save_failed called
      | some s' ↦ elim (lookup resumed.process_key definitions) [
        | none ↦ reject no_process s'
        | some elements ↦ move_to_first e resumed (target_elements flows elements) s'
      ]
    ]

-- An element that is no map has no flows.
abbrev pub outgoing_or_none : Option (List String) → List String
outgoing_or_none none = []
outgoing_or_none (some flows) = flows

abbrev pub timer_wait : String → String
timer_wait element_id = str_append "timer:" element_id

unfoldable pub handle_event_timer_callback :
    Env → Dict (Dict Value) → String → String → Engine → Callback
unfolding load_and_validate_token process_callback_and_continue_with_flows
handle_event_timer_callback e definitions element_id token_id s =
    elim (load_and_validate_token token_id (timer_wait element_id) s) [
      | none ↦ reject not_waiting s
      | some t ↦ elim (lookup t.process_key definitions) [
        | none ↦ reject no_process s
        | some elements ↦ elim (lookup element_id elements) [
          | none ↦ reject no_current_element s
          | some element ↦
              process_callback_and_continue_with_flows e definitions t
                (outgoing_or_none (get_element_outgoing_flows (some element))) none s
        ]
      ]
    ]

-- `loaded` says whether the record of the timer can be read; it is only logged.
unfoldable pub handle_timer_callback :
    Env → Dict (Dict Value) → Bool → String → String → Engine → Callback
unfolding handle_event_timer_callback
handle_timer_callback e definitions loaded element_id token_id s =
    if loaded
    then handle_event_timer_callback e definitions element_id token_id s
    else reject timer_not_loaded s
