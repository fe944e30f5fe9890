-- ===== src/Engine/JobErrors.antt =====
-- An error of BPMN that a job throws (handleJobBPMNError of src/process/job_callbacks.go).
use atom_engine.Base.{
  ◌≡◌, refl, sym, ap, ◌∙◌, String, false, Option, none, some, List, [], ◌∷◌, Dict, str_eq,
  if◌then◌else◌,
}
use atom_engine.Token.{Token, Value, clear_waiting_for, merge_variables, set_state, set_variables}
use atom_engine.Engine.{Engine, call, cancel_boundary_timers, load_token, save_token}
use atom_engine.Engine.Boundaries.{
  ErrorBoundary, find_matching_error_boundary, remove_error_boundaries_for_token,
}
use atom_engine.Engine.Callbacks.{move_from, process_callback_and_continue, reject, save_failed}
use atom_engine.Engine.JobCallbacks.{
  JobEngine, activate_error_boundary_flow, catch_error, complete_job_with_bpmn_error, continued_by,
  done, error_variables, handle_job_bpmn_error, handle_job_callback, thrown_code, thrown_token,
  token_not_loaded, with_saved,
}
use atom_engine.Engine.Processor.{Env, merge_result}

merge_result-current :
    (e : Env) (variables : Option (Dict Value)) (t : Token)
    → (merge_result e.now variables (clear_waiting_for e.now t)).current_element_id
      ≡ t.current_element_id
unfolding merge_variables clear_waiting_for
merge_result-current e none t = refl
merge_result-current e (some variables) t = refl

-- The element that is passed is not read where the token stands at one.
process_callback_and_continue-element :
    (e : Env) (definitions : Dict (Dict Value)) (t : Token) (element_id : String)
    (variables : Option (Dict Value)) (s : Engine)
    → str_eq t.current_element_id "" ≡ false
    → process_callback_and_continue e definitions t element_id variables s
      ≡ process_callback_and_continue e definitions t t.current_element_id variables s
unfolding process_callback_and_continue
process_callback_and_continue-element e definitions t element_id variables s placed =
    let resumed = merge_result e.now variables (clear_waiting_for e.now t) in
    let called = call (cancel_boundary_timers t.token_id) s in
    let current = resumed.current_element_id in
    let full : str_eq current "" ≡ false =
      ap (λ x. str_eq x "") (merge_result-current e variables t) ∙ placed in
    ap
      (λ b. elim (save_token resumed called) [
        | none ↦ reject save_failed called
        | some s' ↦ move_from e definitions resumed (if b then element_id else current) s'
      ])
      full
    ∙ sym (
        ap
          (λ b. elim (save_token resumed called) [
            | none ↦ reject save_failed called
            | some s' ↦
                move_from e definitions resumed (if b then t.current_element_id else current) s'
          ])
          full)

module _ (upper show_number from_message : String → String) (e : Env)
    (definitions : Dict (Dict Value)) where
  -- The state when the canceled token goes on.
  abbrev pub caught : Token → String → String → Option (Dict Value) → JobEngine → JobEngine
  caught t job_id error_message variables s = with_saved (thrown_token e variables t) (
      complete_job_with_bpmn_error job_id (thrown_code variables) error_message
        (record s { boundaries = remove_error_boundaries_for_token t.token_id s.boundaries }))

  activate_error_boundary_flow-flows :
      (t : Token) (b : ErrorBoundary) (flow : String) (rest : List String)
      (variables : Option (Dict Value)) (s : JobEngine)
      → b.outgoing_flows ≡ flow ∷ rest
      → activate_error_boundary_flow upper show_number from_message e definitions t b variables s
        ≡ continued_by
            (process_callback_and_continue e definitions t b.element_id variables s.engine)
            s
  unfolding activate_error_boundary_flow
  activate_error_boundary_flow-flows t b flow rest variables s flows =
      ap
        (λ (l : List String). elim l [
          | [] ↦ record { state = s; answer = done }
          | flow' ∷ rest' ↦
              continued_by
                (process_callback_and_continue e definitions t b.element_id variables s.engine) s
        ])
        flows

  handle_job_bpmn_error-caught :
      (job_id element_id error_message : String) (variables : Option (Dict Value)) (t : Token)
      (b : ErrorBoundary) (s : JobEngine)
      → find_matching_error_boundary t.token_id (thrown_code variables) s.boundaries ≡ some b
      → handle_job_bpmn_error upper show_number from_message e definitions t job_id element_id
          error_message variables s
        ≡ activate_error_boundary_flow upper show_number from_message e definitions
            (thrown_token e variables t)
            b
            (some (error_variables (thrown_code variables) error_message variables))
            (caught t job_id error_message variables s)
  unfolding handle_job_bpmn_error catch_error
  handle_job_bpmn_error-caught job_id element_id error_message variables t b s found =
      rw (handle_job_bpmn_error, found) refl

  -- An error thrown by a job that a boundary event with flows catches cancels the token, removes its
  -- boundaries, closes the job with the error, and then sends the token on from the element of the
  -- job, and not from the boundary event, with the code and the message as variables. The token can
  -- be loaded and stands at an element.
  pub handle_job_callback-caught :
      (job_id element_id error_message flow : String) (rest : List String)
      (variables : Option (Dict Value)) (t : Token) (b : ErrorBoundary) (s : JobEngine)
      → load_token t.token_id s.engine ≡ some t
      → find_matching_error_boundary t.token_id (thrown_code variables) s.boundaries ≡ some b
      → b.outgoing_flows ≡ flow ∷ rest
      → str_eq t.current_element_id "" ≡ false
      → let s' = caught t job_id error_message variables s in
        handle_job_callback upper show_number from_message e definitions job_id element_id
          t.token_id "ERROR_THROWN" error_message variables s
        ≡ continued_by
            (process_callback_and_continue e definitions
              (thrown_token e variables t)
              t.current_element_id
              (some (error_variables (thrown_code variables) error_message variables))
              s'.engine)
            s'
  unfolding handle_job_callback handle_job_bpmn_error catch_error activate_error_boundary_flow
      set_state set_variables
  handle_job_callback-caught job_id element_id error_message flow rest variables t b s loaded found
        flows placed =
      let s' = caught t job_id error_message variables s in
      let ended = thrown_token e variables t in
      let extra = some (error_variables (thrown_code variables) error_message variables) in
      ap
        (λ o. elim o [
          | none ↦ record { state = s; answer = token_not_loaded }
          | some t' ↦
              handle_job_bpmn_error upper show_number from_message e definitions t' job_id
                element_id error_message variables s
        ])
        loaded
      ∙ handle_job_bpmn_error-caught job_id element_id error_message variables t b s found
      ∙ activate_error_boundary_flow-flows ended b flow rest extra s' flows
      ∙ ap (λ c. continued_by c s')
          (process_callback_and_continue-element e definitions ended b.element_id extra s'.engine
            placed)
