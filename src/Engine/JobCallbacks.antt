-- ===== src/Engine/JobCallbacks.antt =====
-- The callbacks of jobs (src/process/job_callbacks.go). The component is ready. What the package
-- strings makes of a code, the print of a number and the search for a code in an error message,
-- which is by regular expressions, are parameters.
use Prim.Native.String.{◌++◌ as str_append}
use atom_engine.Base.{
  String, Bool, not, ◌&&◌, Option, none, some, List, [], ◌∷◌, ◌++◌, Dict, lookup, insert, str_eq,
  if◌then◌else◌,
}
use atom_engine.Token.{Token, TokenState, Value, set_state, set_variables}
use atom_engine.Engine.{Engine, load_token, save_token}
use atom_engine.Engine.Boundaries.{
  ErrorBoundary, find_matching_error_boundary, remove_error_boundaries_for_token,
}
use atom_engine.Engine.Callbacks.{
  Callback, CallbackAnswer, load_and_validate_token, process_callback_and_continue,
}
use atom_engine.Engine.Processor.{Env}
use atom_engine.Incidents.Requests.{CreateIncidentRequest, empty_request}

-- What is sent to the other components: a job that is closed with an error of BPMN, by its id, the
-- code and the message; and an incident.
pub data Report : Type 0 where
  error_thrown : String → String → String → Report
  incident : CreateIncidentRequest → Report

-- The engine, the registry of the boundaries, whether the components can be reached through the
-- core, and what was sent, the oldest first. A report that fails is logged.
pub record JobEngine : Type 0 where
  pub engine : Engine
  pub boundaries : Dict (List ErrorBoundary)
  pub has_jobs : Bool
  pub has_incidents : Bool
  pub reports : List Report

pub data JobAnswer : Type 0 where
  done token_not_loaded token_not_waiting job_failed : JobAnswer
  continued : CallbackAnswer → JobAnswer

pub record JobCallbacks : Type 0 where
  pub state : JobEngine
  pub answer : JobAnswer

abbrev pub continued_by : Callback → JobEngine → JobCallbacks
continued_by c s = record { state = record s { engine = c.engine }; answer = continued c.answer }

-- A save whose error is logged.
abbrev pub saved_or_same : Token → Engine → Engine
saved_or_same t s = elim (save_token t s) [ none ↦ s | some s' ↦ s' ]

abbrev pub with_saved : Token → JobEngine → JobEngine
with_saved t s = record s { engine = saved_or_same t s.engine }

unfoldable pub complete_job_with_bpmn_error : String → String → String → JobEngine → JobEngine
complete_job_with_bpmn_error job_id error_code error_message s =
    if s.has_jobs
    then record s { reports = s.reports ++ error_thrown job_id error_code error_message ∷ [] }
    else s

abbrev pub send_incident : CreateIncidentRequest → JobEngine → JobEngine
send_incident r s =
    if s.has_incidents then record s { reports = s.reports ++ incident r ∷ [] } else s

abbrev pub job_failure_report : Token → String → String → String → CreateIncidentRequest
job_failure_report t job_id element_id error_message =
    record (empty_request "job_failure" error_message) {
      process_instance_id = t.process_instance_id;
      element_id = element_id;
      element_type = "serviceTask";
      job_key = job_id;
    }

unfoldable pub create_job_failure_incident :
    Token → String → String → String → JobEngine → JobEngine
create_job_failure_incident t job_id element_id error_message s =
    send_incident (job_failure_report t job_id element_id error_message) s

unfoldable pub create_unhandled_bpmn_error_incident :
    Token → String → String → String → JobEngine → JobEngine
create_unhandled_bpmn_error_incident t element_id error_code error_message s =
    send_incident
      (record (empty_request "bpmn_error" (
        str_append "UNHANDLED_BPMN_ERROR "
          (str_append error_code (str_append ": " error_message)))) {
            error_code = error_code;
            process_instance_id = t.process_instance_id;
            element_id = element_id;
            element_type = "serviceTask";
          })
      s

abbrev pub text_or : String → Option Value → String
text_or default (some (Value.text s)) = s
text_or default _ = default

-- The code of a thrown error.
abbrev pub thrown_code : Option (Dict Value) → String
thrown_code none = "GENERAL_ERROR"
thrown_code (some variables) = text_or "GENERAL_ERROR" (lookup "errorCode" variables)

abbrev pub variables_or_empty : Option (Dict Value) → Dict Value
variables_or_empty none = []
variables_or_empty (some variables) = variables

abbrev pub error_variables : String → String → Option (Dict Value) → Dict Value
error_variables error_code error_message variables =
    insert "errorMessage" (Value.text error_message)
      (insert "errorCode" (Value.text error_code) (variables_or_empty variables))

-- The token that an error ends.
abbrev pub thrown_token : Env → Option (Dict Value) → Token → Token
thrown_token e variables t =
    set_variables e.now (variables_or_empty variables) (set_state e.now TokenState.canceled t)

abbrev pub job_wait : String → String
job_wait job_id = str_append "job:" job_id

module _ (upper show_number from_message : String → String) where
  abbrev pub code_or : Option Value → String → String
  code_or (some (Value.text s)) later = if str_eq s "" then later else upper s
  code_or (some (Value.number n)) later = show_number n
  code_or _ later = later

  -- The loop over the names of the fields.
  unfoldable pub code_in : Dict Value → List String → String → String
  code_in variables [] later = later
  code_in variables (field ∷ rest) later =
      code_or (lookup field variables) (code_in variables rest later)

  unfoldable pub extract_bpmn_error_code : Option (Dict Value) → String → String
  unfolding code_in
  extract_bpmn_error_code none error_message = from_message error_message
  extract_bpmn_error_code (some variables) error_message =
      code_in variables ("errorCode" ∷ "error_code" ∷ "bpmnErrorCode" ∷ "code" ∷ "errorType" ∷ [])
        (from_message error_message)

  module _ (e : Env) (definitions : Dict (Dict Value)) where
    unfoldable pub activate_error_boundary_flow :
        Token → ErrorBoundary → Option (Dict Value) → JobEngine → JobCallbacks
    unfolding process_callback_and_continue
    activate_error_boundary_flow t b variables s = elim b.outgoing_flows [
      | [] ↦ record { state = s; answer = done }
      | flow ∷ rest ↦
          continued_by
            (process_callback_and_continue e definitions t b.element_id variables s.engine) s
    ]

    -- From `jc.component.RemoveErrorBoundariesForToken` on.
    unfoldable pub catch_failure :
        Token → ErrorBoundary → Option (Dict Value) → JobEngine → JobCallbacks
    unfolding activate_error_boundary_flow remove_error_boundaries_for_token
    catch_failure t b variables s =
        let unregistered = record s {
          boundaries = remove_error_boundaries_for_token t.token_id s.boundaries;
        } in
        let canceled_token = set_state e.now TokenState.canceled t in
        if b.cancel_activity
        then activate_error_boundary_flow canceled_token b variables
            (with_saved canceled_token unregistered)
        else activate_error_boundary_flow t b variables unregistered

    unfoldable pub handle_job_failure :
        Token → String → String → String → Option (Dict Value) → JobEngine → JobCallbacks
    unfolding catch_failure create_job_failure_incident
    handle_job_failure t job_id element_id error_message variables s =
        let code = extract_bpmn_error_code variables error_message in
        elim (find_matching_error_boundary t.token_id code s.boundaries) [
          | some b ↦ catch_failure t b variables s
          | none ↦ record {
            state =
                with_saved (set_state e.now TokenState.failed t)
                  (create_job_failure_incident t job_id element_id error_message s);
            answer = job_failed;
          }
        ]

    -- From `Found matching error boundary for BPMN error` on.
    unfoldable pub catch_error :
        Token → ErrorBoundary → String → String → Option (Dict Value) → JobEngine → JobCallbacks
    unfolding remove_error_boundaries_for_token complete_job_with_bpmn_error
    catch_error t b job_id error_message variables s =
        let code = thrown_code variables in
        let closed =
          complete_job_with_bpmn_error job_id code error_message
            (record s { boundaries = remove_error_boundaries_for_token t.token_id s.boundaries }) in
        let ended = thrown_token e variables t in
        activate_error_boundary_flow ended b (some (error_variables code error_message variables))
          (with_saved ended closed)

    unfoldable pub handle_job_bpmn_error :
        Token → String → String → String → Option (Dict Value) → JobEngine → JobCallbacks
    unfolding catch_error complete_job_with_bpmn_error create_unhandled_bpmn_error_incident
    handle_job_bpmn_error t job_id element_id error_message variables s =
        let code = thrown_code variables in
        elim (find_matching_error_boundary t.token_id code s.boundaries) [
          | some b ↦ catch_error t b job_id error_message variables s
          | none ↦ record {
            state = with_saved (thrown_token e variables t) (
                create_unhandled_bpmn_error_incident t element_id code error_message
                  (complete_job_with_bpmn_error job_id code error_message s));
            answer = done;
          }
        ]

    unfoldable pub handle_job_callback :
        String → String → String → String → String → Option (Dict Value) → JobEngine → JobCallbacks
    unfolding handle_job_bpmn_error handle_job_failure load_and_validate_token
    handle_job_callback job_id element_id token_id status error_message variables s =
        if str_eq status "ERROR_THROWN"
        then elim (load_token token_id s.engine) [
          | none ↦ record { state = s; answer = token_not_loaded }
          | some t ↦ handle_job_bpmn_error t job_id element_id error_message variables s
        ]
        else elim (load_and_validate_token token_id (job_wait job_id) s.engine) [
          | none ↦ record { state = s; answer = token_not_waiting }
          | some t ↦
              if str_eq status "FAILED" && not (str_eq error_message "")
              then handle_job_failure t job_id element_id error_message variables s
              else continued_by
                  (process_callback_and_continue e definitions t element_id variables s.engine) s
        ]
