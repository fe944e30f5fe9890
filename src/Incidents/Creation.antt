-- ===== src/Incidents/Creation.antt =====
-- The methods that create incidents of the common kinds (src/incidents/manager_creation.go): each
-- passes its request on to CreateIncident.
use atom_engine.Base.{String, [], ◌∷◌, Dict}
use atom_engine.Token.{Value}
use atom_engine.Jobs.{Count}
use atom_engine.Incidents.Requests.{CreateIncidentRequest, empty_request}

abbrev pub job_failure_request : String → String → String → String → Count → CreateIncidentRequest
job_failure_request job_key element_id process_instance_id message retries =
    record (empty_request "JOB_FAILURE" message) {
      process_instance_id = process_instance_id;
      element_id = element_id;
      job_key = job_key;
      original_retries = retries;
    }

abbrev pub bpmn_error_request : String → String → String → String → CreateIncidentRequest
bpmn_error_request element_id process_instance_id error_code message =
    record (empty_request "BPMN_ERROR" message) {
      error_code = error_code;
      process_instance_id = process_instance_id;
      element_id = element_id;
    }

abbrev pub timer_error_request : String → String → String → String → CreateIncidentRequest
timer_error_request timer_id element_id process_instance_id message =
    record (empty_request "TIMER_ERROR" message) {
      process_instance_id = process_instance_id;
      element_id = element_id;
      timer_id = timer_id;
    }

abbrev pub message_error_request : String → String → String → String → CreateIncidentRequest
message_error_request message_name correlation_key process_instance_id message =
    record (empty_request "MESSAGE_ERROR" message) {
      process_instance_id = process_instance_id;
      message_name = message_name;
      correlation_key = correlation_key;
    }

abbrev pub expression_error_request : String → String → String → String → CreateIncidentRequest
expression_error_request element_id process_instance_id expression message =
    record (empty_request "EXPRESSION_ERROR" message) {
      process_instance_id = process_instance_id;
      element_id = element_id;
      metadata = ("expression", Value.text expression) ∷ [];
    }

abbrev pub process_error_request : String → String → String → String → CreateIncidentRequest
process_error_request element_id process_instance_id process_key message =
    record (empty_request "PROCESS_ERROR" message) {
      process_instance_id = process_instance_id;
      process_key = process_key;
      element_id = element_id;
    }

abbrev pub system_error_request : String → Dict Value → CreateIncidentRequest
system_error_request message metadata = record (empty_request "SYSTEM_ERROR" message) {
  metadata = metadata;
}

abbrev pub job_error_details :
    String → String → String → String → String → String → Count → CreateIncidentRequest
job_error_details job_key job_type worker_id element_id process_instance_id message retries =
    record (job_failure_request job_key element_id process_instance_id message retries) {
      job_type = job_type;
      worker_id = worker_id;
      metadata =
          ("failure_source", Value.text "job_worker") ∷ ("worker_id", Value.text worker_id) ∷ [];
    }

abbrev pub bpmn_error_details :
    String → String → String → String → String → String → CreateIncidentRequest
bpmn_error_details element_id element_type process_instance_id process_key error_code message =
    record (bpmn_error_request element_id process_instance_id error_code message) {
      process_key = process_key;
      element_type = element_type;
      metadata =
          ("error_source", Value.text "bpmn_execution")
          ∷ ("element_type", Value.text element_type)
          ∷ ("no_boundary", Value.text "true")
          ∷ [];
    }

abbrev pub timer_error_details :
    String → String → String → String → String → Value → CreateIncidentRequest
timer_error_details timer_id element_id process_instance_id timer_type message scheduled_at =
    record (timer_error_request timer_id element_id process_instance_id message) {
      metadata =
          ("timer_type", Value.text timer_type)
          ∷ ("scheduled_at", scheduled_at)
          ∷ ("error_source", Value.text "timer_execution")
          ∷ [];
    }

abbrev pub expression_error_details :
    String → String → String → String → String → CreateIncidentRequest
expression_error_details element_id process_instance_id expression context message =
    record (expression_error_request element_id process_instance_id expression message) {
      metadata =
          ("expression", Value.text expression)
          ∷ ("context", Value.text context)
          ∷ ("error_source", Value.text "expression_evaluation")
          ∷ [];
    }
