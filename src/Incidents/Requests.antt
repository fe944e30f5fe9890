-- ===== src/Incidents/Requests.antt =====
-- The creation of incidents (src/incidents/manager.go, manager_creation.go and manager_helpers.go).
-- The format of a time is a parameter. A length is in bytes.
use Prim.Native.Char.{code}
use Prim.Native.String.{len, slice, ◌++◌ as str_append, String as Text, [] as no_text, ◌∷◌ as cons}
use atom_engine.Base.{
  ℕ, String, Bool, true, not, ◌&&◌, none, some, [], ◌∷◌, Dict, insert, ltb, str_eq, if◌then◌else◌,
}
use atom_engine.Token.{Value}
use atom_engine.Jobs.{Count, natural, is_positive}
use atom_engine.Incidents.{
  Incident, Incidents, get_display_name, is_job_related, is_open, is_process_related, new_incident,
  save_incident,
}
use atom_engine.Expressions.{is_space}
use atom_engine.Messages.Targets.{reversed}

pub record CreateIncidentRequest : Type 0 where
  pub type : String
  pub message : String
  pub error_code : String
  pub process_instance_id : String
  pub process_key : String
  pub element_id : String
  pub element_type : String
  pub job_key : String
  pub job_type : String
  pub worker_id : String
  pub timer_id : String
  pub message_name : String
  pub correlation_key : String
  pub original_retries : Count
  pub metadata : Dict Value

abbrev pub empty_request : String → String → CreateIncidentRequest
empty_request type message = record {
  type = type;
  message = message;
  error_code = "";
  process_instance_id = "";
  process_key = "";
  element_id = "";
  element_type = "";
  job_key = "";
  job_type = "";
  worker_id = "";
  timer_id = "";
  message_name = "";
  correlation_key = "";
  original_retries = natural 0;
  metadata = [];
}

pub data IncidentError : Type 0 where
  invalid_request save_failed get_failed list_failed already_resolved unknown_action : IncidentError
  not_job_failure no_job_key not_bpmn_error : IncidentError

pub data Answer : Type 0 where
  answered : Incident → Answer
  refused : IncidentError → Answer

abbrev pub has_context : CreateIncidentRequest → Bool
has_context r =
    if str_eq r.type "JOB_FAILURE"
    then not (str_eq r.job_key "")
    else if str_eq r.type "BPMN_ERROR"
    then not (str_eq r.element_id "")
    else if str_eq r.type "TIMER_ERROR"
    then not (str_eq r.timer_id "")
    else if str_eq r.type "MESSAGE_ERROR"
    then not (str_eq r.message_name "")
    else true

-- `validateIncidentRequest`.
unfoldable pub is_valid_request : CreateIncidentRequest → Bool
is_valid_request r = not (str_eq r.type "") && not (str_eq r.message "") && has_context r

unfoldable pub categorize_error_code : String → String
categorize_error_code code =
    if str_eq code "404"
    then "not_found"
    else if str_eq code "400"
    then "bad_request"
    else if str_eq code "401"
    then "unauthorized"
    else if str_eq code "403"
    then "forbidden"
    else if str_eq code "500"
    then "internal_error"
    else if str_eq code "502"
    then "bad_gateway"
    else if str_eq code "503"
    then "service_unavailable"
    else if str_eq code "504"
    then "gateway_timeout"
    else if str_eq code ""
    then "unknown"
    else "custom"

abbrev pub with_type_metadata : Incident → Dict Value → Dict Value
with_type_metadata i d =
    if str_eq i.type "JOB_FAILURE"
    then insert "has_retries" (Value.boolean (is_positive i.original_retries))
        (insert "can_retry" (Value.boolean (is_open i)) d)
    else if str_eq i.type "BPMN_ERROR"
    then insert "error_category" (Value.text (categorize_error_code i.error_code))
        (insert "has_error_code" (Value.boolean (not (str_eq i.error_code ""))) d)
    else if str_eq i.type "TIMER_ERROR"
    then insert "timer_related" (Value.boolean true) d
    else if str_eq i.type "MESSAGE_ERROR"
    then insert "has_correlation" (Value.boolean (not (str_eq i.correlation_key "")))
        (insert "message_related" (Value.boolean true) d)
    else d

unfoldable pub enrich_incident_metadata : (ℕ → String) → Incident → Incident
enrich_incident_metadata format i = record i {
  metadata = with_type_metadata i (
      insert "is_process_related" (Value.boolean (is_process_related i)) (
        insert "is_job_related" (Value.boolean (is_job_related i)) (
          insert "display_name" (Value.text (get_display_name i))
            (insert "created_at_string" (Value.text (format i.created_at)) i.metadata))));
}

abbrev pub truncated : ℕ → String → String
truncated n s = if ltb n (len s) then str_append (slice s 0 n) "... [truncated]" else s

abbrev pub truncated_value : Value → Value
truncated_value (Value.text s) = Value.text (truncated 500 s)
truncated_value v = v

unfoldable pub truncated_values : Dict Value → Dict Value
truncated_values [] = []
truncated_values ((k, v) ∷ d) = (k, truncated_value v) ∷ truncated_values d

unfoldable pub drop_spaces : Text → Text
drop_spaces no_text = no_text
drop_spaces (cons c rest) = if is_space (code c) then drop_spaces rest else cons c rest

-- `strings.TrimSpace`.
unfoldable pub trim_text : Text → Text
unfolding drop_spaces reversed
trim_text s = reversed (drop_spaces (reversed (drop_spaces s) no_text)) no_text

unfoldable pub sanitize_incident_data : Incident → Incident
unfolding truncated_values trim_text
sanitize_incident_data i = record i {
  message = truncated 1000 i.message;
  metadata = truncated_values i.metadata;
  error_code = trim_text i.error_code;
}

-- The incident of a request, before it is enriched.
unfoldable pub requested_incident : ℕ → String → CreateIncidentRequest → Incident
unfolding new_incident
requested_incident now fresh r = record (new_incident now r.type r.message) {
  id = fresh;
  error_code = r.error_code;
  process_instance_id = r.process_instance_id;
  process_key = r.process_key;
  element_id = r.element_id;
  element_type = r.element_type;
  job_key = r.job_key;
  job_type = r.job_type;
  worker_id = r.worker_id;
  timer_id = r.timer_id;
  message_name = r.message_name;
  correlation_key = r.correlation_key;
  original_retries = r.original_retries;
  metadata = r.metadata;
}

module _ (format : ℕ → String) where
  -- `fresh` is what `GenerateID` gives.
  unfoldable pub create_incident :
      ℕ → String → CreateIncidentRequest → Incidents → Incidents × Answer
  unfolding is_valid_request requested_incident enrich_incident_metadata sanitize_incident_data
  create_incident now fresh r s =
      let i =
        sanitize_incident_data (enrich_incident_metadata format (requested_incident now fresh r)) in
      if is_valid_request r
      then elim (save_incident i s) [ none ↦ (s, refused save_failed) | some s' ↦ (s', answered i) ]
      else (s, refused invalid_request)
