-- ===== src/Incidents.antt =====
-- Incidents (src/incidents/models.go) and their storage (src/storage/storage_incident.go). The
-- children hold the manager. Types, states and actions are texts, as in the source.
pub mod Batches
pub mod Creation
pub mod Entries
pub mod Examples
pub mod Filing
pub mod History
pub mod Manager
pub mod Recovery
pub mod Reports
pub mod Requests
pub mod Resolution
pub mod Stats
use Prim.Native.String.{◌++◌ as str_append}
use atom_engine.Base.{
  ℕ, String, Bool, true, false, not, ◌&&◌, ◌||◌, Option, none, some, List, [], ◌∷◌, ◌++◌, Dict,
  lookup, insert, length, drop, take, leb, ltb, str_eq, if◌then◌else◌,
}
use atom_engine.Token.{Value}
use atom_engine.Jobs.{Count, natural}

pub record Incident : Type 0 where
  pub id : String
  pub type : String
  pub status : String
  pub message : String
  pub error_code : String
  pub created_at : ℕ
  pub updated_at : ℕ
  pub process_instance_id : String
  pub process_key : String
  pub element_id : String
  pub element_type : String
  pub job_key : String
  pub job_type : String
  pub worker_id : String
  pub timer_id : String
  pub message_name : String
  pub correlation_key : String
  pub resolved_at : Option ℕ
  pub resolved_by : String
  pub resolve_action : String
  pub resolve_comment : String
  pub original_retries : Count
  pub new_retries : Count
  pub metadata : Dict Value

-- The zero value of the struct. The time 0 stands for the zero time too.
abbrev pub empty_incident : Incident
empty_incident = record {
  id = "";
  type = "";
  status = "";
  message = "";
  error_code = "";
  created_at = 0;
  updated_at = 0;
  process_instance_id = "";
  process_key = "";
  element_id = "";
  element_type = "";
  job_key = "";
  job_type = "";
  worker_id = "";
  timer_id = "";
  message_name = "";
  correlation_key = "";
  resolved_at = none;
  resolved_by = "";
  resolve_action = "";
  resolve_comment = "";
  original_retries = natural 0;
  new_retries = natural 0;
  metadata = [];
}

unfoldable pub new_incident : ℕ → String → String → Incident
new_incident now type message = record empty_incident {
  type = type;
  status = "OPEN";
  message = message;
  created_at = now;
  updated_at = now;
}

abbrev pub is_open : Incident → Bool
is_open i = str_eq i.status "OPEN"

abbrev pub is_resolved : Incident → Bool
is_resolved i = str_eq i.status "RESOLVED"

abbrev pub is_dismissed : Incident → Bool
is_dismissed i = str_eq i.status "DISMISSED"

unfoldable pub resolve : ℕ → String → String → String → Incident → Incident
resolve now action resolved_by comment i = record i {
  status = "RESOLVED";
  resolved_at = some now;
  resolved_by = resolved_by;
  resolve_action = action;
  resolve_comment = comment;
  updated_at = now;
}

unfoldable pub dismiss : ℕ → String → String → Incident → Incident
dismiss now resolved_by comment i = record i {
  status = "DISMISSED";
  resolved_at = some now;
  resolved_by = resolved_by;
  resolve_action = "DISMISS";
  resolve_comment = comment;
  updated_at = now;
}

abbrev pub is_job_related : Incident → Bool
is_job_related i = not (str_eq i.job_key "")

abbrev pub is_process_related : Incident → Bool
is_process_related i = not (str_eq i.process_instance_id "")

unfoldable pub get_display_name : Incident → String
get_display_name i =
    if str_eq i.type "JOB_FAILURE"
    then (if str_eq i.job_type "" then "Job Failure" else str_append "Job Failure: " i.job_type)
    else if str_eq i.type "BPMN_ERROR"
    then (if str_eq i.element_id "" then "BPMN Error" else str_append "BPMN Error: " i.element_id)
    else if str_eq i.type "EXPRESSION_ERROR"
    then "Expression Error"
    else if str_eq i.type "PROCESS_ERROR"
    then "Process Error"
    else if str_eq i.type "TIMER_ERROR"
    then "Timer Error"
    else if str_eq i.type "MESSAGE_ERROR"
    then "Message Error"
    else if str_eq i.type "SYSTEM_ERROR"
    then "System Error"
    else i.type

-- An empty list or text in a filter asks for nothing.
pub record IncidentFilter : Type 0 where
  pub statuses : List String
  pub types : List String
  pub process_instance_id : String
  pub process_key : String
  pub element_id : String
  pub job_key : String
  pub worker_id : String
  pub created_after : Option ℕ
  pub created_before : Option ℕ
  pub limit : ℕ
  pub offset : ℕ

-- A message to the jobs component that sets the retries of a job.
pub record UpdateJobRetries : Type 0 where
  pub job_key : String
  pub new_retries : Count

-- The records under the prefix of the incidents, which calls to the database and to the core fail,
-- and the messages that were sent, the oldest first.
pub record Incidents : Type 0 where
  pub incidents : Dict Incident
  pub read_fails : Bool
  pub list_fails : Bool
  pub write_fails : Bool
  pub has_core : Bool
  pub send_fails : Bool
  pub sent : List UpdateJobRetries

unfoldable pub save_incident : Incident → Incidents → Option Incidents
save_incident i s =
    if s.write_fails then none else some (record s { incidents = insert i.id i s.incidents })

abbrev pub incident_or_empty : Option Incident → Incident
incident_or_empty none = empty_incident
incident_or_empty (some i) = i

-- An id that is missing gives a nil map in an interface, which is not nil, and which the manager
-- converts to the zero value. An error is `none`.
unfoldable pub find_incident : String → Incidents → Option Incident
find_incident id s =
    if str_eq id "" || s.read_fails then none else some (incident_or_empty (lookup id s.incidents))

abbrev pub holds_text : String → List String → Bool
holds_text s [] = false
holds_text s (t ∷ ts) = str_eq t s || holds_text s ts

abbrev pub is_any_of : List String → String → Bool
is_any_of [] s = true
is_any_of (t ∷ ts) s = holds_text s (t ∷ ts)

abbrev pub is_wanted : String → String → Bool
is_wanted wanted s = str_eq wanted "" || str_eq s wanted

abbrev pub is_not_before : Option ℕ → ℕ → Bool
is_not_before none t = true
is_not_before (some after) t = leb after t

abbrev pub is_not_after : Option ℕ → ℕ → Bool
is_not_after none t = true
is_not_after (some before) t = leb t before

unfoldable pub matches_incident_filter : IncidentFilter → Incident → Bool
matches_incident_filter f i =
    is_any_of f.statuses i.status
    && is_any_of f.types i.type
    && is_wanted f.process_instance_id i.process_instance_id
    && is_wanted f.process_key i.process_key
    && is_wanted f.element_id i.element_id
    && is_wanted f.job_key i.job_key
    && is_wanted f.worker_id i.worker_id
    && is_not_before f.created_after i.created_at
    && is_not_after f.created_before i.created_at

unfoldable pub incidents_where : (Incident → Bool) → Dict Incident → List Incident
incidents_where p [] = []
incidents_where p ((k, i) ∷ d) = if p i then i ∷ incidents_where p d else incidents_where p d

abbrev pub skip_offset : ℕ → List Incident → List Incident
skip_offset offset found =
    if ltb 0 offset && ltb offset (length found)
    then drop offset found
    else if leb (length found) offset
    then []
    else found

abbrev pub keep_limit : ℕ → List Incident → List Incident
keep_limit limit found = if ltb 0 limit && ltb limit (length found) then take limit found else found

-- The page, and how many incidents pass the filter.
unfoldable pub list_incidents : IncidentFilter → Incidents → Option (List Incident × ℕ)
unfolding matches_incident_filter incidents_where
list_incidents f s =
    let found = incidents_where (matches_incident_filter f) s.incidents in
    if s.list_fails
    then none
    else some (keep_limit f.limit (skip_offset f.offset found), length found)
