-- ===== src/Incidents/Manager.antt =====
-- The resolution of incidents (src/incidents/manager.go, manager_resolution.go and
-- manager_helpers.go). The comment of RetryJobIncident, which holds a number as a text, is an argument.
use Prim.Native.String.{◌++◌ as str_append}
use atom_engine.Base.{
  ℕ, String, Bool, true, false, not, ◌&&◌, Option, none, some, List, [], ◌∷◌, ◌++◌, str_eq,
  if◌then◌else◌,
}
use atom_engine.Jobs.{Count, natural, negative}
use atom_engine.Incidents.{
  Incident, IncidentFilter, Incidents, dismiss, find_incident, is_open, list_incidents, resolve,
  save_incident,
}
use atom_engine.Incidents.Requests.{
  Answer, already_resolved, answered, get_failed, invalid_request, no_job_key, not_bpmn_error,
  not_job_failure, refused, save_failed, unknown_action,
}

pub record ResolveIncidentRequest : Type 0 where
  pub incident_id : String
  pub action : String
  pub comment : String
  pub resolved_by : String
  pub new_retries : Count

abbrev pub is_natural : Count → Bool
is_natural (natural n) = true
is_natural (negative n) = false

-- `validateResolveRequest`.
unfoldable pub is_valid_resolve_request : ResolveIncidentRequest → Bool
is_valid_resolve_request r =
    not (str_eq r.incident_id "")
    && not (str_eq r.resolved_by "")
    && (if str_eq r.action "RETRY" then is_natural r.new_retries else str_eq r.action "DISMISS")

-- A missing core and a failed call are errors, which the caller logs.
unfoldable pub update_job_retries : String → Count → Incidents → Incidents
update_job_retries job_key new_retries s =
    if s.has_core && not s.send_fails
    then record s { sent = s.sent ++ record { job_key = job_key; new_retries = new_retries } ∷ [] }
    else s

abbrev pub retries_job : Incident → Bool
retries_job i = str_eq i.type "JOB_FAILURE" && not (str_eq i.job_key "")

unfoldable pub retried : ℕ → ResolveIncidentRequest → Incident → Incident
unfolding resolve
retried now r i = record (resolve now "RETRY" r.resolved_by r.comment i) {
  new_retries = r.new_retries;
}

abbrev pub saved_as : Incident → Incidents → Incidents × Answer
saved_as i s = elim (save_incident i s) [
  | none ↦ (s, refused save_failed)
  | some s' ↦ (s', answered i)
]

-- From `if !incident.IsOpen()` on.
unfoldable pub resolve_found :
    ℕ → ResolveIncidentRequest → Incident → Incidents → Incidents × Answer
unfolding retried update_job_retries dismiss
resolve_found now r i s =
    if not (is_open i)
    then (s, refused already_resolved)
    else if str_eq r.action "RETRY"
    then saved_as (retried now r i)
        (if retries_job i then update_job_retries i.job_key r.new_retries s else s)
    else if str_eq r.action "DISMISS"
    then saved_as (dismiss now r.resolved_by r.comment i) s
    else (s, refused unknown_action)

unfoldable pub resolve_incident : ℕ → ResolveIncidentRequest → Incidents → Incidents × Answer
unfolding is_valid_resolve_request resolve_found
resolve_incident now r s =
    if is_valid_resolve_request r
    then elim (find_incident r.incident_id s) [
      | none ↦ (s, refused get_failed)
      | some i ↦ resolve_found now r i s
    ]
    else (s, refused invalid_request)

unfoldable pub get_incident : String → Incidents → Answer
unfolding find_incident
get_incident id s = elim (find_incident id s) [ none ↦ refused get_failed | some i ↦ answered i ]

abbrev pub retry_request : String → String → Count → String → ResolveIncidentRequest
retry_request id resolved_by new_retries comment = record {
  incident_id = id;
  action = "RETRY";
  comment = comment;
  resolved_by = resolved_by;
  new_retries = new_retries;
}

abbrev pub dismiss_request : String → String → String → ResolveIncidentRequest
dismiss_request id resolved_by comment = record {
  incident_id = id;
  action = "DISMISS";
  comment = comment;
  resolved_by = resolved_by;
  new_retries = natural 0;
}

abbrev pub retry_found : ℕ → ResolveIncidentRequest → Answer → Incidents → Incidents × Answer
retry_found now r (refused e) s = (s, refused e)
retry_found now r (answered i) s =
    if not (str_eq i.type "JOB_FAILURE")
    then (s, refused not_job_failure)
    else if str_eq i.job_key ""
    then (s, refused no_job_key)
    else resolve_incident now r s

unfoldable pub retry_job_incident :
    ℕ → String → String → Count → String → Incidents → Incidents × Answer
unfolding get_incident
retry_job_incident now id resolved_by new_retries comment s =
    retry_found now (retry_request id resolved_by new_retries comment) (get_incident id s) s

abbrev pub dismiss_found : ℕ → ResolveIncidentRequest → Answer → Incidents → Incidents × Answer
dismiss_found now r (refused e) s = (s, refused e)
dismiss_found now r (answered i) s =
    if not (str_eq i.type "BPMN_ERROR")
    then (s, refused not_bpmn_error)
    else resolve_incident now r s

unfoldable pub dismiss_bpmn_error_incident :
    ℕ → String → String → String → Incidents → Incidents × Answer
unfolding get_incident
dismiss_bpmn_error_incident now id resolved_by reason s =
    dismiss_found now (dismiss_request id resolved_by (str_append "BPMN error dismissed: " reason))
      (get_incident id s) s

abbrev pub with_answer : Answer → List Incident → List Incident
with_answer (answered i) later = i ∷ later
with_answer (refused e) later = later

-- The loop of a batch, over what the list gave; an incident that is not resolved is left out.
unfoldable pub resolve_all :
    ℕ → (String → ResolveIncidentRequest) → List Incident → Incidents → Incidents × List Incident
unfolding resolve_incident
resolve_all now request [] s = (s, [])
resolve_all now request (i ∷ rest) s =
    let one = resolve_incident now (request i.id) s in
    let later = resolve_all now request rest one.0 in (later.0, with_answer one.1 later.1)

abbrev pub open_filter : IncidentFilter
open_filter = record {
  statuses = "OPEN" ∷ [];
  types = [];
  process_instance_id = "";
  process_key = "";
  element_id = "";
  job_key = "";
  worker_id = "";
  created_after = none;
  created_before = none;
  limit = 0;
  offset = 0;
}

-- The error of the list is `none`.
abbrev pub resolve_page :
    ℕ
    → (String → ResolveIncidentRequest)
    → Incidents
    → Option (List Incident × ℕ)
    → Incidents × Option (List Incident)
resolve_page now request s none = (s, none)
resolve_page now request s (some (found, total)) =
    ((resolve_all now request found s).0, some (resolve_all now request found s).1)

unfoldable pub resolve_listed :
    ℕ
    → IncidentFilter
    → (String → ResolveIncidentRequest)
    → Incidents
    → Incidents × Option (List Incident)
unfolding list_incidents
resolve_listed now f request s = resolve_page now request s (list_incidents f s)

abbrev pub batch_request : String → String → String → Count → String → ResolveIncidentRequest
batch_request action resolved_by comment new_retries id = record {
  incident_id = id;
  action = action;
  comment = comment;
  resolved_by = resolved_by;
  new_retries = new_retries;
}

unfoldable pub resolve_by_type :
    ℕ → String → String → String → String → Count → Incidents → Incidents × Option (List Incident)
unfolding resolve_listed
resolve_by_type now type action resolved_by comment new_retries s =
    resolve_listed now (record open_filter { types = type ∷ [] })
      (batch_request action resolved_by comment new_retries) s

-- The request has no retries.
unfoldable pub resolve_by_process_instance :
    ℕ → String → String → String → String → Incidents → Incidents × Option (List Incident)
unfolding resolve_listed
resolve_by_process_instance now id action resolved_by comment s =
    resolve_listed now (record open_filter { process_instance_id = id })
      (batch_request action resolved_by (str_append comment " (process instance cleanup)")
        (natural 0))
      s
