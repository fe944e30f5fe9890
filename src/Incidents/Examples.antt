-- ===== src/Incidents/Examples.antt =====
-- The theorems on incidents at concrete inputs (src/incidents/manager.go).
use atom_engine.Base.{
  ◌≡◌, refl, true, false, none, some, List, [], ◌∷◌, lookup, str_eq, eq_iff, arith, Bool-cases, inl,
  inr, if◌then◌else◌,
}
use mathlib.Core.Option
use atom_engine.Jobs.{Job, JobStatus, natural}
use atom_engine.Jobs.Manager.{Manager}
use atom_engine.Incidents.{Incident, Incidents, empty_incident, incidents_where}
use atom_engine.Incidents.Requests.{create_incident}
use atom_engine.Incidents.Creation.{job_failure_request}
use atom_engine.Incidents.Manager.{
  ResolveIncidentRequest, batch_request, dismiss_request, resolve_by_type, resolve_incident,
  retry_request, is_valid_resolve_request,
}
use atom_engine.Incidents.Resolution.{Effect, IsFiled, resolve_incident-Effect, settled}
use atom_engine.Incidents.Batches.{is_open_of, resolve_by_type-settles}
use atom_engine.Incidents.Filing.{Created, create_incident-get}
use atom_engine.Incidents.History.{
  IncidentCall, create, resolve_one, resolve_type, run, run_keeps_closed,
}
use atom_engine.Incidents.Recovery.{deliver, recovered, resolve_incident-recovers}
use atom_engine.Token.{Token, new_token}
use atom_engine.Engine.JobCallbacks.{job_failure_report}
use atom_engine.Incidents.Reports.{resolve_incident-unretried}
use atom_engine.Incidents.Stats.{IncidentStats, get_incident_stats}
use atom_engine.Incidents.Stats.Counts.{AreCounted, get_incident_stats-AreCounted}

abbrev failure : Incident
failure = record empty_incident {
  id = "i1";
  type = "JOB_FAILURE";
  status = "OPEN";
  message = "timeout";
  created_at = 5;
  job_key = "j1";
}

abbrev old_error : Incident
old_error = record empty_incident {
  id = "i2";
  type = "BPMN_ERROR";
  status = "RESOLVED";
  message = "no boundary";
  element_id = "task";
}

abbrev store : Incidents
store = record {
  incidents = ("i1", failure) ∷ ("i2", old_error) ∷ [];
  read_fails = false;
  list_fails = false;
  write_fails = false;
  has_core = true;
  send_fails = false;
  sent = [];
}

store-IsFiled : IsFiled store.incidents
unfolding lookup
store-IsFiled k i = elim (Bool-cases (str_eq "i1" k)) [
  | inl y ↦ rw y λ e. ground (arith, eq_iff "i1" k, e)
  | inr n ↦ rw n (elim (Bool-cases (str_eq "i2" k)) [
    | inl y ↦ rw y λ e. ground (arith, eq_iff "i2" k, e)
    | inr n' ↦ rw n' λ e. cc
  ])
]

abbrev retry : ResolveIncidentRequest
retry = retry_request "i1" "ann" (natural 3) "again"

resolve_incident-Effect_example :
    Effect 9 retry store (resolve_incident 9 retry store).0 (resolve_incident 9 retry store).1
resolve_incident-Effect_example = resolve_incident-Effect 9 retry store store-IsFiled

resolve_by_type-settles_example :
    lookup "i1"
      (resolve_by_type 9 "JOB_FAILURE" "RETRY" "ann" "again" (natural 3) store).0.incidents
    ≡ Option.map
        (λ i.
          if is_open_of "JOB_FAILURE" i
          then settled 9 (batch_request "RETRY" "ann" "again" (natural 3) i.id) i
          else i)
        (lookup "i1" store.incidents)
unfolding lookup
resolve_by_type-settles_example =
    resolve_by_type-settles 9 "JOB_FAILURE" "RETRY" "ann" "again" (natural 3) store refl refl refl
      refl refl (refl, (refl, tt)) store-IsFiled refl "i1"

abbrev calls : List IncidentCall
calls =
    resolve_one 9 (dismiss_request "i2" "ann" "no")
    ∷ create 10 "i3" (job_failure_request "j2" "task" "p1" "timeout" (natural 0))
    ∷ resolve_type 11 "BPMN_ERROR" "DISMISS" "ann" "old" (natural 0)
    ∷ []

run_keeps_closed_example : lookup "i2" (run (λ t. "today") calls store).incidents ≡ some old_error
unfolding lookup
run_keeps_closed_example =
    run_keeps_closed "i2" old_error refl (λ t. "today") calls store
      (tt, ((λ e. ground (arith, eq_iff "i3" "i2", e)), (tt, tt))) store-IsFiled refl

abbrev failed_job : Job
failed_job = record {
  id = "j1";
  type = "pay";
  status = JobStatus.failed;
  worker_id = "w";
  retries = natural 0;
  max_retries = 3;
  process_instance_id = "p1";
  element_id = "task";
  element_instance_id = "";
  token_id = "";
  custom_headers = [];
  variables = [];
  created_at = 1;
  updated_at = 4;
  started_at = some 2;
  completed_at = some 4;
  scheduled_at = none;
  priority = 0;
  error_message = "timeout";
  metadata = [];
}

abbrev jobs : Manager
jobs = record {
  store = record {
    jobs = ("j1", failed_job) ∷ [];
    get_fails = λ id. false;
    save_fails = λ id. false;
    list_fails = false;
  };
  workers = [];
  has_component = true;
  sent = [];
}

resolve_incident-recovers_example :
    lookup "j1" (deliver 12 (resolve_incident 9 retry store).0.sent jobs).store.jobs
    ≡ some (recovered 12 (natural 3) failed_job)
unfolding lookup is_valid_resolve_request
resolve_incident-recovers_example =
    resolve_incident-recovers 9 12 2 retry failure store failed_job jobs refl refl refl refl refl
      refl refl refl refl refl refl refl refl refl refl refl refl

create_incident-get_example :
    let r = job_failure_request "j2" "task" "p1" "timeout" (natural 0) in
    let o = create_incident (λ t. "today") 10 "i3" r store in Created "i3" r store o.0 o.1
create_incident-get_example =
    create_incident-get (λ t. "today") 10 "i3"
      (job_failure_request "j2" "task" "p1" "timeout" (natural 0)) store refl refl

get_incident_stats-AreCounted_example :
    (t : IncidentStats) × (get_incident_stats 20 store ≡ some t)
    × AreCounted 20 (incidents_where (λ _. true) store.incidents) t
get_incident_stats-AreCounted_example = get_incident_stats-AreCounted 20 store refl

abbrev waiting_token : Token
unfolding new_token
waiting_token = new_token "t1" 1 "p1" "order" "task"

resolve_incident-unretried_example :
    let s' =
      (create_incident
        (λ t. "today")
        10
        "i1"
        (job_failure_report waiting_token "j1" "task" "timeout")
        store).0 in
    (resolve_incident 11 retry s').0.sent ≡ []
resolve_incident-unretried_example =
    resolve_incident-unretried (λ t. "today") 10 11 waiting_token "j1" "task" "timeout" retry store
      refl refl refl
