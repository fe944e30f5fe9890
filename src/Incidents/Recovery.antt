-- ===== src/Incidents/Recovery.antt =====
-- A job that fails, and the incident of it (ResolveIncident of src/incidents/manager.go, and
-- handleUpdateJobRetries of src/jobs/component.go, which takes its message).
use atom_engine.Base.{
  str_eq, ℕ, suc, ◌≡◌, ap, ◌∙◌, true, false, not, ◌&&◌, ltb, none, some, List, [], ◌∷◌, ◌++◌,
  lookup, insert, lookup-insert_self, eq_iff, arith, if◌then◌else◌,
}
use atom_engine.Jobs.{Count, natural, Job, JobStatus, get_job, save_job, save_failed, ok, err}
use atom_engine.Jobs.Manager.{Manager, retried_job, find_job, saved, with_job}
use atom_engine.Jobs.Manager.{update_job_retries as set_job_retries}
use atom_engine.Incidents.{Incident, Incidents, UpdateJobRetries, is_open}
use atom_engine.Incidents.Manager.{
  ResolveIncidentRequest, is_valid_resolve_request, resolve_incident, retries_job,
}
use atom_engine.Incidents.Resolution.{messages, resolve_incident-open}

-- An error is logged and answered.
unfoldable pub handle_update_job_retries : ℕ → UpdateJobRetries → Manager → Manager
handle_update_job_retries now x m = (set_job_retries now x.job_key x.new_retries m).0

-- The jobs component takes its messages one after the other.
unfoldable pub deliver : ℕ → List UpdateJobRetries → Manager → Manager
unfolding handle_update_job_retries
deliver now [] m = m
deliver now (x ∷ xs) m = deliver now xs (handle_update_job_retries now x m)

-- The job after a retry.
abbrev pub recovered : ℕ → Count → Job → Job
recovered now retries j = record j {
  retries = retries;
  updated_at = now;
  status = JobStatus.pending;
  error_message = "";
  completed_at = none;
}

retried_job-failed :
    (now n : ℕ) (j : Job)
    → j.status ≡ JobStatus.failed
    → retried_job now (natural (suc n)) j ≡ recovered now (natural (suc n)) j
unfolding retried_job
retried_job-failed now n j failed =
    let positive : ltb 0 (suc n) ≡ true = ground arith in simp (failed, positive)

set_job_retries-failed :
    (now n : ℕ) (j : Job) (m : Manager)
    → lookup j.id m.store.jobs ≡ some j
    → m.store.get_fails j.id ≡ false
    → m.store.save_fails j.id ≡ false
    → j.status ≡ JobStatus.failed
    → lookup j.id (set_job_retries now j.id (natural (suc n)) m).0.store.jobs
      ≡ some (recovered now (natural (suc n)) j)
unfolding set_job_retries save_job saved with_job get_job find_job
set_job_retries-failed now n j m found gets saves failed =
    let j' = recovered now (natural (suc n)) j in
    let update = λ (job : Job). saved m (save_job job m.store) (λ m'. m') in
    let loaded : find_job j.id m.store ≡ ok j = simp (gets, found) in
    ap
      (λ o.
        lookup j.id
          (with_job m o (λ job. update (retried_job now (natural (suc n)) job))).0.store.jobs)
      loaded
    ∙ ap (λ job. lookup j.id (update job).0.store.jobs) (retried_job-failed now n j failed)
    ∙ ap
        (λ b.
          lookup j.id
            (saved m
              (if b
                then err save_failed
                else ok (record m.store { jobs = insert j.id j' m.store.jobs }))
              (λ m'. m')).0.store.jobs)
        saves
    ∙ lookup-insert_self j.id j' m.store.jobs

messages-retry :
    (r : ResolveIncidentRequest) (i : Incident) (s : Incidents) (retries : Count)
    → r.action ≡ "RETRY"
    → r.new_retries ≡ retries
    → retries_job i ≡ true
    → s.has_core ≡ true
    → s.send_fails ≡ false
    → messages r i s ≡ record { job_key = i.job_key; new_retries = retries } ∷ []
messages-retry r i s retries retry given job core sends =
    ap
      (λ b.
        if b && (retries_job i && (s.has_core && not s.send_fails))
        then record { job_key = i.job_key; new_retries = r.new_retries } ∷ []
        else [])
      ((eq_iff r.action "RETRY").1 retry)
    ∙ ap
        (λ b.
          if b && (s.has_core && not s.send_fails)
          then record { job_key = i.job_key; new_retries = r.new_retries } ∷ []
          else [])
        job
    ∙ simp (core, sends, given)

-- The retry of an incident of type JOB_FAILURE that carries the id of a failed job makes that job
-- pending again, with the retries of the request, once the jobs component has taken the messages of
-- the call. The database and the core work, the request is a valid retry with at least one retry,
-- the incident is open, nothing was sent before, and the job is in the store under its own id.
pub resolve_incident-recovers :
    (now later n : ℕ) (r : ResolveIncidentRequest) (i : Incident) (s : Incidents) (j : Job)
    (m : Manager)
    → is_valid_resolve_request r ≡ true
    → r.action ≡ "RETRY"
    → r.new_retries ≡ natural (suc n)
    → s.read_fails ≡ false
    → s.write_fails ≡ false
    → s.has_core ≡ true
    → s.send_fails ≡ false
    → s.sent ≡ []
    → lookup r.incident_id s.incidents ≡ some i
    → is_open i ≡ true
    → i.type ≡ "JOB_FAILURE"
    → str_eq j.id "" ≡ false
    → i.job_key ≡ j.id
    → lookup j.id m.store.jobs ≡ some j
    → m.store.get_fails j.id ≡ false
    → m.store.save_fails j.id ≡ false
    → j.status ≡ JobStatus.failed
    → lookup j.id (deliver later (resolve_incident now r s).0.sent m).store.jobs
      ≡ some (recovered later (natural (suc n)) j)
unfolding deliver handle_update_job_retries
resolve_incident-recovers now later n r i s j m valid retry retries reads works core sends none_sent
      found open_now type named key job_found gets saves failed =
    let job : retries_job i ≡ true =
      ap (λ b. b && not (str_eq i.job_key "")) ((eq_iff i.type "JOB_FAILURE").1 type)
      ∙ ap (λ k. not (str_eq k "")) key
      ∙ ap not named in
    let direct = resolve_incident-open now r i s valid reads works found open_now in
    let sent : (resolve_incident now r s).0.sent
        ≡ record { job_key = j.id; new_retries = natural (suc n) } ∷ [] =
      ap (λ o. o.0.sent) direct
      ∙ ap (λ l. l ++ messages r i s) none_sent
      ∙ messages-retry r i s (natural (suc n)) retry retries job core sends
      ∙ ap (λ k. record { job_key = k; new_retries = natural (suc n) } ∷ []) key in
    ap (λ x. lookup j.id (deliver later x m).store.jobs) sent
    ∙ set_job_retries-failed later n j m job_found gets saves failed
