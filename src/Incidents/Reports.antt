-- ===== src/Incidents/Reports.antt =====
-- The incident of a failed job that the process component reports (createJobFailureIncident of
-- src/process/job_callbacks.go), in the manager of the incidents.
use atom_engine.Base.{
  ℕ, ◌≡◌, refl, ap, ◌∙◌, String, true, false, some, [], ◌++◌, lookup, insert, lookup-insert_self,
  str_eq, Bool-cases, inl, inr,
}
use mathlib.Core.List.{append-nil}
use atom_engine.Token.{Token}
use atom_engine.Engine.JobCallbacks.{job_failure_report}
use atom_engine.Incidents.{Incident, Incidents, is_open, new_incident, save_incident}
use atom_engine.Incidents.Requests.{
  answered, create_incident, enrich_incident_metadata, is_valid_request, requested_incident,
  sanitize_incident_data,
}
use atom_engine.Incidents.Manager.{
  ResolveIncidentRequest, is_valid_resolve_request, resolve_incident, retries_job,
}
use atom_engine.Incidents.Resolution.{messages, resolve_incident-open}

messages-other :
    (r : ResolveIncidentRequest) (i : Incident) (s : Incidents)
    → retries_job i ≡ false
    → messages r i s ≡ []
messages-other r i s other = elim (Bool-cases (str_eq r.action "RETRY")) [
  | inl y ↦ simp (y, other)
  | inr n ↦ simp n
]

resolve_incident-silent :
    (now : ℕ) (r : ResolveIncidentRequest) (i : Incident) (s : Incidents)
    → s.read_fails ≡ false
    → s.write_fails ≡ false
    → lookup r.incident_id s.incidents ≡ some i
    → is_open i ≡ true
    → retries_job i ≡ false
    → (resolve_incident now r s).0.sent ≡ s.sent
unfolding resolve_incident
resolve_incident-silent now r i s reads works found alive other =
    elim (Bool-cases (is_valid_resolve_request r)) [
      | inr invalid ↦ simp (resolve_incident, invalid)
      | inl valid ↦
          ap (λ o. o.0.sent) (resolve_incident-open now r i s valid reads works found alive)
          ∙ ap (λ l. s.sent ++ l) (messages-other r i s other)
          ∙ append-nil s.sent
    ]

-- No resolution of the incident of a failed job, as the process component reports it, tells the jobs
-- component to retry the job, whatever its action is. The error has a message, the new id is not
-- empty and the database works.
pub resolve_incident-unretried :
    (format : ℕ → String) (now later : ℕ) (t : Token) (job_id element_id message : String)
    (r : ResolveIncidentRequest) (s : Incidents)
    → str_eq message "" ≡ false
    → s.read_fails ≡ false
    → s.write_fails ≡ false
    → let s' =
        (create_incident format now r.incident_id
          (job_failure_report t job_id element_id message)
          s).0 in
      (resolve_incident later r s').0.sent ≡ s.sent
unfolding create_incident save_incident enrich_incident_metadata sanitize_incident_data
    requested_incident new_incident is_valid_request
resolve_incident-unretried format now later t job_id element_id message r s full reads works =
    let request = job_failure_report t job_id element_id message in
    let i =
      sanitize_incident_data
        (enrich_incident_metadata format (requested_incident now r.incident_id request)) in
    let s' = record s { incidents = insert r.incident_id i s.incidents } in
    let created : create_incident format now r.incident_id request s ≡ (s', answered i) =
      simp (create_incident, full, works) in
    ap (λ o. (resolve_incident later r o.0).0.sent) created
    ∙ resolve_incident-silent later r i s' reads works
        (lookup-insert_self r.incident_id i s.incidents) refl refl
