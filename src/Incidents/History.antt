-- ===== src/Incidents/History.antt =====
-- Incidents over the calls of the manager (src/incidents/manager.go, manager_resolution.go).
use Prim.Native.String.{◌++◌ as str_append}
use atom_engine.Base.{
  ℕ, ◌≡◌, ◌≢◌, refl, sym, ap, ◌∙◌, String, false, not, Option, none, some, List, [], ◌∷◌, Dict,
  lookup, insert, lookup-insert, lookup-insert_ne, str_eq, eq_iff, All, Bool-cases, if_cases, inl,
  inr, if◌then◌else◌,
}
use atom_engine.Jobs.{Count, natural}
use atom_engine.Incidents.{
  Incident, IncidentFilter, Incidents, is_open, list_incidents, save_incident,
}
use atom_engine.Incidents.Requests.{
  Answer, CreateIncidentRequest, answered, refused, create_incident, enrich_incident_metadata,
  is_valid_request, requested_incident, sanitize_incident_data,
}
use atom_engine.Incidents.Manager.{
  ResolveIncidentRequest, batch_request, open_filter, dismiss_bpmn_error_incident, dismiss_request,
  get_incident, resolve_all, resolve_by_process_instance, resolve_by_type, resolve_incident,
  resolve_listed, resolve_page, retry_found, dismiss_found, retry_job_incident, retry_request,
}
use atom_engine.Incidents.Resolution.{Effect, IsFiled, resolve_incident-Effect, settled-id}

-- The calls that can change the store; `fresh` is what `GenerateID` gives.
pub data IncidentCall : Type 0 where
  create : (now : ℕ) (fresh : String) → CreateIncidentRequest → IncidentCall
  resolve_one : (now : ℕ) → ResolveIncidentRequest → IncidentCall
  retry_job : (now : ℕ) (id resolved_by : String) → Count → (comment : String) → IncidentCall
  dismiss_error : (now : ℕ) (id resolved_by comment : String) → IncidentCall
  resolve_type : (now : ℕ) (type action resolved_by comment : String) → Count → IncidentCall
  resolve_instance : (now : ℕ) (id action resolved_by comment : String) → IncidentCall

module _ (format : ℕ → String) where
  unfoldable pub step : IncidentCall → Incidents → Incidents
  step (create now fresh r) s = (create_incident format now fresh r s).0
  step (resolve_one now r) s = (resolve_incident now r s).0
  step (retry_job now id by retries comment) s = (retry_job_incident now id by retries comment s).0
  step (dismiss_error now id by comment) s = (dismiss_bpmn_error_incident now id by comment s).0
  step (resolve_type now type action by comment retries) s =
      (resolve_by_type now type action by comment retries s).0
  step (resolve_instance now id action by comment) s =
      (resolve_by_process_instance now id action by comment s).0

  unfoldable pub run : List IncidentCall → Incidents → Incidents
  unfolding step
  run [] s = s
  run (c ∷ cs) s = run cs (step c s)

-- The call draws no new id that equals the given one.
abbrev pub DrawsOther : String → IncidentCall → Type 0
DrawsOther k (create now fresh r) = fresh ≢ k
DrawsOther k _ = Unit

abbrev id_or : String → Option Incident → String
id_or k none = k
id_or k (some i) = i.id

-- An incident that is filed under its own id.
IsFiled-set :
    (id : String) (j : Incident) (before after : Dict Incident)
    → j.id ≡ id
    → IsFiled before
    → ((k : String) → lookup k after ≡ (if str_eq id k then some j else lookup k before))
    → IsFiled after
IsFiled-set id j before after own filed entry k v found = elim (Bool-cases (str_eq id k)) [
  | inl same ↦
      ap (id_or k) (sym found ∙ entry k ∙ ap (λ b. if b then some j else lookup k before) same)
      ∙ own
      ∙ (eq_iff id k).0 same
  | inr other ↦
      filed k v
        (sym (ap (λ b. if b then some j else lookup k before) other) ∙ sym (entry k) ∙ found)
]

module _ (k : String) (i : Incident) (closed : is_open i ≡ false) where
  -- The incidents are filed, and this one stands among them.
  abbrev Holds : Incidents → Type 0
  Holds s = IsFiled s.incidents × (lookup k s.incidents ≡ some i)

  Effect-Holds :
      (now : ℕ) (r : ResolveIncidentRequest) (s s' : Incidents) (a : Answer)
      → Effect now r s s' a
      → Holds s
      → Holds s'
  Effect-Holds now r s s' (refused e) (same, sent) (filed, found) = rw same (filed, found)
  Effect-Holds now r s s' (answered j) (i', read, alive, is, entry, sent) (filed, found) = (
    IsFiled-set r.incident_id j s.incidents s'.incidents
        (ap (λ x. x.id) is ∙ settled-id now r i' ∙ filed r.incident_id i' read) filed entry,
    elim (Bool-cases (str_eq r.incident_id k)) [
      | inl same ↦ cc (
        sym read ∙ ap (λ x. lookup x s.incidents) ((eq_iff r.incident_id k).0 same) ∙ found,
        alive,
        closed,
      )
      | inr other ↦ entry k ∙ rw other found
    ],
  )

  resolve_incident-Holds :
      (now : ℕ) (r : ResolveIncidentRequest) (s : Incidents)
      → Holds s
      → Holds (resolve_incident now r s).0
  resolve_incident-Holds now r s h =
      Effect-Holds now r s (resolve_incident now r s).0 (resolve_incident now r s).1
        (resolve_incident-Effect now r s h.0) h

  resolve_all-Holds :
      (now : ℕ) (request : String → ResolveIncidentRequest) (found : List Incident) (s : Incidents)
      → Holds s
      → Holds (resolve_all now request found s).0
  unfolding resolve_all
  resolve_all-Holds now request [] s h = h
  resolve_all-Holds now request (j ∷ rest) s h =
      resolve_all-Holds now request rest (resolve_incident now (request j.id) s).0
        (resolve_incident-Holds now (request j.id) s h)

  resolve_listed-Holds :
      (now : ℕ) (f : IncidentFilter) (request : String → ResolveIncidentRequest) (s : Incidents)
      → Holds s
      → Holds (resolve_listed now f request s).0
  unfolding resolve_listed
  resolve_listed-Holds now f request s h = after (list_incidents f s)
    where
      after : (o : Option (List Incident × ℕ)) → Holds (resolve_page now request s o).0
      after none = h
      after (some (found, total)) = resolve_all-Holds now request found s h

  retry_job_incident-Holds :
      (now : ℕ) (id by : String) (retries : Count) (comment : String) (s : Incidents)
      → Holds s
      → Holds (retry_job_incident now id by retries comment s).0
  unfolding retry_job_incident
  retry_job_incident-Holds now id by retries comment s h = after (get_incident id s)
    where
      after : (a : Answer) → Holds (retry_found now (retry_request id by retries comment) a s).0
      after (refused e) = h
      after (answered j) =
          if_cases (λ (o : Incidents × Answer). Holds o.0) (not (str_eq j.type "JOB_FAILURE"))
            (λ _. h)
            (λ _.
              if_cases (λ (o : Incidents × Answer). Holds o.0) (str_eq j.job_key "") (λ _. h)
                (λ _. resolve_incident-Holds now (retry_request id by retries comment) s h))

  dismiss_bpmn_error_incident-Holds :
      (now : ℕ) (id by comment : String) (s : Incidents)
      → Holds s
      → Holds (dismiss_bpmn_error_incident now id by comment s).0
  unfolding dismiss_bpmn_error_incident
  dismiss_bpmn_error_incident-Holds now id by comment s h = after (get_incident id s)
    where
      r : ResolveIncidentRequest
      r = dismiss_request id by (str_append "BPMN error dismissed: " comment)

      after : (a : Answer) → Holds (dismiss_found now r a s).0
      after (refused e) = h
      after (answered j) =
          if_cases (λ (o : Incidents × Answer). Holds o.0) (not (str_eq j.type "BPMN_ERROR"))
            (λ _. h) (λ _. resolve_incident-Holds now r s h)

  saved-Holds :
      (j : Incident) (s : Incidents)
      → j.id ≢ k
      → Holds s
      → Holds (record s { incidents = insert j.id j s.incidents })
  saved-Holds j s other (filed, found) = (
    IsFiled-set j.id j s.incidents _ refl filed (λ x. lookup-insert j.id x j s.incidents),
    lookup-insert_ne j.id k j s.incidents other ∙ found,
  )

  create_incident-Holds :
      (format : ℕ → String) (now : ℕ) (fresh : String) (r : CreateIncidentRequest) (s : Incidents)
      → fresh ≢ k
      → Holds s
      → Holds (create_incident format now fresh r s).0
  unfolding create_incident save_incident enrich_incident_metadata sanitize_incident_data
      requested_incident
  create_incident-Holds format now fresh r s other h =
      let i =
        sanitize_incident_data (enrich_incident_metadata format (requested_incident now fresh r)) in
      elim (Bool-cases (is_valid_request r)) [
        | inr invalid ↦ simp invalid h
        | inl valid ↦ elim (Bool-cases s.write_fails) [
          | inl fails ↦ simp (valid, fails) h
          | inr works ↦ simp (valid, works) (saved-Holds i s other h)
        ]
      ]

  step-Holds :
      (format : ℕ → String) (c : IncidentCall) (s : Incidents)
      → DrawsOther k c
      → Holds s
      → Holds (step format c s)
  unfolding step resolve_by_type resolve_by_process_instance
  step-Holds format (create now fresh r) s other h =
      create_incident-Holds format now fresh r s other h
  step-Holds format (resolve_one now r) s other h = resolve_incident-Holds now r s h
  step-Holds format (retry_job now id by retries comment) s other h =
      retry_job_incident-Holds now id by retries comment s h
  step-Holds format (dismiss_error now id by comment) s other h =
      dismiss_bpmn_error_incident-Holds now id by comment s h
  step-Holds format (resolve_type now type action by comment retries) s other h =
      resolve_listed-Holds now (record open_filter { types = type ∷ [] })
        (batch_request action by comment retries) s h
  step-Holds format (resolve_instance now id action by comment) s other h =
      resolve_listed-Holds now (record open_filter { process_instance_id = id })
        (batch_request action by (str_append comment " (process instance cleanup)") (natural 0)) s h

  -- An incident that is resolved or dismissed stays exactly as it is over any calls on the manager,
  -- whichever calls to the database and to the core fail. The incidents stand under their own ids,
  -- and no new id equals that of the incident.
  pub run_keeps_closed :
      (format : ℕ → String) (calls : List IncidentCall) (s : Incidents)
      → All (DrawsOther k) calls
      → IsFiled s.incidents
      → lookup k s.incidents ≡ some i
      → lookup k (run format calls s).incidents ≡ some i
  unfolding run
  run_keeps_closed format [] s other filed found = found
  run_keeps_closed format (c ∷ calls) s (first, other) filed found =
      let (filed', found') = step-Holds format c s first (filed, found) in
      run_keeps_closed format calls (step format c s) other filed' found'
