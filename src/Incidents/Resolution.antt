-- ===== src/Incidents/Resolution.antt =====
-- The resolution of one incident (ResolveIncident of src/incidents/manager.go).
use atom_engine.Base.{
  ℕ, ◌≡◌, ◌⊎◌, refl, ap, ◌∙◌, String, true, false, not, ◌&&◌, ◌||◌, none, some, List, [], ◌∷◌, ◌++◌,
  Dict, lookup, insert, lookup-insert, str_eq, arith, Bool-cases, Option-cases, inl, inr,
  if◌then◌else◌,
}
use mathlib.Core.List.{append-nil}
use atom_engine.Incidents.{
  Incident, Incidents, UpdateJobRetries, dismiss, find_incident, is_open, save_incident,
}
use atom_engine.Incidents.Requests.{
  Answer, already_resolved, answered, get_failed, invalid_request, refused, save_failed,
}
use atom_engine.Incidents.Manager.{
  ResolveIncidentRequest, is_valid_resolve_request, resolve_found, resolve_incident, retried,
  retries_job, saved_as, update_job_retries,
}

-- The incident after a valid request.
abbrev pub settled : ℕ → ResolveIncidentRequest → Incident → Incident
settled now r i =
    if str_eq r.action "RETRY" then retried now r i else dismiss now r.resolved_by r.comment i

-- The messages to the jobs that a valid request sends: one, for the retry of a failed job.
abbrev pub messages : ResolveIncidentRequest → Incident → Incidents → List UpdateJobRetries
messages r i s =
    if str_eq r.action "RETRY" && (retries_job i && (s.has_core && not s.send_fails))
    then record { job_key = i.job_key; new_retries = r.new_retries } ∷ []
    else []

abbrev pub notified : ResolveIncidentRequest → Incident → Incidents → Incidents
notified r i s = record s { sent = s.sent ++ messages r i s }

pub settled-id : (now : ℕ) (r : ResolveIncidentRequest) (i : Incident) → (settled now r i).id ≡ i.id
unfolding retried dismiss
settled-id now r i = ground arith

pub settled-closed :
    (now : ℕ) (r : ResolveIncidentRequest) (i : Incident) → is_open (settled now r i) ≡ false
unfolding retried dismiss
settled-closed now r i = elim (Bool-cases (str_eq r.action "RETRY")) [
  | inl y ↦ rw y refl
  | inr n ↦ rw n refl
]

resolve_found-open :
    (now : ℕ) (r : ResolveIncidentRequest) (i : Incident) (s : Incidents)
    → is_valid_resolve_request r ≡ true
    → is_open i ≡ true
    → resolve_found now r i s ≡ saved_as (settled now r i) (notified r i s)
unfolding is_valid_resolve_request resolve_found update_job_retries
resolve_found-open now r i s valid open_now = elim (Bool-cases (str_eq r.action "RETRY")) [
  | inl retry ↦ elim (Bool-cases (retries_job i)) [
    | inl job ↦ elim (Bool-cases (s.has_core && not s.send_fails)) [
      | inl sends ↦ simp (open_now, retry, job, sends)
      | inr mute ↦ simp (open_now, retry, job, mute, append-nil)
    ]
    | inr other ↦ simp (open_now, retry, other, append-nil)
  ]
  | inr no_retry ↦
      let dismissed : str_eq r.action "DISMISS" ≡ true = ground (arith, valid, no_retry) in
      simp (open_now, no_retry, dismissed, append-nil)
]

-- What a resolution leaves, in the store and as its answer.
abbrev pub Effect : ℕ → ResolveIncidentRequest → Incidents → Incidents → Answer → Type 0
Effect now r s s' (answered j) =
    (i : Incident) × (lookup r.incident_id s.incidents ≡ some i)
    × (is_open i ≡ true)
    × (j ≡ settled now r i)
    × ((k : String)
        → lookup k s'.incidents ≡ (if str_eq r.incident_id k then some j else lookup k s.incidents))
    × (s'.sent ≡ s.sent ++ messages r i s)
Effect now r s s' (refused e) =
    (s'.incidents ≡ s.incidents) × ((s'.sent ≡ s.sent) ⊎ (e ≡ save_failed))

-- Every incident stands under its own id.
abbrev pub IsFiled : Dict Incident → Type 0
IsFiled d = (k : String) (i : Incident) → lookup k d ≡ some i → i.id ≡ k

module _ (now : ℕ) (r : ResolveIncidentRequest) (s : Incidents) where
  abbrev Effects : Incidents × Answer → Type 0
  Effects o = Effect now r s o.0 o.1

  saved-Effect :
      (i : Incident)
      → lookup r.incident_id s.incidents ≡ some i
      → i.id ≡ r.incident_id
      → is_open i ≡ true
      → Effects (saved_as (settled now r i) (notified r i s))
  unfolding save_incident
  saved-Effect i found own open_now = elim (Bool-cases s.write_fails) [
    | inl fails ↦ simp fails (refl, inr refl)
    | inr works ↦ simp works (
      i,
      found,
      open_now,
      refl,
      λ k.
          lookup-insert (settled now r i).id k (settled now r i) s.incidents
          ∙ ap (λ j. if str_eq j k then some (settled now r i) else lookup k s.incidents)
              (settled-id now r i ∙ own),
      refl,
    )
  ]

  resolve_found-closed :
      (i : Incident) → is_open i ≡ false → resolve_found now r i s ≡ (s, refused already_resolved)
  unfolding resolve_found
  resolve_found-closed i closed = simp closed

  -- A resolution that succeeds found an open incident, settles it in the way of the request, leaves
  -- every other incident as it was, and sends the message that the request asks for: the new retries
  -- of the job, for the retry of a failed job where the core takes it. One that fails changes no
  -- incident, and sends nothing unless the save has failed. The incidents stand under their own ids.
  pub resolve_incident-Effect :
      IsFiled s.incidents → Effect now r s (resolve_incident now r s).0 (resolve_incident now r s).1
  unfolding resolve_incident find_incident
  resolve_incident-Effect filed = elim (Bool-cases (is_valid_resolve_request r)) [
    | inr invalid ↦ simp invalid (refl, inl refl)
    | inl valid ↦ elim (Bool-cases (str_eq r.incident_id "" || s.read_fails)) [
      | inl fails ↦ simp (valid, fails) (refl, inl refl)
      | inr reads ↦ elim (Option-cases (lookup r.incident_id s.incidents)) [
        | inl missing ↦ simp (valid, reads, missing) (refl, inl refl)
        | inr (i, found) ↦ elim (Bool-cases (is_open i)) [
          | inr closed ↦ simp (valid, reads, found, resolve_found-closed i closed) (refl, inl refl)
          | inl open_now ↦
              simp (valid, reads, found, resolve_found-open now r i s valid open_now)
                (saved-Effect i found (filed r.incident_id i found) open_now)
        ]
      ]
    ]
  ]

is_valid_resolve_request-named :
    (r : ResolveIncidentRequest)
    → is_valid_resolve_request r ≡ true
    → str_eq r.incident_id "" ≡ false
unfolding is_valid_resolve_request
is_valid_resolve_request-named r valid = ground (arith, valid)

-- A valid resolution of an open incident, where the database works.
pub resolve_incident-open :
    (now : ℕ) (r : ResolveIncidentRequest) (i : Incident) (s : Incidents)
    → is_valid_resolve_request r ≡ true
    → s.read_fails ≡ false
    → s.write_fails ≡ false
    → lookup r.incident_id s.incidents ≡ some i
    → is_open i ≡ true
    → resolve_incident now r s ≡ (
      record (notified r i s) {
        incidents = insert (settled now r i).id (settled now r i) s.incidents;
      },
      answered (settled now r i),
    )
unfolding resolve_incident find_incident save_incident
resolve_incident-open now r i s valid reads works found open_now =
    let named : str_eq r.incident_id "" ≡ false = is_valid_resolve_request-named r valid in
    let loaded : find_incident r.incident_id s ≡ some i = simp (named, reads, found) in
    ap
      (λ b.
        if b
        then elim (find_incident r.incident_id s) [
          | none ↦ (s, refused get_failed)
          | some i' ↦ resolve_found now r i' s
        ]
        else (s, refused invalid_request))
      valid
    ∙ ap (λ o. elim o [ none ↦ (s, refused get_failed) | some i' ↦ resolve_found now r i' s ])
        loaded
    ∙ resolve_found-open now r i s valid open_now
    ∙ simp works
