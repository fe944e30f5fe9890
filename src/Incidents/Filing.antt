-- ===== src/Incidents/Filing.antt =====
-- The creation of an incident and its reading (CreateIncident and GetIncident of
-- src/incidents/manager.go).
use atom_engine.Base.{
  ℕ, ◌≡◌, refl, ap, String, true, false, none, some, lookup, insert, lookup-insert,
  lookup-insert_self, str_eq, Bool-cases, inl, inr, if◌then◌else◌,
}
use atom_engine.Incidents.{Incident, Incidents, find_incident, is_open, new_incident, save_incident}
use atom_engine.Incidents.Requests.{
  Answer, CreateIncidentRequest, answered, create_incident, enrich_incident_metadata, get_failed,
  invalid_request, is_valid_request, refused, requested_incident, sanitize_incident_data,
  save_failed,
}
use atom_engine.Incidents.Manager.{get_incident}

-- What a creation does.
abbrev pub Created : String → CreateIncidentRequest → Incidents → Incidents → Answer → Type 0
Created fresh r s s' (answered i) =
    (is_valid_request r ≡ true)
    × (i.id ≡ fresh)
    × (i.type ≡ r.type)
    × (is_open i ≡ true)
    × (get_incident fresh s' ≡ answered i)
    × ((k : String)
        → lookup k s'.incidents ≡ (if str_eq fresh k then some i else lookup k s.incidents))
Created fresh r s s' (refused e) =
    (s' ≡ s) × (e ≡ (if is_valid_request r then save_failed else invalid_request))

get_incident-found :
    (k : String) (i : Incident) (s : Incidents)
    → str_eq k "" ≡ false
    → s.read_fails ≡ false
    → lookup k s.incidents ≡ some i
    → get_incident k s ≡ answered i
unfolding get_incident find_incident
get_incident-found k i s full reads found =
    let loaded : find_incident k s ≡ some i = simp (full, reads, found) in
    ap (λ o. elim o [ none ↦ refused get_failed | some i' ↦ answered i' ]) loaded

-- A creation with a valid request and a working write answers with an open incident that has the new
-- id and the type of the request and is read back by its id, and no other incident changes; any other
-- creation changes nothing and answers with the error. The new id is not empty and reads work.
pub create_incident-get :
    (format : ℕ → String) (now : ℕ) (fresh : String) (r : CreateIncidentRequest) (s : Incidents)
    → str_eq fresh "" ≡ false
    → s.read_fails ≡ false
    → Created fresh r s
        (create_incident format now fresh r s).0
        (create_incident format now fresh r s).1
unfolding create_incident save_incident enrich_incident_metadata sanitize_incident_data
    requested_incident new_incident get_incident
create_incident-get format now fresh r s full reads =
    let i =
      sanitize_incident_data (enrich_incident_metadata format (requested_incident now fresh r)) in
    elim (Bool-cases (is_valid_request r)) [
      | inr invalid ↦ simp invalid (refl, refl)
      | inl valid ↦ elim (Bool-cases s.write_fails) [
        | inl fails ↦ simp (valid, fails) (refl, refl)
        | inr works ↦
            simp (valid, works)
              (
                refl,
                refl,
                refl,
                refl,
                get_incident-found fresh i (record s { incidents = insert fresh i s.incidents })
                    full reads (lookup-insert_self fresh i s.incidents),
                λ k. lookup-insert fresh k i s.incidents,
              )
      ]
    ]
