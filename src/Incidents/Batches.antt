-- ===== src/Incidents/Batches.antt =====
-- The resolution of many incidents (ResolveByType and ResolveByProcessInstance of
-- src/incidents/manager_resolution.go).
use atom_engine.Base.{
  ℕ, ◌≡◌, refl, ap, ◌∙◌, String, Bool, true, false, ◌&&◌, Option, none, some, List, [], ◌∷◌, Dict,
  lookup, IsDict, str_eq, eq_iff, arith, Bool-cases, inl, inr, if◌then◌else◌, length,
}
use mathlib.Core.Option
use atom_engine.Jobs.{Count}
use atom_engine.Incidents.{
  Incident, Incidents, incidents_where, is_open, list_incidents, matches_incident_filter,
  skip_offset,
}
use atom_engine.Incidents.Manager.{
  ResolveIncidentRequest, batch_request, is_natural, is_valid_resolve_request, open_filter,
  resolve_all, resolve_by_type, resolve_listed, resolve_page,
}
use atom_engine.Incidents.Resolution.{IsFiled, settled}
use atom_engine.Incidents.Entries.{StandsIn, StandsIn-self, entry_after, resolve_all-entries}

str_eq_sym : (s t : String) → str_eq s t ≡ str_eq t s
str_eq_sym s t = ground (arith, eq_iff s t, eq_iff t s)

pub skip_offset-zero : (found : List Incident) → skip_offset 0 found ≡ found
skip_offset-zero [] = refl
skip_offset-zero (i ∷ found) = ground arith

-- The open incidents of a type.
abbrev pub is_open_of : String → Incident → Bool
is_open_of type i = is_open i && str_eq i.type type

type_filter-matches :
    (type : String) (i : Incident)
    → matches_incident_filter (record open_filter { types = type ∷ [] }) i ≡ is_open_of type i
unfolding matches_incident_filter
type_filter-matches type i = ground (arith, str_eq_sym "OPEN" i.status, str_eq_sym type i.type)

is_valid_resolve_request-batch :
    (action resolved_by comment : String) (new_retries : Count) (id : String)
    → str_eq id "" ≡ false
    → str_eq resolved_by "" ≡ false
    → (if str_eq action "RETRY" then is_natural new_retries else str_eq action "DISMISS") ≡ true
    → is_valid_resolve_request (batch_request action resolved_by comment new_retries id) ≡ true
unfolding is_valid_resolve_request
is_valid_resolve_request-batch action resolved_by comment new_retries id full signed acts =
    simp (full, signed) acts

key_full :
    (d : Dict Incident) (k : String) (i : Incident)
    → lookup "" d ≡ none
    → lookup k d ≡ some i
    → str_eq k "" ≡ false
key_full d k i no_empty found = elim (Bool-cases (str_eq k "")) [
  | inl y ↦ cc (ap (λ x. lookup x d) ((eq_iff k "").0 y), no_empty, found)
  | inr n ↦ n
]

resolve_listed-entries :
    (now : ℕ) (types : List String) (id : String) (request : String → ResolveIncidentRequest)
    (s : Incidents)
    → s.list_fails ≡ false
    → let f = record open_filter { types = types; process_instance_id = id } in
      (resolve_listed now f request s).0
      ≡ (resolve_all now request (incidents_where (matches_incident_filter f) s.incidents) s).0
unfolding resolve_listed list_incidents
resolve_listed-entries now types id request s lists =
    let f = record open_filter { types = types; process_instance_id = id } in
    let found = incidents_where (matches_incident_filter f) s.incidents in
    let listed : list_incidents f s ≡ some (found, length found) =
      simp lists (ap (λ l. some (l, length found)) (skip_offset-zero found)) in
    ap (λ o. (resolve_page now request s o).0) listed

entry_after-all :
    (now : ℕ) (p q : Incident → Bool) (request : String → ResolveIncidentRequest)
    (o : Option Incident)
    → ((i : Incident) → p i ≡ q i)
    → entry_after now p request o o
      ≡ Option.map (λ i. if q i then settled now (request i.id) i else i) o
entry_after-all now p q request none same = refl
entry_after-all now p q request (some i) same = rw (same i) (ground arith)

-- Where the database works, the resolution by type settles each open incident of the type in the way
-- of the request, and leaves every other incident as it is. The action and the name of the resolver
-- are valid, and the incidents stand once in the store, under their own ids, none of which is empty.
pub resolve_by_type-settles :
    (now : ℕ) (type action resolved_by comment : String) (new_retries : Count) (s : Incidents)
    → s.list_fails ≡ false
    → s.read_fails ≡ false
    → s.write_fails ≡ false
    → str_eq resolved_by "" ≡ false
    → (if str_eq action "RETRY" then is_natural new_retries else str_eq action "DISMISS") ≡ true
    → IsDict s.incidents
    → IsFiled s.incidents
    → lookup "" s.incidents ≡ none
    → (k : String)
    → lookup k (resolve_by_type now type action resolved_by comment new_retries s).0.incidents
      ≡ Option.map
          (λ i.
            if is_open_of type i
            then settled now (batch_request action resolved_by comment new_retries i.id) i
            else i)
          (lookup k s.incidents)
unfolding resolve_by_type
resolve_by_type-settles now type action resolved_by comment new_retries s lists reads works signed
      acts u filed no_empty k =
    let request = batch_request action resolved_by comment new_retries in
    let f = record open_filter { types = type ∷ [] } in
    let valid : (id : String)
        → str_eq id "" ≡ false
        → is_valid_resolve_request (request id) ≡ true =
      λ id full.
        is_valid_resolve_request-batch action resolved_by comment new_retries id full signed acts in
    let stands : StandsIn s.incidents s.incidents =
      StandsIn-self s.incidents s.incidents u
        (λ j i e. (e, filed j i e, key_full s.incidents j i no_empty e)) in
    ap (λ o. lookup k o.incidents) (resolve_listed-entries now (type ∷ []) "" request s lists)
    ∙ resolve_all-entries now (matches_incident_filter f) request (λ id. refl) valid
        (λ i y. ground (arith, type_filter-matches type i, y)) s.incidents s k reads works u stands
    ∙ entry_after-all now (matches_incident_filter f) (is_open_of type) request
        (lookup k s.incidents) (type_filter-matches type)
