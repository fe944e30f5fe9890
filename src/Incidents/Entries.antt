-- ===== src/Incidents/Entries.antt =====
-- The entries of the store in the loop of a batch (src/incidents/manager_resolution.go).
use atom_engine.Base.{
  ℕ, ◌≡◌, refl, sym, ap, subst, ◌∙◌, String, Bool, true, false, Option, none, some, [], ◌∷◌, Dict,
  lookup, lookup-insert, IsDict, str_eq, str_eq_self, eq_iff, arith, Bool-cases, inl, inr,
  if◌then◌else◌,
}
use atom_engine.Incidents.{Incident, Incidents, incidents_where, is_open}
use atom_engine.Incidents.Manager.{
  ResolveIncidentRequest, is_valid_resolve_request, resolve_all, resolve_incident,
}
use atom_engine.Incidents.Resolution.{resolve_incident-open, settled, settled-id}

-- What one turn leaves in the store.
record Settles (now : ℕ) (r : ResolveIncidentRequest) (i : Incident) (s s' : Incidents)
    : Type 0 where
  reads : s'.read_fails ≡ false
  works : s'.write_fails ≡ false
  entry :
      (k : String)
      → lookup k s'.incidents
        ≡ (if str_eq r.incident_id k then some (settled now r i) else lookup k s.incidents)

resolve_incident-Settles :
    (now : ℕ) (r : ResolveIncidentRequest) (i : Incident) (s : Incidents)
    → is_valid_resolve_request r ≡ true
    → s.read_fails ≡ false
    → s.write_fails ≡ false
    → lookup r.incident_id s.incidents ≡ some i
    → i.id ≡ r.incident_id
    → is_open i ≡ true
    → Settles now r i s (resolve_incident now r s).0
resolve_incident-Settles now r i s valid reads works found own open_now =
    let direct = resolve_incident-open now r i s valid reads works found open_now in
    record {
      reads = ap (λ o. o.0.read_fails) direct ∙ reads;
      works = ap (λ o. o.0.write_fails) direct ∙ works;
      entry = λ k.
          ap (λ o. lookup k o.0.incidents) direct
          ∙ lookup-insert (settled now r i).id k (settled now r i) s.incidents
          ∙ ap (λ j. if str_eq j k then some (settled now r i) else lookup k s.incidents)
              (settled-id now r i ∙ own);
    }

-- Each entry of a part of the store stands in the store.
abbrev pub StandsIn : Dict Incident → Dict Incident → Type 0
StandsIn [] store = Unit
StandsIn ((k, i) ∷ d) store =
    (lookup k store ≡ some i) × (i.id ≡ k) × (str_eq k "" ≡ false) × StandsIn d store

-- The entry of a key, where those of a part of the store that pass are settled.
abbrev pub entry_after :
    ℕ
    → (Incident → Bool)
    → (String → ResolveIncidentRequest)
    → Option Incident
    → Option Incident
    → Option Incident
entry_after now p request none kept = kept
entry_after now p request (some i) kept = if p i then some (settled now (request i.id) i) else kept

module _ (now : ℕ) (p : Incident → Bool) (request : String → ResolveIncidentRequest)
    (own : (id : String) → (request id).incident_id ≡ id)
    (valid : (id : String) → str_eq id "" ≡ false → is_valid_resolve_request (request id) ≡ true)
    (only_open : (i : Incident) → p i ≡ true → is_open i ≡ true) where
  StandsIn-insert :
      (j : String) (i : Incident) (d before after : Dict Incident)
      → ((k : String) → lookup k after ≡ (if str_eq j k then some i else lookup k before))
      → lookup j d ≡ none
      → StandsIn d before
      → StandsIn d after
  unfolding lookup
  StandsIn-insert j i [] before after entry fresh h = tt
  StandsIn-insert j i ((k, v) ∷ d) before after entry fresh (found, named, full, h) = (
    ground (arith, entry k, fresh, found, eq_iff j k, eq_iff k j),
    named,
    full,
    StandsIn-insert j i d before after entry (ground (arith, fresh)) h,
  )

  pub resolve_all-entries :
      (d : Dict Incident) (s : Incidents) (k : String)
      → s.read_fails ≡ false
      → s.write_fails ≡ false
      → IsDict d
      → StandsIn d s.incidents
      → lookup k (resolve_all now request (incidents_where p d) s).0.incidents
        ≡ entry_after now p request (lookup k d) (lookup k s.incidents)
  unfolding resolve_all incidents_where lookup
  resolve_all-entries [] s k reads works u stands = refl
  resolve_all-entries ((j, i) ∷ d) s k reads works (fresh, u) (found, named, full, stands) =
      let at : (request i.id).incident_id ≡ j = own i.id ∙ named in
      let gone : str_eq j k ≡ true → lookup k d ≡ none =
        λ y. ap (λ x. lookup x d) (sym ((eq_iff j k).0 y)) ∙ fresh in
      elim (Bool-cases (p i)) [
        | inr n ↦ rw n (
            resolve_all-entries d s k reads works u stands ∙ elim (Bool-cases (str_eq j k)) [
              | inl same ↦ rw (gone same) (rw same (rw n refl))
              | inr other ↦ rw other refl
            ])
        | inl y ↦ rw y (
            let next = (resolve_incident now (request i.id) s).0 in
            let c =
              resolve_incident-Settles now (request i.id) i s
                (valid i.id (subst (λ x. str_eq x "" ≡ false) (sym named) full)) reads works
                (ap (λ x. lookup x s.incidents) at ∙ found) (named ∙ sym at) (only_open i y) in
            let entry : (x : String)
                → lookup x next.incidents ≡ (
                    if str_eq j x
                    then some (settled now (request i.id) i)
                    else lookup x s.incidents) =
              λ x.
                c.entry x
                ∙ ap
                    (λ t.
                      if str_eq t x
                      then some (settled now (request i.id) i)
                      else lookup x s.incidents)
                    at in
            resolve_all-entries d next k c.reads c.works u (
              StandsIn-insert j (settled now (request i.id) i) d s.incidents next.incidents entry
                fresh stands)
            ∙ elim (Bool-cases (str_eq j k)) [
              | inl same ↦ rw (gone same) (rw same (rw y (entry k ∙ rw same refl)))
              | inr other ↦
                  rw other (ap (entry_after now p request (lookup k d)) (entry k ∙ rw other refl))
            ])
      ]

pub StandsIn-self :
    (d store : Dict Incident)
    → IsDict d
    → ((k : String) (i : Incident)
        → lookup k d ≡ some i
        → (lookup k store ≡ some i) × (i.id ≡ k) × (str_eq k "" ≡ false))
    → StandsIn d store
unfolding lookup
StandsIn-self [] store u h = tt
StandsIn-self ((k, i) ∷ d) store (fresh, u) h =
    let (found, named, full) = h k i (ap (λ b. if b then some i else lookup k d) (str_eq_self k)) in
    (
      found,
      named,
      full,
      StandsIn-self d store u (λ j v e. h j v (ground (arith, e, fresh, eq_iff k j))),
    )
