-- ===== src/Incidents/Stats.antt =====
-- The statistics of the incidents (GetIncidentStats of src/incidents/manager.go).
pub mod Counts
use atom_engine.Base.{
  ℕ, ◌+◌, ◌-◌, ◌≡◌, refl, ap, ◌∙◌, String, Bool, true, false, ◌&&◌, ◌||◌, Option, none, some, List,
  [], ◌∷◌, Dict, lookup, insert, lookup-insert, str_eq, eq_iff, arith, if◌then◌else◌, ltb, length,
  All, Bool-cases, inl, inr,
}
use atom_engine.Incidents.{
  Incident, IncidentFilter, Incidents, is_open, is_resolved, is_dismissed, list_incidents,
  matches_incident_filter, incidents_where,
}

pub record IncidentStats : Type 0 where
  pub total_incidents : ℕ
  pub open_incidents : ℕ
  pub resolved_incidents : ℕ
  pub dismissed_incidents : ℕ
  pub incidents_by_type : Dict ℕ
  pub incidents_by_status : Dict ℕ
  pub recent_incidents : ℕ

abbrev pub stats_filter : IncidentFilter
stats_filter = record {
  statuses = [];
  types = [];
  process_instance_id = "";
  process_key = "";
  element_id = "";
  job_key = "";
  worker_id = "";
  created_after = none;
  created_before = none;
  limit = 0;
  offset = 0;
}

abbrev pub empty_stats : ℕ → IncidentStats
empty_stats total = record {
  total_incidents = total;
  open_incidents = 0;
  resolved_incidents = 0;
  dismissed_incidents = 0;
  incidents_by_type = [];
  incidents_by_status = [];
  recent_incidents = 0;
}

abbrev pub or_zero : Option ℕ → ℕ
or_zero none = 0
or_zero (some n) = n

-- `m[k]++`: a missing key reads as 0.
unfoldable pub count_up : String → Dict ℕ → Dict ℕ
count_up k d = insert k (or_zero (lookup k d) + 1) d

abbrev pub one_if : Bool → ℕ
one_if b = if b then 1 else 0

-- One turn of the loop.
unfoldable pub count_incident : ℕ → Incident → IncidentStats → IncidentStats
unfolding count_up
count_incident recent_threshold i s = record {
  total_incidents = s.total_incidents;
  open_incidents = s.open_incidents + one_if (is_open i);
  resolved_incidents = s.resolved_incidents + one_if (is_resolved i);
  dismissed_incidents = s.dismissed_incidents + one_if (is_dismissed i);
  incidents_by_type = count_up i.type s.incidents_by_type;
  incidents_by_status = count_up i.status s.incidents_by_status;
  recent_incidents = s.recent_incidents + one_if (ltb recent_threshold i.created_at);
}

unfoldable pub count_incidents : ℕ → List Incident → IncidentStats → IncidentStats
unfolding count_incident
count_incidents recent_threshold [] s = s
count_incidents recent_threshold (i ∷ rest) s =
    count_incidents recent_threshold rest (count_incident recent_threshold i s)

abbrev pub stats_of : ℕ → Option (List Incident × ℕ) → Option IncidentStats
stats_of now none = none
stats_of now (some (found, total)) =
    some (count_incidents (now - 86400000000000) found (empty_stats total))

-- The error of the list is `none`.
unfoldable pub get_incident_stats : ℕ → Incidents → Option IncidentStats
unfolding list_incidents count_incidents
get_incident_stats now s = stats_of now (list_incidents stats_filter s)
