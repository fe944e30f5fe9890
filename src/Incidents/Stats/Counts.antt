-- ===== src/Incidents/Stats/Counts.antt =====
-- The counts of the statistics (GetIncidentStats of src/incidents/manager.go).
use atom_engine.Base.{
  ℕ, ◌+◌, ◌-◌, ◌≡◌, refl, ap, ◌∙◌, String, Bool, true, false, ◌&&◌, ◌||◌, some, List, [], ◌∷◌, Dict,
  lookup, lookup-insert, str_eq, eq_iff, arith, ltb, length, All, Bool-cases, inl, inr,
}
use mathlib.Core.Option
use atom_engine.Incidents.{
  Incident, Incidents, is_open, is_resolved, is_dismissed, list_incidents, matches_incident_filter,
  incidents_where,
}
use atom_engine.Incidents.Batches.{skip_offset-zero}
use atom_engine.Incidents.Stats.{
  IncidentStats, count_incident, count_incidents, count_up, empty_stats, get_incident_stats, one_if,
  or_zero, stats_filter, stats_of,
}

-- How many incidents pass a test.
pub how_many : (Incident → Bool) → List Incident → ℕ
how_many p [] = 0
how_many p (i ∷ rest) = one_if (p i) + how_many p rest

-- The counts of a list of incidents, on top of those that were there.
record Counts (recent_threshold : ℕ) (found : List Incident) (s t : IncidentStats) : Type 0 where
  pub total : t.total_incidents ≡ s.total_incidents
  pub opened : t.open_incidents ≡ s.open_incidents + how_many is_open found
  pub resolved : t.resolved_incidents ≡ s.resolved_incidents + how_many is_resolved found
  pub dismissed : t.dismissed_incidents ≡ s.dismissed_incidents + how_many is_dismissed found
  pub by_type :
      (k : String)
      → or_zero (lookup k t.incidents_by_type)
        ≡ or_zero (lookup k s.incidents_by_type) + how_many (λ i. str_eq i.type k) found
  pub by_status :
      (k : String)
      → or_zero (lookup k t.incidents_by_status)
        ≡ or_zero (lookup k s.incidents_by_status) + how_many (λ i. str_eq i.status k) found
  pub recent :
      t.recent_incidents
      ≡ s.recent_incidents + how_many (λ i. ltb recent_threshold i.created_at) found

lookup-count_up :
    (j k : String) (d : Dict ℕ)
    → or_zero (lookup k (count_up j d)) ≡ or_zero (lookup k d) + one_if (str_eq j k)
unfolding count_up
lookup-count_up j k d =
    ap or_zero (lookup-insert j k (or_zero (lookup j d) + 1) d) ∙ elim (Bool-cases (str_eq j k)) [
      | inl same ↦ rw same (ap (λ x. or_zero (lookup x d) + 1) ((eq_iff j k).0 same))
      | inr other ↦ rw other (ground arith)
    ]

count_incidents-Counts :
    (recent_threshold : ℕ) (found : List Incident) (s : IncidentStats)
    → Counts recent_threshold found s (count_incidents recent_threshold found s)
unfolding count_incidents count_incident how_many
count_incidents-Counts recent_threshold [] s = record {
  total = refl;
  opened = ground arith;
  resolved = ground arith;
  dismissed = ground arith;
  by_type = λ k. ground arith;
  by_status = λ k. ground arith;
  recent = ground arith;
}
count_incidents-Counts recent_threshold (i ∷ rest) s =
    let c = count_incidents-Counts recent_threshold rest (count_incident recent_threshold i s) in
    record {
      total = c.total;
      opened = ground (arith, c.opened);
      resolved = ground (arith, c.resolved);
      dismissed = ground (arith, c.dismissed);
      by_type = λ k. ground (arith, c.by_type k, lookup-count_up i.type k s.incidents_by_type);
      by_status =
          λ k. ground (arith, c.by_status k, lookup-count_up i.status k s.incidents_by_status);
      recent = ground (arith, c.recent);
    }

-- The counts of all incidents.
pub record AreCounted (now : ℕ) (found : List Incident) (t : IncidentStats) : Type 0 where
  pub total : t.total_incidents ≡ length found
  pub opened : t.open_incidents ≡ how_many is_open found
  pub resolved : t.resolved_incidents ≡ how_many is_resolved found
  pub dismissed : t.dismissed_incidents ≡ how_many is_dismissed found
  pub by_type :
      (k : String) → or_zero (lookup k t.incidents_by_type) ≡ how_many (λ i. str_eq i.type k) found
  pub by_status :
      (k : String)
      → or_zero (lookup k t.incidents_by_status) ≡ how_many (λ i. str_eq i.status k) found
  pub recent : t.recent_incidents ≡ how_many (λ i. ltb (now - 86400000000000) i.created_at) found

stats_filter-matches : (i : Incident) → matches_incident_filter stats_filter i ≡ true
unfolding matches_incident_filter
stats_filter-matches i = refl

list_incidents-all :
    (s : Incidents)
    → s.list_fails ≡ false
    → list_incidents stats_filter s
      ≡ some (
        incidents_where (λ _. true) s.incidents,
        length (incidents_where (λ _. true) s.incidents),
      )
unfolding list_incidents matches_incident_filter
list_incidents-all s lists = simp lists (
    ap (λ l. some (l, length (incidents_where (λ _. true) s.incidents)))
      (skip_offset-zero (incidents_where (λ _. true) s.incidents)))

drop_zero : (n : ℕ) → 0 + n ≡ n
drop_zero n = omega arith

-- Where the list works, the statistics count every incident of the store: their total, how many have
-- each status and each type, and how many were created in the last 24 hours.
pub get_incident_stats-AreCounted :
    (now : ℕ) (s : Incidents)
    → s.list_fails ≡ false
    → (t : IncidentStats) × (get_incident_stats now s ≡ some t)
      × AreCounted now (incidents_where (λ _. true) s.incidents) t
unfolding get_incident_stats lookup
get_incident_stats-AreCounted now s lists =
    let found = incidents_where (λ _. true) s.incidents in
    let c = count_incidents-Counts (now - 86400000000000) found (empty_stats (length found)) in
    (
      count_incidents (now - 86400000000000) found (empty_stats (length found)),
      ap (stats_of now) (list_incidents-all s lists),
      record {
        total = c.total;
        opened = c.opened ∙ drop_zero _;
        resolved = c.resolved ∙ drop_zero _;
        dismissed = c.dismissed ∙ drop_zero _;
        by_type = λ k. c.by_type k ∙ drop_zero _;
        by_status = λ k. c.by_status k ∙ drop_zero _;
        recent = c.recent ∙ drop_zero _;
      },
    )

-- The status is one of the three of the source.
abbrev HasStatus : Incident → Type 0
HasStatus i = (is_open i || is_resolved i || is_dismissed i) ≡ true

one_of_three :
    (a b c : Bool)
    → (a || b || c) ≡ true
    → (a && b) ≡ false
    → (a && c) ≡ false
    → (b && c) ≡ false
    → one_if a + one_if b + one_if c ≡ 1
one_of_three a b c some_one = ground arith

-- A text is not two at once.
not_both : (t a b : String) → str_eq a b ≡ false → (str_eq t a && str_eq t b) ≡ false
not_both t a b other = elim (Bool-cases (str_eq t a)) [
  | inl y ↦ rw y (ap (λ x. str_eq x b) ((eq_iff t a).0 y) ∙ other)
  | inr n ↦ rw n refl
]

one_status :
    (i : Incident)
    → HasStatus i
    → one_if (is_open i) + one_if (is_resolved i) + one_if (is_dismissed i) ≡ 1
one_status i known =
    one_of_three (is_open i) (is_resolved i) (is_dismissed i) known
      (not_both i.status "OPEN" "RESOLVED" refl) (not_both i.status "OPEN" "DISMISSED" refl)
      (not_both i.status "RESOLVED" "DISMISSED" refl)

how_many-adds_up :
    (found : List Incident)
    → All HasStatus found
    → how_many is_open found + how_many is_resolved found + how_many is_dismissed found
      ≡ length found
unfolding how_many
how_many-adds_up [] known = refl
how_many-adds_up (i ∷ rest) (known, later) =
    ground (arith, one_status i known, how_many-adds_up rest later)

-- The three counts of the statuses add up to the total, where every incident has one of the three
-- statuses and the database works.
get_incident_stats_adds_up :
    (now : ℕ) (s : Incidents)
    → s.list_fails ≡ false
    → All HasStatus (incidents_where (λ _. true) s.incidents)
    → Option.map
        (λ t. t.open_incidents + t.resolved_incidents + t.dismissed_incidents)
        (get_incident_stats now s)
      ≡ Option.map (λ t. t.total_incidents) (get_incident_stats now s)
get_incident_stats_adds_up now s lists known =
    let (t, is, c) = get_incident_stats-AreCounted now s lists in
    rw is (
      ap some (
        omega (
          arith,
          c.total,
          c.opened,
          c.resolved,
          c.dismissed,
          how_many-adds_up (incidents_where (λ _. true) s.incidents) known,
        )))
