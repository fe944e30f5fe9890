-- ===== src/Auth/Audit.antt =====
-- The audit log (src/core/auth/audit_logger.go): the events that are kept in memory, the oldest
-- first. What goes to the structured log is output.
use Prim.Native.Nat.{min}
use mathlib.Core.List.{reverse, append-nil, append_assoc}
use atom_engine.Base.{
  ℕ, ◌-◌, ◌≡◌, refl, sym, ap, ◌∙◌, String, true, false, ◌||◌, List, [], ◌∷◌, ◌++◌, length, take,
  drop, length-append, drop-drop, drop-append_le, reverse-drop, take-min, length-drop,
  length-reverse, Bool-cases, inl, inr, leb, ltb, arith, if◌then◌else◌,
}
use atom_engine.Auth.{AuditConfig, AuditEvent, AuthContext, AuthResult, mask_api_key}

pub record AuditLogger : Type 0 where
  pub config : AuditConfig
  pub recent_events : List AuditEvent
  pub max_events : ℕ

unfoldable pub new_audit_logger : AuditConfig → AuditLogger
new_audit_logger config = record { config = config; recent_events = []; max_events = 1000 }

unfoldable pub add_to_recent_events : AuditEvent → AuditLogger → AuditLogger
add_to_recent_events event al =
    let events = al.recent_events ++ event ∷ [] in
    record al {
      recent_events =
          if ltb al.max_events (length events)
          then drop (length events - al.max_events) events
          else events;
    }

unfoldable pub log_event : AuditEvent → AuditLogger → AuditLogger
log_event event al = if al.config.enabled then add_to_recent_events event al else al

abbrev pub event_of : AuthContext → String → String → String → AuditEvent
event_of ctx api_key_name result reason = record {
  timestamp = ctx.timestamp;
  client_ip = ctx.client_ip;
  api_key = mask_api_key ctx.api_key;
  api_key_name = api_key_name;
  protocol = ctx.protocol;
  method = ctx.method;
  request_path = ctx.request_path;
  user_agent = ctx.user_agent;
  result = result;
  reason = reason;
}

unfoldable pub log_auth_success : AuthContext → AuthResult → AuditLogger → AuditLogger
log_auth_success ctx result al =
    log_event (event_of ctx result.api_key_name "success" "Authentication successful") al

unfoldable pub log_auth_failure : AuthContext → String → AuditLogger → AuditLogger
log_auth_failure ctx reason al = log_event (event_of ctx "" "failed" reason) al

unfoldable pub log_ip_blocked : AuthContext → String → AuditLogger → AuditLogger
log_ip_blocked ctx reason al = log_event (event_of ctx "" "blocked" reason) al

-- A limit below 0 acts as 0 does, and asks for all events.
unfoldable pub get_recent_events : ℕ → AuditLogger → List AuditEvent
get_recent_events limit al =
    let n = length al.recent_events in
    let limit' = if leb limit 0 || ltb n limit then n else limit in
    reverse (drop (n - limit') al.recent_events)

unfoldable pub update_config : AuditConfig → AuditLogger → AuditLogger
update_config config al = record al { config = config }

-- A run of events.
abbrev pub log_all : List AuditEvent → AuditLogger → AuditLogger
log_all [] al = al
log_all (event ∷ rest) al = log_all rest (log_event event al)

-- The last entries of a list, as many as a logger keeps.
abbrev pub last_events : ℕ → List AuditEvent → List AuditEvent
last_events n events = drop (length events - n) events

trim :
    (n : ℕ) (events : List AuditEvent)
    → (if ltb n (length events) then drop (length events - n) events else events)
      ≡ last_events n events
trim n events = elim (Bool-cases (ltb n (length events))) [
  | inl more ↦ rw more refl
  | inr few ↦ rw few (ap (λ m. drop m events) (zero_left few))
]
  where
    zero_left : ltb n (length events) ≡ false → 0 ≡ length events - n
    zero_left few = ground arith

add_to_recent_events-last :
    (event : AuditEvent) (past : List AuditEvent) (al : AuditLogger)
    → al.recent_events ≡ last_events al.max_events past
    → (add_to_recent_events event al).recent_events ≡ last_events al.max_events (past ++ event ∷ [])
unfolding add_to_recent_events
add_to_recent_events-last event past al h =
    trim al.max_events (al.recent_events ++ event ∷ [])
    ∙ rw h (
        rw⁻¹ (drop-append_le (length past - al.max_events) past (event ∷ []) (omega arith)) (
          drop-drop _ (length past - al.max_events) (past ++ event ∷ [])
          ∙ ap (λ m. drop m (past ++ event ∷ []))
              (omega (
                arith,
                length-drop (length past - al.max_events) (past ++ event ∷ []),
                length-append past (event ∷ []),
              ))))

log_event-enabled :
    (event : AuditEvent) (al : AuditLogger)
    → al.config.enabled ≡ true
    → log_event event al ≡ add_to_recent_events event al
unfolding log_event
log_event-enabled event al on = simp on

log_all-last :
    (events past : List AuditEvent) (al : AuditLogger)
    → al.config.enabled ≡ true
    → al.recent_events ≡ last_events al.max_events past
    → (log_all events al).recent_events ≡ last_events al.max_events (past ++ events)
unfolding add_to_recent_events
log_all-last [] past al on h = rw append-nil h
log_all-last (event ∷ rest) past al on h =
    let next = add_to_recent_events event al in
    ap (λ s. (log_all rest s).recent_events) (log_event-enabled event al on)
    ∙ log_all-last rest (past ++ event ∷ []) next on (add_to_recent_events-last event past al h)
    ∙ ap (last_events al.max_events) (append_assoc past (event ∷ []) rest)

-- An enabled audit log that has been given any events returns the newest of them, the newest first:
-- as many as were asked for, or all where the limit is 0, but at most a thousand.
pub get_recent_events-newest :
    (events : List AuditEvent) (limit : ℕ) (config : AuditConfig)
    → config.enabled ≡ true
    → get_recent_events limit (log_all events (new_audit_logger config))
      ≡ take (if leb limit 0 then 1000 else min limit 1000) (reverse events)
unfolding get_recent_events new_audit_logger
get_recent_events-newest events limit config on =
    let k = length events - 1000 in
    rw (log_all-last events [] (new_audit_logger config) on refl) (
      ap reverse (drop-drop _ k events)
      ∙ reverse-drop _ events
      ∙ take-min _ (reverse events)
      ∙ ap (λ n. take n (reverse events))
          (ground (arith, length-reverse events, length-drop k events))
      ∙ sym (take-min _ (reverse events)))
