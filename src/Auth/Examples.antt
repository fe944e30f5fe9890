-- ===== src/Auth/Examples.antt =====
-- The authentication component on a small configuration, and runs of the rate limiter.
use atom_engine.Base.{
  ℕ, ◌≡◌, refl, String, true, false, none, some, List, [], ◌∷◌, lookup, insert, str_eq,
  if◌then◌else◌, arith,
}
use Prim.Native.String.{slice}
use Prim.Native.Nat.{min, max}
use atom_engine.Auth.{
  ApiKey, AuthContext, AuthConfig, AuditEvent, AuditConfig, mask_api_key, stars, is_localhost,
  identifier,
}
use atom_engine.Auth.Limiter.{
  RateLimiter, window, check_limit, record_request, admit, put_entry, save_to_storage,
}
use atom_engine.Auth.Admission.{Request}
use atom_engine.Auth.Windows.{admitted_to, admitted_to-fresh}
use atom_engine.Auth.Keys.{validate_api_key}
use atom_engine.Auth.Addresses.{
  Net, validate_ip, is_allowed_globally, check_ip_in_list, is_in_list, check_specific_ip,
  check_ip_in_cidr,
}
use atom_engine.Auth.Audit.{event_of}
use atom_engine.Auth.Component.{AuthComponent, authenticate, check_key, check_address, success}
use atom_engine.Auth.Decisions.{authenticate-granted}

-- Addresses are texts, and a network is a prefix of three bytes.
abbrev text_net : Net
text_net = record {
  Ip = String;
  Network = String;
  parse_ip = λ s. if str_eq s "" then none else some s;
  equal = str_eq;
  parse_cidr = λ s. some (slice s 0 3);
  contains = λ n ip. str_eq (slice ip 0 3) n;
}

abbrev job_key : ApiKey
job_key = record {
  key = "atom-key-of-the-workers";
  name = "workers";
  permissions = "job" ∷ [];
  allowed_hosts = "10.0.0.0/24" ∷ [];
}

abbrev limiter : RateLimiter
limiter = record {
  enabled = true;
  requests_per_minute = 3;
  requests = [];
  has_storage = true;
  saved = [];
}

abbrev audit_config : AuditConfig
audit_config = record { enabled = true; log_failed_attempts = true; log_successful_auth = false }

abbrev auth_config : AuthConfig
auth_config = record {
  enabled = true;
  allowed_hosts = [];
  api_keys = job_key ∷ [];
  rate_limit = record { enabled = true; requests_per_minute = 3 };
  audit = audit_config;
}

abbrev component : AuthComponent
component = record {
  config = some auth_config;
  api_keys = ("atom-key-of-the-workers", job_key) ∷ [];
  allowed_hosts = [];
  limiter = limiter;
  audit = record { config = audit_config; recent_events = []; max_events = 1000 };
  initialized = true;
  running = true;
}

abbrev worker_call : AuthContext
worker_call = record {
  client_ip = "10.0.0.7";
  api_key = "atom-key-of-the-workers";
  user_agent = "worker";
  request_path = "/jobs";
  method = "ActivateJobs";
  protocol = "grpc";
  timestamp = 5;
}

authenticate-granted_example :
    ((admit 5 "10.0.0.7" "atom-key-of-the-workers" limiter).1 ≡ true)
    × (k : ApiKey) × (validate_api_key "atom-key-of-the-workers" component.api_keys ≡ some k)
    × (validate_ip text_net "10.0.0.7" k.allowed_hosts [] ≡ true)
    × (success k ≡ success job_key)
unfolding authenticate check_key check_address validate_api_key lookup validate_ip check_ip_in_list
    is_in_list check_ip_in_cidr check_specific_ip is_allowed_globally is_localhost admit check_limit
    record_request put_entry save_to_storage insert identifier mask_api_key stars
authenticate-granted_example =
    authenticate-granted text_net worker_call 5 component (success job_key) refl refl refl refl

abbrev call_at : ℕ → String → Request
call_at time client_ip = record { time = time; client_ip = client_ip; api_key = "" }

abbrev calls : List Request
calls =
    call_at 1 "10.0.0.7" ∷ call_at 2 "10.0.0.8" ∷ call_at 3 "10.0.0.7" ∷ call_at 4 "10.0.0.7" ∷ []

-- Two of three requests, where the limit is three.
admitted_to-fresh_example : admitted_to "10.0.0.7" calls limiter ≡ min 3 (max 1 2)
unfolding lookup identifier
admitted_to-fresh_example =
    admitted_to-fresh "10.0.0.7" calls limiter 1 refl
      (
        (ground arith, ground arith),
        (
          (ground arith, ground arith),
          ((ground arith, ground arith), ((ground arith, ground arith), tt)),
        ),
      )
      refl

abbrev full_limiter : RateLimiter
full_limiter = record limiter {
  requests = ("10.0.0.7", record { count = 3; reset_time = window }) ∷ [];
}

abbrev events : List AuditEvent
events = event_of worker_call "" "failed" "first" ∷ event_of worker_call "" "failed" "second" ∷ []
