-- ===== src/Auth/Component.antt =====
-- The authentication component (src/core/auth/component.go). The parts are there once the component
-- is initialized. The audit log and the rate limiter of one request read the clock at one time.
use Prim.Native.String.{◌++◌ as str_append}
use atom_engine.Base.{
  ℕ, String, Bool, true, false, ◌&&◌, Option, none, some, List, [], ◌∷◌, Dict, if◌then◌else◌,
}
use atom_engine.Auth.{
  ApiKey, AuthConfig, AuthContext, AuthResult, permission_all, has_permission, is_localhost,
}
use atom_engine.Auth.Limiter.{
  RateLimiter, RequestInfo, admit, new_rate_limiter, set_storage, load_state, Stats,
}
use atom_engine.Auth.Limiter
use atom_engine.Auth.Keys.{new_api_key_manager, update_api_keys, validate_api_key}
use atom_engine.Auth.Addresses.{Net, validate_ip}
use atom_engine.Auth.Audit.{
  AuditLogger, new_audit_logger, log_auth_success, log_auth_failure, log_ip_blocked,
}
use atom_engine.Auth.Audit

pub record AuthComponent : Type 0 where
  pub config : Option AuthConfig
  pub api_keys : Dict ApiKey
  pub allowed_hosts : List String
  pub limiter : RateLimiter
  pub audit : AuditLogger
  pub initialized : Bool
  pub running : Bool

-- `none` is the error for a nil configuration.
unfoldable pub initialize : Option AuthConfig → AuthComponent → Option AuthComponent
initialize none c = none
initialize (some config) c = some (record c {
  config = some config;
  api_keys = new_api_key_manager config.api_keys;
  allowed_hosts = config.allowed_hosts;
  limiter = new_rate_limiter config.rate_limit.enabled config.rate_limit.requests_per_minute;
  audit = new_audit_logger config.audit;
  initialized = true;
})

-- `none` is the error of a component that is not initialized.
unfoldable pub start : AuthComponent → Option AuthComponent
start c = if c.initialized then some (record c { running = true }) else none

unfoldable pub stop : AuthComponent → AuthComponent
stop c = record c { running = false }

abbrev pub is_ready : AuthComponent → Bool
is_ready c = c.initialized && c.running

abbrev pub is_enabled : AuthComponent → Bool
is_enabled c = elim c.config [ none ↦ false | some config ↦ config.enabled ]

abbrev pub refusal : String → AuthResult
refusal reason = record {
  authenticated = false;
  api_key_name = "";
  permissions = [];
  reason = reason;
}

abbrev pub bypass : String → String → AuthResult
bypass api_key_name reason = record {
  authenticated = true;
  api_key_name = api_key_name;
  permissions = permission_all ∷ [];
  reason = reason;
}

abbrev pub success : ApiKey → AuthResult
success k = record {
  authenticated = true;
  api_key_name = k.name;
  permissions = k.permissions;
  reason = "Authentication successful";
}

-- `none` is a nil result.
unfoldable pub check_permission : Option AuthResult → String → Bool
unfolding has_permission
check_permission none permission = false
check_permission (some result) permission =
    if result.authenticated then has_permission result.permissions permission else false

unfoldable pub set_component_storage :
    ℕ → Option (Dict RequestInfo) → AuthComponent → AuthComponent × Bool
unfolding load_state set_storage
set_component_storage now stored c =
    if c.initialized
    then (let (limiter, ok) = load_state now stored (set_storage true c.limiter) in
        (record c { limiter = limiter }, ok))
    else (c, true)

unfoldable pub update_component_config : Option AuthConfig → AuthComponent → Option AuthComponent
unfolding update_api_keys Limiter.update_config Audit.update_config
update_component_config none c = none
update_component_config (some config) c =
    let c' : AuthComponent = record c { config = some config } in
    some (
      if c.initialized
      then record c' {
        api_keys = update_api_keys config.api_keys c.api_keys;
        allowed_hosts = config.allowed_hosts;
        limiter =
            Limiter.update_config config.rate_limit.enabled config.rate_limit.requests_per_minute
              c.limiter;
        audit = Audit.update_config config.audit c.audit;
      }
      else c')

module _ (net : Net) where
  -- The key is known: the address decides.
  unfoldable pub check_address :
      AuthContext → ApiKey → AuthComponent → AuthComponent × Option AuthResult
  check_address ctx k c =
      if validate_ip net ctx.client_ip k.allowed_hosts c.allowed_hosts
      then (record c { audit = log_auth_success ctx (success k) c.audit }, some (success k))
      else (
        record c {
          audit =
              log_ip_blocked ctx (str_append "IP " (str_append ctx.client_ip " not in whitelist"))
                c.audit;
        },
        some (refusal (str_append "IP " (str_append ctx.client_ip " not allowed"))),
      )

  -- The request is admitted and recorded: the key decides.
  unfoldable pub check_key : AuthContext → AuthComponent → AuthComponent × Option AuthResult
  unfolding check_address
  check_key ctx c = elim (validate_api_key ctx.api_key c.api_keys) [
    | none ↦ (
      record c { audit = log_auth_failure ctx "Invalid API key" c.audit },
      some (refusal "Invalid API key"),
    )
    | some k ↦ check_address ctx k c
  ]

  -- `none` is the error "auth component not ready".
  unfoldable pub authenticate : ℕ → AuthContext → AuthComponent → AuthComponent × Option AuthResult
  unfolding check_key admit
  authenticate now ctx c =
      if is_enabled c
      then (if is_ready c
          then (if is_localhost ctx.client_ip
              then (c, some (bypass "localhost_bypass" "Localhost bypass"))
              else let (limiter, admitted) = admit now ctx.client_ip ctx.api_key c.limiter in
                let c' : AuthComponent = record c { limiter = limiter } in
                if admitted then check_key ctx c' else (
                  record c' { audit = log_auth_failure ctx "Rate limit exceeded" c.audit },
                  some (refusal "Rate limit exceeded"),
                ))
          else (c, none))
      else (c, some (bypass "auth_disabled" "Authentication disabled"))
