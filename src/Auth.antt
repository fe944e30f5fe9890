-- ===== src/Auth.antt =====
-- Authentication (src/core/auth): the data of src/core/auth/models.go and src/core/config/config.go,
-- and the key masks of src/core/auth/api_key_manager.go. The children hold the rate limiter, the
-- keys, the addresses, the audit log and the component that asks them in turn.
pub mod Addresses
pub mod Admission
pub mod Audit
pub mod Component
pub mod Decisions
pub mod Examples
pub mod Expiry
pub mod Keys
pub mod Limiter
pub mod Windows
use Prim.Native.String.{len, slice, ◌++◌ as str_append}
use atom_engine.Base.{
  ℕ, zero, suc, String, Bool, true, false, ◌&&◌, ◌||◌, List, [], ◌∷◌, leb, str_eq, if◌then◌else◌,
}

pub record ApiKey : Type 0 where
  pub key : String
  pub name : String
  pub permissions : List String
  pub allowed_hosts : List String

pub record AuthContext : Type 0 where
  pub client_ip : String
  pub api_key : String
  pub user_agent : String
  pub request_path : String
  pub method : String
  pub protocol : String
  pub timestamp : ℕ

pub record AuthResult : Type 0 where
  pub authenticated : Bool
  pub api_key_name : String
  pub permissions : List String
  pub reason : String

pub record AuditEvent : Type 0 where
  pub timestamp : ℕ
  pub client_ip : String
  pub api_key : String
  pub api_key_name : String
  pub protocol : String
  pub method : String
  pub request_path : String
  pub user_agent : String
  pub result : String
  pub reason : String

pub record RateLimitConfig : Type 0 where
  pub enabled : Bool
  pub requests_per_minute : ℕ

pub record AuditConfig : Type 0 where
  pub enabled : Bool
  pub log_failed_attempts : Bool
  pub log_successful_auth : Bool

pub record AuthConfig : Type 0 where
  pub enabled : Bool
  pub allowed_hosts : List String
  pub api_keys : List ApiKey
  pub rate_limit : RateLimitConfig
  pub audit : AuditConfig

abbrev pub permission_all : String
permission_all = "*"

-- `strings.Repeat("*", n)`
unfoldable pub stars : ℕ → String
stars zero = ""
stars (suc n) = str_append "*" (stars n)

-- A length is in bytes.
unfoldable pub mask_api_key : String → String
unfolding stars
mask_api_key key = if leb (len key) 8 then stars (len key) else str_append (slice key 0 8) "..."

-- The test for "read" is in the source beside the general one.
unfoldable pub has_permission : List String → String → Bool
has_permission [] required = false
has_permission (perm ∷ rest) required =
    str_eq perm permission_all
    || str_eq perm required
    || (str_eq required "read" && str_eq perm "read")
    || has_permission rest required

unfoldable pub is_localhost : String → Bool
is_localhost ip = str_eq ip "127.0.0.1" || str_eq ip "::1" || str_eq ip "localhost"

-- The identifier that CheckLimit and RecordRequest count under.
unfoldable pub identifier : String → String → String
unfolding mask_api_key
identifier client_ip api_key =
    if str_eq api_key "" then client_ip else str_append "key:" (mask_api_key api_key)
