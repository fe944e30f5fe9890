-- ===== src/Auth/Limiter.antt =====
-- The rate limiter (src/core/auth/rate_limiter.go). Times are in nanoseconds. A write to the
-- storage is started in a goroutine; `saved` is what these goroutines were given, the oldest first.
use Prim.Native.String.{len, slice}
use atom_engine.Base.{
  ℕ, ◌+◌, String, Bool, true, false, not, Option, none, some, List, [], ◌∷◌, ◌++◌, Dict, lookup,
  insert, keep, length, ltb, leb, str_eq, if◌then◌else◌,
}
use atom_engine.Auth.{identifier}

pub record RequestInfo : Type 0 where
  pub count : ℕ
  pub reset_time : ℕ

-- `requestsPerMinute` is an `int`; below 0 it acts as 0 does, since every count is positive.
pub record RateLimiter : Type 0 where
  pub enabled : Bool
  pub requests_per_minute : ℕ
  pub requests : Dict RequestInfo
  pub has_storage : Bool
  pub saved : List (String × RequestInfo)

-- One minute.
abbrev pub window : ℕ
window = 60_000_000_000

unfoldable pub new_rate_limiter : Bool → ℕ → RateLimiter
new_rate_limiter enabled requests_per_minute = record {
  enabled = enabled;
  requests_per_minute = requests_per_minute;
  requests = [];
  has_storage = false;
  saved = [];
}

unfoldable pub save_to_storage : String → RequestInfo → RateLimiter → RateLimiter
save_to_storage id info rl =
    if rl.has_storage then record rl { saved = rl.saved ++ (id, info) ∷ [] } else rl

-- The entry of the client takes a value, and is saved.
unfoldable pub put_entry : String → RequestInfo → RateLimiter → RateLimiter
put_entry id info rl = save_to_storage id info (record rl { requests = insert id info rl.requests })

abbrev pub first_entry : ℕ → RequestInfo
first_entry now = record { count = 1; reset_time = now + window }

-- From the look-up of the entry on.
abbrev pub check_entry : ℕ → String → RateLimiter → Option RequestInfo → RateLimiter × Bool
check_entry now id rl none = (put_entry id (first_entry now) rl, true)
check_entry now id rl (some info) =
    if ltb info.reset_time now
    then (put_entry id (first_entry now) rl, true)
    else (rl, not (leb rl.requests_per_minute info.count))

unfoldable pub check_limit : ℕ → String → String → RateLimiter → RateLimiter × Bool
check_limit now client_ip api_key rl =
    if rl.enabled
    then check_entry now (identifier client_ip api_key) rl
        (lookup (identifier client_ip api_key) rl.requests)
    else (rl, true)

abbrev pub record_entry : ℕ → String → RateLimiter → Option RequestInfo → RateLimiter
record_entry now id rl none = put_entry id (first_entry now) rl
record_entry now id rl (some info) =
    put_entry id
      (if ltb info.reset_time now then first_entry now else record info { count = info.count + 1 })
      rl

unfoldable pub record_request : ℕ → String → String → RateLimiter → RateLimiter
record_request now client_ip api_key rl =
    if rl.enabled
    then record_entry now (identifier client_ip api_key) rl
        (lookup (identifier client_ip api_key) rl.requests)
    else rl

abbrev pub is_live : ℕ → RequestInfo → Bool
is_live now info = not (ltb info.reset_time now)

-- The expired entries go; the storage cleans up on its own side.
unfoldable pub perform_cleanup : ℕ → RateLimiter → RateLimiter
perform_cleanup now rl = record rl { requests = keep (is_live now) rl.requests }

-- The ticker starts and stops with the flag.
unfoldable pub update_config : Bool → ℕ → RateLimiter → RateLimiter
update_config enabled requests_per_minute rl = record rl {
  enabled = enabled;
  requests_per_minute = requests_per_minute;
}

unfoldable pub set_storage : Bool → RateLimiter → RateLimiter
set_storage has_storage rl = record rl { has_storage = has_storage }

-- The loop of `LoadState` over what the storage holds.
unfoldable pub load_entries : ℕ → Dict RequestInfo → Dict RequestInfo → Dict RequestInfo
load_entries now [] requests = requests
load_entries now ((id, info) ∷ rest) requests =
    load_entries now rest (if ltb info.reset_time now then requests else insert id info requests)

-- `none` is a storage that fails; without a storage nothing is loaded.
unfoldable pub load_state : ℕ → Option (Dict RequestInfo) → RateLimiter → RateLimiter × Bool
unfolding load_entries
load_state now stored rl =
    if rl.has_storage
    then elim stored [
      | none ↦ (rl, false)
      | some entries ↦ (record rl { requests = load_entries now entries rl.requests }, true)
    ]
    else (rl, true)

pub record Stats : Type 0 where
  pub active_identifiers : ℕ
  pub ip_based_identifiers : ℕ
  pub api_key_based_identifiers : ℕ
  pub total_requests : ℕ

abbrev pub no_stats : Stats
no_stats = record {
  active_identifiers = 0;
  ip_based_identifiers = 0;
  api_key_based_identifiers = 0;
  total_requests = 0;
}

abbrev pub count_identifier : String → RequestInfo → Stats → Stats
count_identifier id info s =
    if str_eq (slice id 0 4) "key:"
    then record s {
      api_key_based_identifiers = s.api_key_based_identifiers + 1;
      total_requests = s.total_requests + info.count;
    }
    else record s {
      ip_based_identifiers = s.ip_based_identifiers + 1;
      total_requests = s.total_requests + info.count;
    }

-- The loop of `GetStats`; `none` is the panic of `identifier[:4]` on a shorter identifier.
unfoldable pub sum_stats : Dict RequestInfo → Option Stats
sum_stats [] = some no_stats
sum_stats ((id, info) ∷ rest) =
    let sum = sum_stats rest in
    if leb 4 (len id)
    then elim sum [ none ↦ none | some s ↦ some (count_identifier id info s) ]
    else none

unfoldable pub get_stats : RateLimiter → Option Stats
unfolding sum_stats
get_stats rl =
    if rl.enabled
    then elim (sum_stats rl.requests) [
      | none ↦ none
      | some s ↦ some (record s { active_identifiers = length rl.requests })
    ]
    else some (record no_stats { active_identifiers = length rl.requests })

-- How the component uses the limiter: a request that is admitted is recorded.
unfoldable pub admit : ℕ → String → String → RateLimiter → RateLimiter × Bool
admit now client_ip api_key rl =
    let (rl', admitted) = check_limit now client_ip api_key rl in
    if admitted then (record_request now client_ip api_key rl', true) else (rl', false)
