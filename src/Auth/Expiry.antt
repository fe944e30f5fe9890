-- ===== src/Auth/Expiry.antt =====
-- The clean-up of the rate limiter (src/core/auth/rate_limiter.go).
use atom_engine.Base.{
  ℕ, ◌≡◌, refl, String, Bool, true, not, Option, none, some, lookup, lookup-keep, IsDict, ltb, leb,
  arith, ◌∙◌, ap, sym, if◌then◌else◌, passing_value,
}
use atom_engine.Auth.{identifier}
use atom_engine.Auth.Limiter.{RateLimiter, RequestInfo, check_limit, perform_cleanup, is_live}

-- Whether an entry leaves room for a request.
allows : ℕ → ℕ → Option RequestInfo → Bool
allows now rpm none = true
allows now rpm (some info) = if ltb info.reset_time now then true else not (leb rpm info.count)

check_limit-allows :
    (now : ℕ) (client_ip api_key : String) (rl : RateLimiter) (o : Option RequestInfo)
    → lookup (identifier client_ip api_key) rl.requests ≡ o
    → (check_limit now client_ip api_key rl).1
      ≡ (if rl.enabled then allows now rl.requests_per_minute o else true)
unfolding check_limit allows
check_limit-allows now client_ip api_key rl none e = rw e (ground arith)
check_limit-allows now client_ip api_key rl (some info) e = rw e (ground arith)

allows-live :
    (now rpm : ℕ) (o : Option RequestInfo)
    → allows now rpm (passing_value (is_live now) o) ≡ allows now rpm o
unfolding allows
allows-live now rpm none = refl
allows-live now rpm (some info) = ground arith

-- The clean-up of expired entries changes no answer: at the time of the clean-up, any client gets
-- from the limiter the answer that it would have got without it. No client stands twice in the map.
pub check_limit-perform_cleanup :
    (now : ℕ) (client_ip api_key : String) (rl : RateLimiter)
    → IsDict rl.requests
    → (check_limit now client_ip api_key (perform_cleanup now rl)).1
      ≡ (check_limit now client_ip api_key rl).1
unfolding perform_cleanup
check_limit-perform_cleanup now client_ip api_key rl d =
    let id = identifier client_ip api_key in
    let live = passing_value (is_live now) (lookup id rl.requests) in
    check_limit-allows now client_ip api_key (perform_cleanup now rl) live
      (lookup-keep (is_live now) id rl.requests d)
    ∙ ap (λ b. if rl.enabled then b else true)
        (allows-live now rl.requests_per_minute (lookup id rl.requests))
    ∙ sym (check_limit-allows now client_ip api_key rl (lookup id rl.requests) refl)
