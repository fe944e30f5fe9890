-- ===== src/Auth/Admission.antt =====
-- What one request does to the rate limiter (src/core/auth/rate_limiter.go), when it is recorded as in
-- Authenticate of src/core/auth/component.go.
use atom_engine.Base.{
  ℕ, ◌+◌, ◌≡◌, refl, String, Bool, true, false, not, Option, none, some, lookup, insert,
  lookup-insert, ltb, leb, str_eq, str_eq_self, arith, ◌∙◌, ap, lookup-insert_self, Bool-cases, inl,
  inr, if◌then◌else◌,
}
use atom_engine.Auth.{identifier}
use atom_engine.Auth.Limiter.{
  RateLimiter, RequestInfo, window, first_entry, put_entry, save_to_storage, check_limit,
  record_request, admit,
}

-- A request, and whether it is of a client.
pub record Request : Type 0 where
  pub time : ℕ
  pub client_ip : String
  pub api_key : String

abbrev pub id_of : Request → String
id_of r = identifier r.client_ip r.api_key

-- What a request does to the entry of its client: nothing, where it is rejected.
pub data Answer : Type 0 where
  rejected : Answer
  counted : RequestInfo → Answer

unfoldable pub answer : ℕ → ℕ → Option RequestInfo → Answer
answer now rpm none = counted (record { count = 2; reset_time = now + window })
answer now rpm (some info) =
    if ltb info.reset_time now
    then counted (record { count = 2; reset_time = now + window })
    else if leb rpm info.count
    then rejected
    else counted (record info { count = info.count + 1 })

abbrev pub entry_after : Option RequestInfo → Answer → Option RequestInfo
entry_after o rejected = o
entry_after o (counted info) = some info

abbrev pub admits : Answer → Bool
admits rejected = false
admits (counted info) = true

-- One request leaves the settings, and writes the entry of its client only.
pub record Admits (r : Request) (rl : RateLimiter) (o : Option RequestInfo) : Type 0 where
  pub same_flag : (admit r.time r.client_ip r.api_key rl).0.enabled ≡ true
  pub same_limit :
      (admit r.time r.client_ip r.api_key rl).0.requests_per_minute ≡ rl.requests_per_minute
  pub others :
      (id : String)
      → str_eq (id_of r) id ≡ false
      → lookup id (admit r.time r.client_ip r.api_key rl).0.requests ≡ lookup id rl.requests
  pub entry :
      lookup (id_of r) (admit r.time r.client_ip r.api_key rl).0.requests
      ≡ entry_after o (answer r.time rl.requests_per_minute o)
  pub verdict :
      (admit r.time r.client_ip r.api_key rl).1 ≡ admits (answer r.time rl.requests_per_minute o)

-- What `put_entry` leaves.
record Puts (id : String) (info : RequestInfo) (rl rl' : RateLimiter) : Type 0 where
  requests : rl'.requests ≡ insert id info rl.requests
  enabled : rl'.enabled ≡ rl.enabled
  limit : rl'.requests_per_minute ≡ rl.requests_per_minute

put_entry-Puts :
    (id : String) (info : RequestInfo) (rl : RateLimiter) → Puts id info rl (put_entry id info rl)
unfolding put_entry save_to_storage
put_entry-Puts id info rl = ground arith

record_request-live :
    (r : Request) (rl : RateLimiter) (info : RequestInfo)
    → rl.enabled ≡ true
    → lookup (id_of r) rl.requests ≡ some info
    → ltb info.reset_time r.time ≡ false
    → record_request r.time r.client_ip r.api_key rl
      ≡ put_entry (id_of r) (record info { count = info.count + 1 }) rl
unfolding record_request
record_request-live r rl info on e l = rw on (rw e (rw l refl))

module _ (r : Request) (rl : RateLimiter) (on : rl.enabled ≡ true) where
  -- An entry is written, after which the client's request is admitted.
  written-Admits :
      (o : Option RequestInfo) (info : RequestInfo) (rl' : RateLimiter)
      → admit r.time r.client_ip r.api_key rl ≡ (put_entry (id_of r) info rl', true)
      → rl'.enabled ≡ true
      → rl'.requests_per_minute ≡ rl.requests_per_minute
      → ((id : String)
          → str_eq (id_of r) id ≡ false
          → lookup id rl'.requests ≡ lookup id rl.requests)
      → answer r.time rl.requests_per_minute o ≡ counted info
      → Admits r rl o
  written-Admits o info rl' c f l others a =
      let p = put_entry-Puts (id_of r) info rl' in
      record {
        same_flag = rw c (p.enabled ∙ f);
        same_limit = rw c (p.limit ∙ l);
        others = λ id ne. rw c (rw p.requests (rw lookup-insert (rw ne (others id ne))));
        entry = rw c (rw p.requests (rw lookup-insert (rw str_eq_self (rw a refl))));
        verdict = rw c (rw a refl);
      }

  fresh-Admits :
      (o : Option RequestInfo)
      → check_limit r.time r.client_ip r.api_key rl
        ≡ (put_entry (id_of r) (first_entry r.time) rl, true)
      → answer r.time rl.requests_per_minute o
        ≡ counted (record { count = 2; reset_time = r.time + window })
      → Admits r rl o
  unfolding admit
  fresh-Admits o c a =
      let rl' = put_entry (id_of r) (first_entry r.time) rl in
      let p = put_entry-Puts (id_of r) (first_entry r.time) rl in
      written-Admits o (record { count = 2; reset_time = r.time + window }) rl'
        (rw c (
          ap (λ s. (s, true))
            (record_request-live r rl' (first_entry r.time) (p.enabled ∙ on)
              (rw p.requests (lookup-insert_self _ _ _)) (ground arith))))
        (p.enabled ∙ on) p.limit (λ id ne. rw p.requests (rw lookup-insert (rw ne refl))) a

  check_limit-live :
      (info : RequestInfo)
      → lookup (id_of r) rl.requests ≡ some info
      → ltb info.reset_time r.time ≡ false
      → check_limit r.time r.client_ip r.api_key rl
        ≡ (rl, not (leb rl.requests_per_minute info.count))
  unfolding check_limit
  check_limit-live info e x = simp (on, e, x)

  live-Admits :
      (info : RequestInfo)
      → lookup (id_of r) rl.requests ≡ some info
      → ltb info.reset_time r.time ≡ false
      → Admits r rl (some info)
  unfolding admit answer
  live-Admits info e x =
      let c = check_limit-live info e x in
      elim (Bool-cases (leb rl.requests_per_minute info.count)) [
        | inl full ↦ record {
          same_flag = rw c (rw full on);
          same_limit = rw c (rw full refl);
          others = λ id ne. rw c (rw full refl);
          entry = rw c (rw full (rw x e));
          verdict = rw c (rw full (rw x refl));
        }
        | inr room ↦
            written-Admits (some info) (record info { count = info.count + 1 }) rl
              (rw c (rw room (ap (λ s. (s, true)) (record_request-live r rl info on e x)))) on refl
              (λ id ne. refl) (rw x (rw room refl))
      ]

  pub admit-Admits : (o : Option RequestInfo) → lookup (id_of r) rl.requests ≡ o → Admits r rl o
  unfolding check_limit answer
  admit-Admits none e = fresh-Admits none (rw on (rw e refl)) refl
  admit-Admits (some info) e = elim (Bool-cases (ltb info.reset_time r.time)) [
    | inl y ↦ fresh-Admits (some info) (rw on (rw e (rw y refl))) (rw y refl)
    | inr x ↦ live-Admits info e x
  ]
