-- ===== src/Auth/Windows.antt =====
-- How many requests the limiter admits (src/core/auth/rate_limiter.go), when every admitted request
-- is recorded as in Authenticate of src/core/auth/component.go.
use Prim.Native.Nat.{max, min}
use atom_engine.Base.{
  ℕ, suc, ◌+◌, ◌-◌, ◌≤◌, ◌<◌, ◌≡◌, refl, String, true, false, Option, none, some, List, [], ◌∷◌,
  lookup, All, ltb, leb, str_eq, str_eq_self, eq_iff, arith, ◌∙◌, ap, Bool-cases, subst, inl, inr,
  if◌then◌else◌,
}
use atom_engine.Auth.Limiter.{RateLimiter, RequestInfo, window, admit}
use atom_engine.Auth.Admission.{
  Request, id_of, rejected, counted, answer, entry_after, Admits, admit-Admits,
}

-- How many requests of a run the limiter admits to the client of an identifier.
unfoldable pub admitted_to : String → List Request → RateLimiter → ℕ
admitted_to id [] rl = 0
admitted_to id (r ∷ rs) rl =
    let (rl', ok) = admit r.time r.client_ip r.api_key rl in
    let rest = admitted_to id rs rl' in
    if ok then (if str_eq (id_of r) id then suc rest else rest) else rest

abbrev pub requests_of : String → List Request → ℕ
requests_of id [] = 0
requests_of id (r ∷ rs) = if str_eq (id_of r) id then suc (requests_of id rs) else requests_of id rs

-- The state after a request.
abbrev after : Request → RateLimiter → RateLimiter
after r rl = (admit r.time r.client_ip r.api_key rl).0

module _ (id : String) (r : Request) (rs : List Request) (rl : RateLimiter) where
  -- What the answer to a request of the client itself leaves.
  mine-rejected :
      (o : Option RequestInfo)
      → id_of r ≡ id
      → Admits r rl o
      → answer r.time rl.requests_per_minute o ≡ rejected
      → (admitted_to id (r ∷ rs) rl ≡ admitted_to id rs (after r rl))
        × (lookup id (after r rl).requests ≡ o)
  unfolding admitted_to
  mine-rejected o m a e = (
    rw a.verdict (rw e refl),
    subst (λ k. lookup k (after r rl).requests ≡ o) m (a.entry ∙ ap (entry_after o) e),
  )

  mine-counted :
      (o : Option RequestInfo) (info : RequestInfo)
      → id_of r ≡ id
      → Admits r rl o
      → answer r.time rl.requests_per_minute o ≡ counted info
      → (admitted_to id (r ∷ rs) rl ≡ suc (admitted_to id rs (after r rl)))
        × (lookup id (after r rl).requests ≡ some info)
  unfolding admitted_to
  mine-counted o info m a e = (
    rw a.verdict (rw e (rw m (rw str_eq_self refl))),
    subst (λ k. lookup k (after r rl).requests ≡ some info) m (a.entry ∙ ap (entry_after o) e),
  )

  admitted_to-other :
      str_eq (id_of r) id ≡ false → admitted_to id (r ∷ rs) rl ≡ admitted_to id rs (after r rl)
  unfolding admitted_to
  admitted_to-other n = rw n (ground arith)

-- The requests stand in the minute that starts at a time.
abbrev pub Within : ℕ → List Request → Type 0
Within t rs = All (λ r. (t ≤ r.time) × (r.time ≤ t + window)) rs

-- A client with an entry that lasts has what its count leaves of the limit.
admitted_to-counted :
    (id : String) (rs : List Request) (rl : RateLimiter) (info : RequestInfo) (t n : ℕ)
    → rl.enabled ≡ true
    → rl.requests_per_minute ≡ n
    → Within t rs
    → lookup id rl.requests ≡ some info
    → t + window ≤ info.reset_time
    → admitted_to id rs rl ≡ min (requests_of id rs) (n - info.count)
unfolding admitted_to answer
admitted_to-counted id [] rl info t n on p w e l = ground arith
admitted_to-counted id (r ∷ rs) rl info t n on p ((low, high), w) e l =
    elim (Bool-cases (str_eq (id_of r) id)) [
      | inl y ↦
          let m = (eq_iff (id_of r) id).0 y in
          let a = admit-Admits r rl on (some info) (rw m e) in
          let x : ltb info.reset_time r.time ≡ false = ground arith in
          let next = admitted_to-counted id rs (after r rl) in
          elim (Bool-cases (leb rl.requests_per_minute info.count)) [
            | inl full ↦
                let (f, g) = mine-rejected id r rs rl (some info) m a (rw x (rw full refl)) in
                let rest = next info t n a.same_flag (a.same_limit ∙ p) w g l in
                f ∙ rest ∙ ground arith
            | inr room ↦
                let info' = record info { count = info.count + 1 } in
                let (f, g) = mine-counted id r rs rl (some info) info' m a (rw x (rw room refl)) in
                let rest = next info' t n a.same_flag (a.same_limit ∙ p) w g l in
                f ∙ ap suc rest ∙ ground arith
          ]
      | inr ne ↦
          let a = admit-Admits r rl on (lookup (id_of r) rl.requests) refl in
          let rest =
            admitted_to-counted id rs (after r rl) info t n a.same_flag (a.same_limit ∙ p) w
              (a.others id ne ∙ e) l in
          admitted_to-other id r rs rl ne ∙ rest ∙ rw ne refl
    ]

-- In a run of requests of any clients, all of them made between a time and one minute later, an
-- enabled limiter admits to a client without an entry all requests that it makes, up to one less
-- than the limit (up to one, where the limit is 0 or 1), and no more. Every admitted request is
-- recorded, as in Authenticate.
pub admitted_to-fresh :
    (id : String) (rs : List Request) (rl : RateLimiter) (t : ℕ)
    → rl.enabled ≡ true
    → Within t rs
    → lookup id rl.requests ≡ none
    → admitted_to id rs rl ≡ min (requests_of id rs) (max 1 (rl.requests_per_minute - 1))
unfolding admitted_to answer
admitted_to-fresh id rs rl t on w e = go rs rl w on refl e
  where
    go :
        (rs : List Request) (s : RateLimiter)
        → Within t rs
        → s.enabled ≡ true
        → s.requests_per_minute ≡ rl.requests_per_minute
        → lookup id s.requests ≡ none
        → admitted_to id rs s ≡ min (requests_of id rs) (max 1 (rl.requests_per_minute - 1))
    go [] s w on p e = ground arith
    go (r ∷ rs) s ((low, high), w) on p e = elim (Bool-cases (str_eq (id_of r) id)) [
      | inl y ↦
          let m = (eq_iff (id_of r) id).0 y in
          let a = admit-Admits r s on none (rw m e) in
          let info : RequestInfo = record { count = 2; reset_time = r.time + window } in
          let (f, g) = mine-counted id r rs s none info m a refl in
          let rest =
            admitted_to-counted id rs (after r s) info t rl.requests_per_minute a.same_flag
              (a.same_limit ∙ p) w g (ground arith) in
          f ∙ ap suc rest ∙ ground arith
      | inr ne ↦
          let a = admit-Admits r s on (lookup (id_of r) s.requests) refl in
          let rest = go rs (after r s) w a.same_flag (a.same_limit ∙ p) (a.others id ne ∙ e) in
          admitted_to-other id r rs s ne ∙ rest ∙ rw ne refl
    ]

-- A request that comes after the end of its client's window is admitted by an enabled limiter,
-- whatever the count and the limit are.
pub admit-after_window :
    (r : Request) (rl : RateLimiter) (info : RequestInfo)
    → rl.enabled ≡ true
    → lookup (id_of r) rl.requests ≡ some info
    → info.reset_time < r.time
    → (admit r.time r.client_ip r.api_key rl).1 ≡ true
unfolding answer
admit-after_window r rl info on e late =
    let a = admit-Admits r rl on (some info) e in
    let x : ltb info.reset_time r.time ≡ true = ground arith in rw a.verdict (rw x refl)
