-- ===== src/Auth/Decisions.antt =====
-- What Authenticate decides (src/core/auth/component.go).
use atom_engine.Base.{ℕ, ◌≡◌, refl, true, false, some, arith, Bool-cases, Option-cases, inl, inr}
use atom_engine.Auth.{AuthContext, AuthResult, ApiKey, is_localhost}
use atom_engine.Auth.Limiter.{admit}
use atom_engine.Auth.Keys.{validate_api_key}
use atom_engine.Auth.Addresses.{Net, validate_ip}
use atom_engine.Auth.Component.{
  AuthComponent, is_enabled, is_ready, authenticate, check_key, check_address, success,
}

module _ (net : Net) (ctx : AuthContext) where
  check_address-granted :
      (k : ApiKey) (c : AuthComponent) (r : AuthResult)
      → (check_address net ctx k c).1 ≡ some r
      → r.authenticated ≡ true
      → (validate_ip net ctx.client_ip k.allowed_hosts c.allowed_hosts ≡ true) × (success k ≡ r)
  unfolding check_address
  check_address-granted k c r e t = ground arith

  check_key-found :
      (c : AuthComponent) (k : ApiKey)
      → validate_api_key ctx.api_key c.api_keys ≡ some k
      → check_key net ctx c ≡ check_address net ctx k c
  unfolding check_key
  check_key-found c k f = rw (f, check_key) refl

  check_key-granted :
      (c : AuthComponent) (r : AuthResult)
      → (check_key net ctx c).1 ≡ some r
      → r.authenticated ≡ true
      → (k : ApiKey) × (validate_api_key ctx.api_key c.api_keys ≡ some k)
        × (validate_ip net ctx.client_ip k.allowed_hosts c.allowed_hosts ≡ true)
        × (success k ≡ r)
  unfolding check_key
  check_key-granted c r e t = elim (Option-cases (validate_api_key ctx.api_key c.api_keys)) [
    | inl n ↦ absurd (ground arith)
    | inr (k, f) ↦
        let (ip, same) = check_address-granted k c r (rw (check_key-found c k f) at e) t in
        (k, f, ip, same)
  ]

  admitted_state : ℕ → AuthComponent → AuthComponent
  admitted_state now c = record c { limiter = (admit now ctx.client_ip ctx.api_key c.limiter).0 }

  authenticate-admitted :
      (now : ℕ) (c : AuthComponent)
      → is_enabled c ≡ true
      → is_ready c ≡ true
      → is_localhost ctx.client_ip ≡ false
      → (admit now ctx.client_ip ctx.api_key c.limiter).1 ≡ true
      → authenticate net now ctx c ≡ check_key net ctx (admitted_state now c)
  unfolding authenticate admitted_state
  authenticate-admitted now c on ready remote ok = simp (on, ready, remote, ok)

  -- Where authentication is enabled and the client is not the local host, a request is granted only
  -- if the limiter admits it, its key is a valid one, and its address is in the list of the key (in
  -- the global list, where the key has none); the answer then names that key and its permissions.
  pub authenticate-granted :
      (now : ℕ) (c : AuthComponent) (r : AuthResult)
      → is_enabled c ≡ true
      → is_localhost ctx.client_ip ≡ false
      → (authenticate net now ctx c).1 ≡ some r
      → r.authenticated ≡ true
      → ((admit now ctx.client_ip ctx.api_key c.limiter).1 ≡ true)
        × (k : ApiKey) × (validate_api_key ctx.api_key c.api_keys ≡ some k)
        × (validate_ip net ctx.client_ip k.allowed_hosts c.allowed_hosts ≡ true)
        × (success k ≡ r)
  unfolding authenticate admitted_state
  authenticate-granted now c r on remote e t = elim (Bool-cases (is_ready c)) [
    | inr not_ready ↦ absurd (ground arith)
    | inl ready ↦ elim (Bool-cases (admit now ctx.client_ip ctx.api_key c.limiter).1) [
      | inr full ↦ absurd (ground arith)
      | inl ok ↦
          let (k, f, ip, same) =
            check_key-granted (admitted_state now c) r
              (rw (authenticate-admitted now c on ready remote ok) at e) t in
          (ok, k, f, ip, same)
    ]
  ]
