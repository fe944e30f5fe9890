-- ===== src/Gateway/Rounds.antt =====
-- A round of arrivals at a joining parallel gateway (src/process/parallel_gateway.go).
use atom_engine.Base.{
  ℕ, ◌+◌, ◌≤◌, ◌<◌, ◌≡◌, refl, sym, subst, ap, String, false, none, List, [], ◌∷◌, ◌++◌,
  lookup-insert_self, lookup-remove_self, length, length-append, replicate, arith,
}
use mathlib.Core.Path.{ap₂}
use atom_engine.Token.{Token}
use atom_engine.Gateway.{
  SyncStore, Env, Outcome, add_token, new_gateway_sync_state, loaded_or_new, holds_id,
  handle_join_gateway, sync_key,
}
use atom_engine.Gateway.Join.{
  IsHealthy, IsFiled, arrived_of, expected_of, stored, result_flows, handle_join_gateway_wait,
  handle_join_gateway_last,
}

-- The arrivals at a gateway, one after the other: the flows that each of them takes, and the store
-- that they leave.
pub run : String → ℕ → List String → List (Env × Token) → SyncStore → List (List String) × SyncStore
run g n flows [] st = ([], st)
run g n flows ((e, token) ∷ ts) st =
    let o = handle_join_gateway e token g n flows st in
    let (rs, st') = run g n flows ts o.store in (result_flows o.result ∷ rs, st')

-- Tokens of one instance with different ids, none of which has arrived before.
abbrev pub AreFresh : String → List String → List (Env × Token) → Type 0
AreFresh p seen [] = Unit
AreFresh p seen ((e, token) ∷ ts) =
    (token.process_instance_id ≡ p)
    × (holds_id token.token_id seen ≡ false)
    × AreFresh p (seen ++ token.token_id ∷ []) ts

-- What an arrival that is not the last leaves.
record Waits (g p id : String) (n : ℕ) (st : SyncStore) (o : Outcome) : Type 0 where
  healthy : IsHealthy o.store
  filed : IsFiled g p (stored g p o.store)
  arrived : arrived_of (stored g p o.store) ≡ arrived_of (stored g p st) ++ id ∷ []
  expected : expected_of n (stored g p o.store) ≡ expected_of n (stored g p st)
  silent : result_flows o.result ≡ []

module _ (e : Env) (token : Token) (g : String) (n : ℕ) (flows : List String) (st : SyncStore)
    (h : IsHealthy st)
    (f : IsFiled g token.process_instance_id (stored g token.process_instance_id st))
    (u : holds_id token.token_id (arrived_of (stored g token.process_instance_id st)) ≡ false) where
  Waits-here :
      length (arrived_of (stored g token.process_instance_id st)) + 1
        < expected_of n (stored g token.process_instance_id st)
      → Waits g token.process_instance_id token.token_id n st
          (handle_join_gateway e token g n flows st)
  unfolding add_token new_gateway_sync_state
  Waits-here l =
      subst (Waits g token.process_instance_id token.token_id n st)
        (sym (handle_join_gateway_wait e token g n flows st h f u l))
        (ground (
          arith,
          f,
          lookup-insert_self (sync_key g token.process_instance_id)
              (add_token e.now token.token_id
                (loaded_or_new e token g n (stored g token.process_instance_id st)))
              st.states,
        ))

  finishes_here :
      expected_of n (stored g token.process_instance_id st)
        ≤ length (arrived_of (stored g token.process_instance_id st)) + 1
      → (stored g token.process_instance_id (handle_join_gateway e token g n flows st).store ≡ none)
        × (result_flows (handle_join_gateway e token g n flows st).result ≡ flows)
  finishes_here l =
      subst
        (λ (o : Outcome).
          (stored g token.process_instance_id o.store ≡ none) × (result_flows o.result ≡ flows))
        (sym (handle_join_gateway_last e token g n flows st h f u l))
        (lookup-remove_self (sync_key g token.process_instance_id) _, refl)

module _ (e : Env) (token : Token) (g p : String) (n : ℕ) (flows : List String)
    (st : SyncStore) where
  waits :
      token.process_instance_id ≡ p
      → IsHealthy st
      → IsFiled g p (stored g p st)
      → holds_id token.token_id (arrived_of (stored g p st)) ≡ false
      → length (arrived_of (stored g p st)) + 1 < expected_of n (stored g p st)
      → Waits g p token.token_id n st (handle_join_gateway e token g n flows st)
  waits q =
      subst
        (λ p.
          IsHealthy st
          → IsFiled g p (stored g p st)
          → holds_id token.token_id (arrived_of (stored g p st)) ≡ false
          → length (arrived_of (stored g p st)) + 1 < expected_of n (stored g p st)
          → Waits g p token.token_id n st (handle_join_gateway e token g n flows st))
        q (Waits-here e token g n flows st)

  finishes :
      token.process_instance_id ≡ p
      → IsHealthy st
      → IsFiled g p (stored g p st)
      → holds_id token.token_id (arrived_of (stored g p st)) ≡ false
      → expected_of n (stored g p st) ≤ length (arrived_of (stored g p st)) + 1
      → (stored g p (handle_join_gateway e token g n flows st).store ≡ none)
        × (result_flows (handle_join_gateway e token g n flows st).result ≡ flows)
  finishes q =
      subst
        (λ p.
          IsHealthy st
          → IsFiled g p (stored g p st)
          → holds_id token.token_id (arrived_of (stored g p st)) ≡ false
          → expected_of n (stored g p st) ≤ length (arrived_of (stored g p st)) + 1
          → (stored g p (handle_join_gateway e token g n flows st).store ≡ none)
            × (result_flows (handle_join_gateway e token g n flows st).result ≡ flows))
        q (finishes_here e token g n flows st)

module _ (g p : String) (n : ℕ) (flows : List String) where
  -- The rest of a round, when some tokens have arrived already.
  round_from :
      (t : Env × Token) (ts : List (Env × Token)) (st : SyncStore)
      → IsHealthy st
      → IsFiled g p (stored g p st)
      → AreFresh p (arrived_of (stored g p st)) (t ∷ ts)
      → length (arrived_of (stored g p st)) + length (t ∷ ts) ≡ expected_of n (stored g p st)
      → ((run g n flows (t ∷ ts) st).0 ≡ replicate (length ts) [] ++ flows ∷ [])
        × (stored g p (run g n flows (t ∷ ts) st).1 ≡ none)
  unfolding run
  round_from (e, token) [] st h f (q, u, _) l =
      let (gone, out) = finishes e token g p n flows st q h f u (omega arith) in
      (ap (λ x. x ∷ []) out, gone)
  round_from (e, token) (t ∷ ts) st h f (q, u, us) l =
      let w = waits e token g p n flows st q h f u (omega arith) in
      let (outs, gone) =
        round_from t ts (handle_join_gateway e token g n flows st).store w.healthy w.filed
          (subst (λ a. AreFresh p a (t ∷ ts)) (sym w.arrived) us)
          (omega (
            arith,
            w.expected,
            ap length w.arrived,
            length-append (arrived_of (stored g p st)) (token.token_id ∷ []),
          )) in
      (ap₂ ◌∷◌ w.silent outs, gone)

  -- A whole round: where no state is stored and no call to the database fails, as many different
  -- tokens of one instance as the gateway has incoming flows take no flow until the last, which
  -- takes all of them, and the state is deleted again.
  pub run_round :
      (t : Env × Token) (ts : List (Env × Token)) (st : SyncStore)
      → IsHealthy st
      → stored g p st ≡ none
      → AreFresh p [] (t ∷ ts)
      → length (t ∷ ts) ≡ n
      → ((run g n flows (t ∷ ts) st).0 ≡ replicate (length ts) [] ++ flows ∷ [])
        × (stored g p (run g n flows (t ∷ ts) st).1 ≡ none)
  run_round t ts st h empty us l =
      round_from t ts st h (rw empty tt) (rw empty us) (rw empty (omega (arith, l)))
