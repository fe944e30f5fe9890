-- ===== src/Gateway/Join.antt =====
-- Synchronization at a joining parallel gateway (src/process/parallel_gateway.go,
-- handleJoinGateway), over one arrival and over a run of arrivals.
use atom_engine.Base.{
  ℕ, ◌+◌, ◌≤◌, ◌<◌, ◌≡◌, String, true, false, Option, none, some, List, [], ◌∷◌, lookup, insert,
  remove, length, length-append, arith,
}
use atom_engine.Token.{Token, set_state, clone, completed, active}
use atom_engine.Gateway.{
  GatewaySyncState, SyncStore, Env, ExecutionResult, Result, ok, err, sync_key,
  new_gateway_sync_state, add_token, is_complete, has_token, holds_id, handle_join_gateway,
  completed_result, forward_result, load_gateway_sync_state, save_gateway_sync_state,
  delete_gateway_sync_state, loaded_or_new,
}

-- No call to the database fails.
abbrev pub IsHealthy : SyncStore → Type 0
IsHealthy st = (st.load_fails ≡ false) × (st.save_fails ≡ false) × (st.delete_fails ≡ false)

-- The tokens that have arrived so far, as the store has them.
abbrev pub arrived_of : Option GatewaySyncState → List String
arrived_of none = []
arrived_of (some s) = s.arrived_tokens

-- How many tokens the stored state waits for; a gateway with no state takes the count of its flows.
abbrev pub expected_of : ℕ → Option GatewaySyncState → ℕ
expected_of n none = n
expected_of n (some s) = s.expected_token_count

-- A stored state stands under the key of its own gateway and instance.
abbrev pub IsFiled : String → String → Option GatewaySyncState → Type 0
IsFiled g p none = Unit
IsFiled g p (some s) = (s.gateway_id ≡ g) × (s.process_instance_id ≡ p)

abbrev pub result_flows : Result ExecutionResult → List String
result_flows (ok r) = r.next_elements
result_flows (err e) = []

-- What a join keeps in the store for a gateway and an instance.
abbrev pub stored : String → String → SyncStore → Option GatewaySyncState
stored g p st = lookup (sync_key g p) st.states

module _ (e : Env) (token : Token) (g : String) (n : ℕ) (flows : List String) (st : SyncStore)
    (healthy : IsHealthy st) where
  -- Where no call to the database fails, a token that has arrived before changes nothing: neither
  -- the token nor the store, and nothing is forwarded.
  pub handle_join_gateway_again :
      holds_id token.token_id (arrived_of (stored g token.process_instance_id st)) ≡ true
      → handle_join_gateway e token g n flows st
        ≡ record { token = token; store = st; result = ok completed_result }
  unfolding handle_join_gateway load_gateway_sync_state has_token new_gateway_sync_state holds_id
  handle_join_gateway_again h = ground arith

  module _ (filed : IsFiled g token.process_instance_id (stored g token.process_instance_id st))
      (fresh : holds_id token.token_id (arrived_of (stored g token.process_instance_id st))
        ≡ false) where
    -- Where no call to the database fails and the stored state is under its own key, a new token
    -- that is not the last is recorded and completed, and nothing is forwarded.
    pub handle_join_gateway_wait :
        length (arrived_of (stored g token.process_instance_id st)) + 1
          < expected_of n (stored g token.process_instance_id st)
        → handle_join_gateway e token g n flows st ≡ record {
          token = set_state e.now completed token;
          store = record st {
            states =
                insert
                  (sync_key g token.process_instance_id)
                  (add_token e.now token.token_id
                    (loaded_or_new e token g n (stored g token.process_instance_id st)))
                  st.states;
          };
          result = ok completed_result;
        }
    unfolding handle_join_gateway load_gateway_sync_state has_token new_gateway_sync_state holds_id
        save_gateway_sync_state add_token is_complete
    handle_join_gateway_wait h = ground (
      arith,
      length-append (arrived_of (stored g token.process_instance_id st)) (token.token_id ∷ []),
    )

    -- Where no call to the database fails and the stored state is under its own key, the last
    -- token is completed, the state is deleted, and an active clone of it is returned with every
    -- outgoing flow.
    pub handle_join_gateway_last :
        expected_of n (stored g token.process_instance_id st)
          ≤ length (arrived_of (stored g token.process_instance_id st)) + 1
        → let done = set_state e.now completed token in
          handle_join_gateway e token g n flows st ≡ record {
            token = done;
            store = record st {
              states = remove (sync_key g token.process_instance_id) (
                  insert
                    (sync_key g token.process_instance_id)
                    (add_token e.now token.token_id
                      (loaded_or_new e token g n (stored g token.process_instance_id st)))
                    st.states);
            };
            result =
                ok (
                  forward_result flows (set_state e.now active (clone e.clone_id e.now done) ∷ []));
          }
    unfolding handle_join_gateway load_gateway_sync_state has_token new_gateway_sync_state holds_id
        save_gateway_sync_state add_token is_complete delete_gateway_sync_state
    handle_join_gateway_last h = ground (
      arith,
      length-append (arrived_of (stored g token.process_instance_id st)) (token.token_id ∷ []),
    )
