-- ===== src/Gateway/Forks.antt =====
-- When a parallel gateway joins and when it forwards (src/process/parallel_gateway.go, Execute).
use atom_engine.Base.{◌≤◌, ◌<◌, ◌≡◌, ◌⊎◌, [], length, arith}
use atom_engine.Token.{Token}
use atom_engine.Gateway.{
  Env, Element, SyncStore, ok, forward_result, handle_join_gateway, incoming_count, outgoing_flows,
  execute,
}

-- A gateway with at most one incoming flow, or with no outgoing flow, does not synchronize: every
-- token passes at once over all outgoing flows, and the token and the store stay as they are.
pub execute_passes :
    (e : Env) (token : Token) (element : Element) (st : SyncStore)
    → (incoming_count element.incoming ≤ 1) ⊎ (outgoing_flows element.outgoing ≡ [])
    → execute e token element st ≡ record {
      token = token;
      store = st;
      result = ok (forward_result (outgoing_flows element.outgoing) []);
    }
unfolding execute
execute_passes e token element st h = ground arith

-- A gateway with several incoming flows and an outgoing one joins, and waits for as many tokens as
-- it has incoming flows.
pub execute_joins :
    (e : Env) (token : Token) (element : Element) (st : SyncStore)
    → 1 < incoming_count element.incoming
    → 0 < length (outgoing_flows element.outgoing)
    → execute e token element st
      ≡ handle_join_gateway e token token.current_element_id
          (incoming_count element.incoming)
          (outgoing_flows element.outgoing)
          st
unfolding execute
execute_joins e token element st h k = ground arith
