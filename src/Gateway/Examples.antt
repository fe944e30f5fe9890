-- ===== src/Gateway/Examples.antt =====
-- Gateways at concrete inputs.
use atom_engine.Base.{◌≡◌, refl, false, some, none, [], ◌∷◌, lookup}
use atom_engine.Token.{Token, new_token}
use atom_engine.Gateway.{
  Env, SyncStore, Element, ok, items, single, forward_result, execute, holds_id, sync_key,
}
use atom_engine.Gateway.Rounds.{run, run_round}

abbrev left_token : Token
unfolding new_token
left_token = new_token "t1" 10 "i" "order" "join"

abbrev right_token : Token
unfolding new_token
right_token = new_token "t2" 11 "i" "order" "join"

abbrev env : Env
env = record { state_id = "s"; clone_id = "c"; now = 20 }

abbrev empty_store : SyncStore
empty_store = record { states = []; load_fails = false; save_fails = false; delete_fails = false }

-- One token of the two has arrived.
abbrev half_store : SyncStore
half_store = record empty_store {
  states =
      (
        sync_key "join" "i",
        record {
          id = "s";
          gateway_id = "join";
          process_instance_id = "i";
          expected_token_count = 2;
          arrived_tokens = "t1" ∷ [];
          created_at = 10;
          updated_at = 10;
        },
      )
      ∷ [];
}

-- As `half_store`, with the time of the call.
abbrev fresh_store : SyncStore
fresh_store = record empty_store {
  states =
      (
        sync_key "join" "i",
        record {
          id = "s";
          gateway_id = "join";
          process_instance_id = "i";
          expected_token_count = 2;
          arrived_tokens = "t1" ∷ [];
          created_at = 20;
          updated_at = 20;
        },
      )
      ∷ [];
}

run_round_example :
    (run "join" 2 ("f" ∷ []) ((env, left_token) ∷ (env, right_token) ∷ []) empty_store).0
    ≡ [] ∷ ("f" ∷ []) ∷ []
unfolding new_token holds_id lookup
run_round_example =
    (run_round "join" "i" 2 ("f" ∷ []) (env, left_token) ((env, right_token) ∷ []) empty_store
      (refl, refl, refl) refl (refl, refl, (refl, refl, tt)) refl).0

abbrev fork : Element
fork = record { incoming = single "a"; outgoing = items (some "b" ∷ none ∷ some "c" ∷ []) }

fork_forwards : execute env left_token fork empty_store ≡ record {
  token = left_token;
  store = empty_store;
  result = ok (forward_result ("b" ∷ "c" ∷ []) []);
}
unfolding execute
fork_forwards = refl
