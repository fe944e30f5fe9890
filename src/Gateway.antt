-- ===== src/Gateway.antt =====
-- Parallel gateways: the synchronization state (src/core/models/gateway.go), its storage
-- (src/storage/storage_gateway.go) and the executor (src/process/parallel_gateway.go).
-- Saving a state and loading it again gives the same state: JSON keeps every field of it.
pub mod Join
pub mod Rounds
pub mod Forks
mod Examples
use Prim.Native.String.{◌++◌ as str_append}
use atom_engine.Base.{
  ℕ, ◌+◌, String, Bool, true, false, ◌&&◌, Option, none, some, List, [], ◌∷◌, ◌++◌, Dict, lookup,
  insert, remove, length, ltb, leb, ◌==◌, str_eq, if◌then◌else◌,
}
use atom_engine.Token.{Token, set_state, clone, completed, active}

pub record GatewaySyncState : Type 0 where
  pub id : String
  pub gateway_id : String
  pub process_instance_id : String
  pub expected_token_count : ℕ
  pub arrived_tokens : List String
  pub created_at : ℕ
  pub updated_at : ℕ

unfoldable pub new_gateway_sync_state : String → ℕ → String → String → ℕ → GatewaySyncState
new_gateway_sync_state fresh now gateway_id process_instance_id expected_count = record {
  id = fresh;
  gateway_id = gateway_id;
  process_instance_id = process_instance_id;
  expected_token_count = expected_count;
  arrived_tokens = [];
  created_at = now;
  updated_at = now;
}

unfoldable pub add_token : ℕ → String → GatewaySyncState → GatewaySyncState
add_token now token_id s = record s {
  arrived_tokens = s.arrived_tokens ++ token_id ∷ [];
  updated_at = now;
}

unfoldable pub is_complete : GatewaySyncState → Bool
is_complete s = leb s.expected_token_count (length s.arrived_tokens)

-- The loop of `HasToken`.
unfoldable pub holds_id : String → List String → Bool
holds_id token_id [] = false
holds_id token_id (arrived ∷ rest) =
    if str_eq arrived token_id then true else holds_id token_id rest

unfoldable pub has_token : String → GatewaySyncState → Bool
has_token token_id s = holds_id token_id s.arrived_tokens

-- The records under the prefix `gateway:sync:`, and which of the calls to the database fail.
pub record SyncStore : Type 0 where
  pub states : Dict GatewaySyncState
  pub load_fails : Bool
  pub save_fails : Bool
  pub delete_fails : Bool

unfoldable pub sync_key : String → String → String
sync_key gateway_id process_instance_id =
    str_append "gateway:sync:" (str_append gateway_id (str_append ":" process_instance_id))

pub data Error : Type 0 where
  load_failed save_failed delete_failed : Error

pub data Result {ℓ} (A : Type ℓ) : Type ℓ where
  ok : A → Result A
  err : Error → Result A

-- A key that is not found is no error.
unfoldable pub load_gateway_sync_state :
    String → String → SyncStore → Result (Option GatewaySyncState)
load_gateway_sync_state g p st =
    if st.load_fails then err load_failed else ok (lookup (sync_key g p) st.states)

unfoldable pub save_gateway_sync_state : GatewaySyncState → SyncStore → Result SyncStore
save_gateway_sync_state s st =
    if st.save_fails
    then err save_failed
    else ok
        (record st { states = insert (sync_key s.gateway_id s.process_instance_id) s st.states })

unfoldable pub delete_gateway_sync_state : String → String → SyncStore → Result SyncStore
delete_gateway_sync_state g p st =
    if st.delete_fails
    then err delete_failed
    else ok (record st { states = remove (sync_key g p) st.states })

-- `ExecutionResult` of src/process/component.go, with the fields that the gateway sets.
pub record ExecutionResult : Type 0 where
  pub success : Bool
  pub token_updated : Bool
  pub next_elements : List String
  pub new_tokens : List Token
  pub completed : Bool

abbrev pub completed_result : ExecutionResult
completed_result = record {
  success = true;
  token_updated = false;
  next_elements = [];
  new_tokens = [];
  completed = true;
}

abbrev pub forward_result : List String → List Token → ExecutionResult
forward_result flows new_tokens = record {
  success = true;
  token_updated = false;
  next_elements = flows;
  new_tokens = new_tokens;
  completed = false;
}

-- What a call leaves: the token, which the caller shares, the store and the result.
pub record Outcome : Type 0 where
  pub token : Token
  pub store : SyncStore
  pub result : Result ExecutionResult

-- The ids that `GenerateID` gives to a new state and to a clone, and the time of the call.
pub record Env : Type 0 where
  pub state_id : String
  pub clone_id : String
  pub now : ℕ

-- A failed delete is logged, and the execution goes on.
abbrev deleted_or : SyncStore → Result SyncStore → SyncStore
deleted_or st (ok st') = st'
deleted_or st (err e) = st

-- From `token.SetState(Completed)` on, with the saved state `s`.
finish_join : Env → Token → String → List String → GatewaySyncState → SyncStore → Outcome
finish_join e token gateway_id flows s st =
    let done = set_state e.now completed token in
    if is_complete s
    then record {
      token = done;
      store = deleted_or st (delete_gateway_sync_state gateway_id token.process_instance_id st);
      result =
          ok (forward_result flows (set_state e.now active (clone e.clone_id e.now done) ∷ []));
    }
    else record { token = done; store = st; result = ok completed_result }

save_and_finish : Env → Token → String → List String → GatewaySyncState → SyncStore → Outcome
unfolding finish_join
save_and_finish e token gateway_id flows s st = elim (save_gateway_sync_state s st) [
  | err x ↦ record { token = token; store = st; result = err x }
  | ok st' ↦ finish_join e token gateway_id flows s st'
]

arrive : Env → Token → String → List String → GatewaySyncState → SyncStore → Outcome
unfolding save_and_finish
arrive e token gateway_id flows s st =
    if has_token token.token_id s
    then record { token = token; store = st; result = ok completed_result }
    else save_and_finish e token gateway_id flows (add_token e.now token.token_id s) st

abbrev pub loaded_or_new : Env → Token → String → ℕ → Option GatewaySyncState → GatewaySyncState
loaded_or_new e token gateway_id expected none =
    new_gateway_sync_state e.state_id e.now gateway_id token.process_instance_id expected
loaded_or_new e token gateway_id expected (some s) = s

unfoldable pub handle_join_gateway : Env → Token → String → ℕ → List String → SyncStore → Outcome
unfolding arrive
handle_join_gateway e token gateway_id expected flows st =
    elim (load_gateway_sync_state gateway_id token.process_instance_id st) [
      | err x ↦ record { token = token; store = st; result = err x }
      | ok found ↦
          arrive e token gateway_id flows (loaded_or_new e token gateway_id expected found) st
    ]

-- What `element["incoming"]` and `element["outgoing"]` may hold. An item of a `[]interface{}` that
-- is no text is `none`.
pub data Flows : Type 0 where
  missing : Flows
  items : List (Option String) → Flows
  texts : List String → Flows
  single : String → Flows
  other : Flows

pub incoming_count : Flows → ℕ
incoming_count missing = 0
incoming_count (items xs) = length xs
incoming_count (texts xs) = length xs
incoming_count (single x) = 1
incoming_count other = 0

text_items : List (Option String) → List String
text_items [] = []
text_items (none ∷ xs) = text_items xs
text_items (some x ∷ xs) = x ∷ text_items xs

pub outgoing_flows : Flows → List String
unfolding text_items
outgoing_flows missing = []
outgoing_flows (items xs) = text_items xs
outgoing_flows (texts xs) = xs
outgoing_flows (single x) = x ∷ []
outgoing_flows other = []

pub record Element : Type 0 where
  pub incoming : Flows
  pub outgoing : Flows

-- A fork and a pass-through give the same result, as the source writes it twice.
dispatch : Env → Token → ℕ → List String → SyncStore → Outcome
unfolding handle_join_gateway
dispatch e token incoming flows st =
    if ltb 1 incoming && leb 1 (length flows)
    then handle_join_gateway e token token.current_element_id incoming flows st
    else if incoming == 1 && ltb 1 (length flows)
    then record { token = token; store = st; result = ok (forward_result flows []) }
    else record { token = token; store = st; result = ok (forward_result flows []) }

unfoldable pub execute : Env → Token → Element → SyncStore → Outcome
unfolding dispatch incoming_count outgoing_flows
execute e token element st =
    dispatch e token (incoming_count element.incoming) (outgoing_flows element.outgoing) st
