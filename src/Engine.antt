-- ===== src/Engine.antt =====
-- The process engine (src/process): process instances (src/core/models/process_instance.go), their
-- storage and that of the tokens (src/storage/storage_process.go), and the result of an executor
-- (src/process/component.go). The children hold the execution processor,
-- the execution and the callback of a token, the gateways and the instance manager.
pub mod Callbacks
pub mod CallbackExamples
pub mod Cancellation
pub mod Awaits
pub mod Boundaries
pub mod Branches
pub mod CaughtErrors
pub mod Chain
pub mod Choice
pub mod Completion
pub mod Elements
pub mod Examples
pub mod Exclusive
pub mod Execution
pub mod Executions
pub mod Resumed
pub mod ExecutionExamples
pub mod Forks
pub mod GatewayExamples
pub mod Inclusive
pub mod JobCallbacks
pub mod JobErrors
pub mod JobExamples
pub mod JobOnce
pub mod LastToken
pub mod Manager
pub mod Once
pub mod Outcomes
pub mod Processor
pub mod Settled
pub mod Steps
pub mod Storage
pub mod TimerCallbacks
pub mod TimerExamples
pub mod TimerSteps
use atom_engine.Base.{
  ℕ, String, Bool, true, false, Option, none, some, List, [], ◌∷◌, ◌++◌, Dict, lookup, insert,
  remove, merge, str_eq, if◌then◌else◌, ◌&&◌, ◌||◌,
}
use atom_engine.Token.{Token, TokenState, Value}

pub data InstanceState : Type 0 where
  active messages completed canceled failed suspended : InstanceState

pub record ProcessInstance : Type 0 where
  pub instance_id : String
  pub process_id : String
  pub process_name : String
  pub process_version : ℕ
  pub process_key : String
  pub state : InstanceState
  pub variables : Dict Value
  pub current_activity : String
  pub started_at : ℕ
  pub updated_at : ℕ
  pub completed_at : Option ℕ
  pub metadata : Dict Value

unfoldable pub new_process_instance : String → ℕ → String → String → ℕ → String → ProcessInstance
new_process_instance fresh now process_id process_name process_version process_key = record {
  instance_id = fresh;
  process_id = process_id;
  process_name = process_name;
  process_version = process_version;
  process_key = process_key;
  state = active;
  variables = [];
  current_activity = "";
  started_at = now;
  updated_at = now;
  completed_at = none;
  metadata = [];
}

-- The test of `IsCompleted` and of `SetState`.
abbrev pub is_final_state : InstanceState → Bool
is_final_state completed = true
is_final_state canceled = true
is_final_state failed = true
is_final_state _ = false

unfoldable pub set_instance_state : ℕ → InstanceState → ProcessInstance → ProcessInstance
set_instance_state now state p = record p {
  state = state;
  updated_at = now;
  completed_at = if is_final_state state then some now else p.completed_at;
}

unfoldable pub is_instance_completed : ProcessInstance → Bool
is_instance_completed p = is_final_state p.state

unfoldable pub set_instance_variable : ℕ → String → Value → ProcessInstance → ProcessInstance
set_instance_variable now key value p = record p {
  variables = insert key value p.variables;
  updated_at = now;
}

unfoldable pub set_instance_variables : ℕ → Dict Value → ProcessInstance → ProcessInstance
set_instance_variables now variables p = record p {
  variables = merge variables p.variables;
  updated_at = now;
}

unfoldable pub set_current_activity : ℕ → String → ProcessInstance → ProcessInstance
set_current_activity now element_id p = record p { current_activity = element_id; updated_at = now }

unfoldable pub add_metadata : ℕ → String → Value → ProcessInstance → ProcessInstance
add_metadata now key value p = record p { metadata = insert key value p.metadata; updated_at = now }

unfoldable pub get_metadata : String → ProcessInstance → Option Value
get_metadata key p = lookup key p.metadata

-- `TimerRequest` of src/process/component.go; a nil pointer is `none`.
pub record TimerRequest : Type 0 where
  pub element_id : String
  pub token_id : String
  pub process_instance_id : String
  pub process_key : String
  pub time_duration : Option String
  pub time_date : Option String
  pub time_cycle : Option String
  pub attached_to_ref : Option String
  pub cancel_activity : Option Bool

-- `none` as variables is a nil map, which is not merged.
pub record ExecutionResult : Type 0 where
  pub success : Bool
  pub token_updated : Bool
  pub next_elements : List String
  pub new_tokens : List Token
  pub variables : Option (Dict Value)
  pub waiting_for : String
  pub completed : Bool
  pub error : String
  pub timer_request : Option TimerRequest
  pub is_timer_callback : Bool

-- A call of the component, recorded where it starts.
pub data Call : Type 0 where
  execute : Token → Call
  execute_async : Token → Call
  cancel_boundary_timers : String → Call
  cancel_event_timers : String → Call
  create_timer : TimerRequest → Call
  cancel_all_timers : String → Call
  cancel_all_jobs : String → String → Call

-- The records under the prefixes of the tokens and of the instances, which calls to the database
-- and to the timers fail, and the calls that were started, the oldest first.
pub record Engine : Type 0 where
  pub tokens : Dict Token
  pub instances : Dict ProcessInstance
  pub token_read_fails : Bool
  pub token_write_fails : Bool
  pub instance_read_fails : Bool
  pub instance_write_fails : Bool
  pub create_timer_fails : Bool
  pub calls : List Call

abbrev pub call : Call → Engine → Engine
call c s = record s { calls = s.calls ++ c ∷ [] }

-- The loops of the reads by prefix.
unfoldable pub tokens_where : (Token → Bool) → Dict Token → List Token
tokens_where p [] = []
tokens_where p ((_, t) ∷ rest) = if p t then t ∷ tokens_where p rest else tokens_where p rest

abbrev pub is_in_instance : String → Token → Bool
is_in_instance instance_id t = str_eq t.process_instance_id instance_id

abbrev pub is_in_state : TokenState → Token → Bool
is_in_state TokenState.active t = elim t.state [ TokenState.active ↦ true | _ ↦ false ]
is_in_state TokenState.completed t = elim t.state [ TokenState.completed ↦ true | _ ↦ false ]
is_in_state TokenState.canceled t = elim t.state [ TokenState.canceled ↦ true | _ ↦ false ]
is_in_state TokenState.failed t = elim t.state [ TokenState.failed ↦ true | _ ↦ false ]
is_in_state TokenState.waiting t = elim t.state [ TokenState.waiting ↦ true | _ ↦ false ]

-- A read that fails is `none`.
unfoldable pub load_tokens_by_process_instance : String → Engine → Option (List Token)
unfolding tokens_where
load_tokens_by_process_instance instance_id s =
    if s.token_read_fails then none else some (tokens_where (is_in_instance instance_id) s.tokens)

unfoldable pub load_tokens_by_state : TokenState → Engine → Option (List Token)
unfolding tokens_where
load_tokens_by_state state s =
    if s.token_read_fails then none else some (tokens_where (is_in_state state) s.tokens)

-- A token that is missing is an error too.
unfoldable pub load_token : String → Engine → Option Token
load_token token_id s = if s.token_read_fails then none else lookup token_id s.tokens

-- A write that fails is `none`. `UpdateToken` is `SaveToken`.
unfoldable pub save_token : Token → Engine → Option Engine
save_token t s =
    if s.token_write_fails then none else some (record s { tokens = insert t.token_id t s.tokens })

unfoldable pub delete_token : String → Engine → Option Engine
delete_token token_id s =
    if s.token_write_fails then none else some (record s { tokens = remove token_id s.tokens })

unfoldable pub load_process_instance : String → Engine → Option ProcessInstance
load_process_instance instance_id s =
    if s.instance_read_fails then none else lookup instance_id s.instances

unfoldable pub save_process_instance : ProcessInstance → Engine → Option Engine
save_process_instance p s =
    if s.instance_write_fails
    then none
    else some (record s { instances = insert p.instance_id p s.instances })
