-- ===== src/Token.antt =====
-- The execution token of src/core/models/token.go. A method that writes to the token returns the
-- new record; `now` is what `time.Now` returns in the call (nanoseconds), and `fresh` what
-- `GenerateID` returns. A nil map and an empty map read alike, so both are `[]`.
pub mod Variables
pub mod Lifecycle
mod Examples
use atom_engine.Base.{
  ℕ, ◌<◌, String, Bool, true, false, ◌||◌, Option, none, some, List, [], ◌∷◌, ◌++◌, Dict, lookup,
  insert, remove, merge, length, ltb, str_eq, if◌then◌else◌,
}

-- What a Go `interface{}` holds after decoding JSON. A number is kept as it is printed.
mutual
  pub data Value : Type 0 where
    null : Value
    boolean : Bool → Value
    number : String → Value
    text : String → Value
    array : Values → Value
    object : Fields → Value

  pub data Values : Type 0 where
    nil : Values
    cons : Value → Values → Values

  pub data Fields : Type 0 where
    end : Fields
    field : String → Value → Fields → Fields

pub data TokenState : Type 0 where
  active completed canceled failed waiting : TokenState

pub data TokenType : Type 0 where
  execution event timer : TokenType

pub record Token : Type 0 where
  pub token_id : String
  pub process_instance_id : String
  pub process_key : String
  pub current_element_id : String
  pub previous_element_id : String
  pub state : TokenState
  pub type : TokenType
  pub variables : Dict Value
  pub waiting_for : String
  pub created_at : ℕ
  pub updated_at : ℕ
  pub completed_at : Option ℕ
  pub execution_context : Dict Value
  pub parent_token_id : String
  pub subprocess_id : String
  pub child_token_ids : List String
  pub boundary_timer_ids : List String

abbrev pub context_key_timer_callback : String
context_key_timer_callback = "timer_callback"

unfoldable pub new_token : String → ℕ → String → String → String → Token
new_token fresh now process_instance_id process_key element_id = record {
  token_id = fresh;
  process_instance_id = process_instance_id;
  process_key = process_key;
  current_element_id = element_id;
  previous_element_id = "";
  state = active;
  type = execution;
  variables = [];
  waiting_for = "";
  created_at = now;
  updated_at = now;
  completed_at = none;
  execution_context = [];
  parent_token_id = "";
  subprocess_id = "";
  child_token_ids = [];
  boundary_timer_ids = [];
}

unfoldable pub new_event_token : String → ℕ → String → String → String → Token
unfolding new_token
new_event_token fresh now instance key element = record (new_token fresh now instance key element) {
  type = event;
}

unfoldable pub new_timer_token : String → ℕ → String → String → String → Token
unfolding new_token
new_timer_token fresh now instance key element = record (new_token fresh now instance key element) {
  type = timer;
}

unfoldable pub move_to : ℕ → String → Token → Token
move_to now element_id t = record t {
  previous_element_id = t.current_element_id;
  current_element_id = element_id;
  updated_at = now;
}

-- The test of `IsCompleted` and of `SetState`.
abbrev pub is_final : TokenState → Bool
is_final completed = true
is_final canceled = true
is_final failed = true
is_final _ = false

unfoldable pub set_state : ℕ → TokenState → Token → Token
set_state now state t = record t {
  state = state;
  updated_at = now;
  completed_at = if is_final state then some now else t.completed_at;
}

unfoldable pub set_variable : ℕ → String → Value → Token → Token
set_variable now key value t = record t {
  variables = insert key value t.variables;
  updated_at = now;
}

unfoldable pub get_variable : String → Token → Option Value
get_variable key t = lookup key t.variables

unfoldable pub set_variables : ℕ → Dict Value → Token → Token
set_variables now variables t = record t {
  variables = merge variables t.variables;
  updated_at = now;
}

unfoldable pub merge_variables : ℕ → Dict Value → Token → Token
merge_variables now variables t = record t {
  variables = merge variables t.variables;
  updated_at = now;
}

unfoldable pub set_execution_context : ℕ → String → Value → Token → Token
set_execution_context now key value t = record t {
  execution_context = insert key value t.execution_context;
  updated_at = now;
}

unfoldable pub get_execution_context : String → Token → Option Value
get_execution_context key t = lookup key t.execution_context

unfoldable pub set_waiting_for : ℕ → String → Token → Token
set_waiting_for now waiting_for t = record t {
  waiting_for = waiting_for;
  state = waiting;
  updated_at = now;
}

abbrev pub resume : TokenState → TokenState
resume waiting = active
resume s = s

unfoldable pub clear_waiting_for : ℕ → Token → Token
clear_waiting_for now t = record t { waiting_for = ""; state = resume t.state; updated_at = now }

-- The loop of `RemoveChildToken` and `RemoveBoundaryTimer`: the first occurrence goes.
unfoldable pub remove_first : String → List String → List String
remove_first id [] = []
remove_first id (x ∷ xs) = if str_eq x id then xs else x ∷ remove_first id xs

unfoldable pub add_child_token : ℕ → String → Token → Token
add_child_token now id t = record t {
  child_token_ids = t.child_token_ids ++ id ∷ [];
  updated_at = now;
}

unfoldable pub remove_child_token : ℕ → String → Token → Token
unfolding remove_first
remove_child_token now id t = record t {
  child_token_ids = remove_first id t.child_token_ids;
  updated_at = now;
}

unfoldable pub has_child_tokens : Token → Bool
has_child_tokens t = ltb 0 (length t.child_token_ids)

unfoldable pub add_boundary_timer : ℕ → String → Token → Token
add_boundary_timer now id t = record t {
  boundary_timer_ids = t.boundary_timer_ids ++ id ∷ [];
  updated_at = now;
}

unfoldable pub remove_boundary_timer : ℕ → String → Token → Token
unfolding remove_first
remove_boundary_timer now id t = record t {
  boundary_timer_ids = remove_first id t.boundary_timer_ids;
  updated_at = now;
}

unfoldable pub has_boundary_timers : Token → Bool
has_boundary_timers t = ltb 0 (length t.boundary_timer_ids)

unfoldable pub get_boundary_timers : Token → List String
get_boundary_timers t = t.boundary_timer_ids

abbrev is_active_state : TokenState → Bool
is_active_state active = true
is_active_state _ = false

unfoldable pub is_active : Token → Bool
is_active t = is_active_state t.state

abbrev pub is_waiting_state : TokenState → Bool
is_waiting_state waiting = true
is_waiting_state _ = false

unfoldable pub is_waiting : Token → Bool
is_waiting t = is_waiting_state t.state

unfoldable pub is_completed : Token → Bool
is_completed t = is_final t.state

unfoldable pub set_timer_callback : ℕ → Token → Token
unfolding set_execution_context
set_timer_callback now t = set_execution_context now context_key_timer_callback (boolean true) t

unfoldable pub clear_timer_callback : ℕ → Token → Token
clear_timer_callback now t = record t {
  execution_context = remove context_key_timer_callback t.execution_context;
  updated_at = now;
}

-- `value.(bool)` with its `ok`, on the result of the look-up.
abbrev is_true_flag : Option Value → Bool
is_true_flag (some (boolean b)) = b
is_true_flag _ = false

unfoldable pub is_from_timer_callback : Token → Bool
unfolding get_execution_context
is_from_timer_callback t = is_true_flag (get_execution_context context_key_timer_callback t)

-- The fields that `Clone` does not name have Go's zero value.
unfoldable pub clone : String → ℕ → Token → Token
clone fresh now t = record {
  token_id = fresh;
  process_instance_id = t.process_instance_id;
  process_key = t.process_key;
  current_element_id = t.current_element_id;
  previous_element_id = t.previous_element_id;
  state = t.state;
  type = t.type;
  variables = merge t.variables [];
  waiting_for = "";
  created_at = now;
  updated_at = now;
  completed_at = none;
  execution_context = merge t.execution_context [];
  parent_token_id = t.token_id;
  subprocess_id = "";
  child_token_ids = [];
  boundary_timer_ids = [];
}
