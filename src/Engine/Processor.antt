-- ===== src/Engine/Processor.antt =====
-- The execution processor (src/process/execution_processor.go). A call reads the clock once.
-- ExecuteToken, which runs the next executor, is recorded where it is called; its effects are those
-- of the call that then follows.
use Prim.Native.String.{◌++◌ as str_append}
use atom_engine.Base.{
  ℕ, suc, String, Bool, true, false, not, Option, none, some, List, [], ◌∷◌, Dict, length, ltb,
  str_eq, select, if◌then◌else◌,
}
use atom_engine.Token.{
  Token, Value, TokenState, clone, move_to, set_state, set_waiting_for, clear_waiting_for,
  merge_variables, is_completed,
}
use atom_engine.Engine.{
  Engine, ExecutionResult, ProcessInstance, InstanceState, call, execute, execute_async,
  cancel_boundary_timers, create_timer, load_tokens_by_process_instance, load_tokens_by_state,
  save_token, load_process_instance, save_process_instance, set_instance_state,
}
use atom_engine.Engine.Elements.{is_activity_element, target_elements}

pub data Error : Type 0 where
  create_timer_failed update_token_failed no_targets load_tokens_failed : Error
  load_instance_failed update_instance_failed : Error

-- `executes` is the answer of the call of ExecuteToken with which the source returns.
pub data Answer : Type 0 where
  done : Answer
  executes : Token → Answer
  error : Error → Answer

-- The time of the call, and what `GenerateID` gives to the clones.
pub record Env : Type 0 where
  pub now : ℕ
  pub fresh_id : ℕ → String

-- The token that the caller shares is left in the first place.
pub record Outcome : Type 0 where
  pub token : Token
  pub engine : Engine
  pub answer : Answer

-- `UpdateToken` as the last step.
unfoldable pub update_and : Answer → Token → Engine → Outcome
update_and answer token s = elim (save_token token s) [
  | none ↦ record { token = token; engine = s; answer = error update_token_failed }
  | some s' ↦ record { token = token; engine = s'; answer = answer }
]

abbrev pub continue_parent : ℕ → Option ProcessInstance → Token → Token
continue_parent now none token = clear_waiting_for now token
continue_parent now (some child) token =
    clear_waiting_for now (merge_variables now child.variables token)

-- The loop over the parent tokens: one that is not saved is not executed.
unfoldable pub continue_parents : ℕ → Option ProcessInstance → List Token → Engine → Engine
continue_parents now child [] s = s
continue_parents now child (parent ∷ rest) s =
    let parent' = continue_parent now child parent in
    continue_parents now child rest
      (elim (save_token parent' s) [ none ↦ s | some s' ↦ call (execute parent') s' ])

abbrev pub call_activity_wait : String → String
call_activity_wait child_instance_id = str_append "call_activity:" child_instance_id

-- Every error is logged by the caller.
unfoldable pub handle_call_activity_completion : ℕ → String → Engine → Engine
unfolding continue_parents
handle_call_activity_completion now child_instance_id s =
    elim (load_tokens_by_state TokenState.waiting s) [
      | none ↦ s
      | some tokens ↦
          continue_parents now (load_process_instance child_instance_id s)
            (select (λ t. str_eq t.waiting_for (call_activity_wait child_instance_id)) tokens) s
    ]

unfoldable pub all_completed : List Token → Bool
all_completed [] = true
all_completed (t ∷ rest) = if is_completed t then all_completed rest else false

-- From `allCompleted` on.
unfoldable pub complete_instance : ℕ → String → Engine → Engine × Answer
unfolding handle_call_activity_completion
complete_instance now instance_id s = elim (load_process_instance instance_id s) [
  | none ↦ (s, error load_instance_failed)
  | some p ↦ elim (save_process_instance (set_instance_state now InstanceState.completed p) s) [
    | none ↦ (s, error update_instance_failed)
    | some s' ↦ (handle_call_activity_completion now instance_id s', done)
  ]
]

unfoldable pub check_process_completion : ℕ → String → Engine → Engine × Answer
unfolding all_completed complete_instance
check_process_completion now instance_id s = elim (load_tokens_by_process_instance instance_id s) [
  | none ↦ (s, error load_tokens_failed)
  | some tokens ↦ if all_completed tokens then complete_instance now instance_id s else (s, done)
]

-- The loop over the targets of a fork: a clone that is not saved is not executed.
unfoldable pub fork_tokens : Env → ℕ → Token → List String → Engine → Engine
fork_tokens e i token [] s = s
fork_tokens e i token (target ∷ rest) s =
    let child = move_to e.now target (clone (e.fresh_id i) e.now token) in
    fork_tokens e (suc i) token rest
      (elim (save_token child s) [ none ↦ s | some s' ↦ call (execute_async child) s' ])

-- From `targetElements` on.
unfoldable pub move_to_targets : Env → Token → List String → Engine → Outcome
unfolding update_and fork_tokens
move_to_targets e token [] s = record { token = token; engine = s; answer = error no_targets }
move_to_targets e token (target ∷ []) s =
    update_and (executes (move_to e.now target token)) (move_to e.now target token) s
move_to_targets e token (first ∷ second ∷ rest) s =
    let original = set_state e.now TokenState.completed token in
    elim (save_token original s) [
      | none ↦ record { token = original; engine = s; answer = error update_token_failed }
      | some s' ↦ record {
        token = original;
        engine = fork_tokens e 0 original (first ∷ second ∷ rest) s';
        answer = done;
      }
    ]

-- A failed cancellation of the boundary timers is logged.
unfoldable pub leave_activity : Token → Dict Value → Engine → Engine
leave_activity token elements s =
    if is_activity_element token.current_element_id elements
    then call (cancel_boundary_timers token.token_id) s
    else s

unfoldable pub move_token_to_next_elements :
    Env → Token → List String → Dict Value → Engine → Outcome
unfolding leave_activity move_to_targets
move_token_to_next_elements e token [] elements s = record {
  token = token;
  engine = s;
  answer = done;
}
move_token_to_next_elements e token (flow ∷ rest) elements s =
    move_to_targets e token (target_elements (flow ∷ rest) elements)
      (leave_activity token elements s)

-- The loop over the new tokens: one that is not saved is not executed.
unfoldable pub start_new_tokens : List Token → Engine → Engine
start_new_tokens [] s = s
start_new_tokens (t ∷ rest) s =
    start_new_tokens rest (elim (save_token t s) [ none ↦ s | some s' ↦ call (execute_async t) s' ])

-- From `if result.Completed` on: the completed token is saved, its boundary timers are canceled.
unfoldable pub complete_token : Env → Token → Engine → Outcome
unfolding check_process_completion
complete_token e token s =
    let done_token = set_state e.now TokenState.completed token in
    elim (save_token done_token s) [
      | none ↦ record { token = done_token; engine = s; answer = error update_token_failed }
      | some s' ↦
          let (s'', answer) =
            check_process_completion e.now token.process_instance_id
              (call (cancel_boundary_timers token.token_id) s') in
          record { token = done_token; engine = s''; answer = answer }
    ]

-- From the test of `NextElements` on.
unfoldable pub forward_token : Env → Token → ExecutionResult → Dict Value → Engine → Outcome
unfolding move_token_to_next_elements start_new_tokens update_and
forward_token e token result elements s =
    if ltb 0 (length result.next_elements)
    then move_token_to_next_elements e token result.next_elements elements s
    else if result.token_updated
    then update_and done token (start_new_tokens result.new_tokens s)
    else record { token = token; engine = start_new_tokens result.new_tokens s; answer = done }

-- From `if result.WaitingFor` on.
unfoldable pub settle_token : Env → Token → ExecutionResult → Dict Value → Engine → Outcome
unfolding complete_token forward_token update_and
settle_token e token result elements s =
    if not (str_eq result.waiting_for "")
    then update_and done (set_waiting_for e.now result.waiting_for token) s
    else if result.completed
    then complete_token e token s
    else forward_token e token result elements s

abbrev pub merge_result : ℕ → Option (Dict Value) → Token → Token
merge_result now none token = token
merge_result now (some variables) token = merge_variables now variables token

unfoldable pub process_execution_result :
    Env → Token → ExecutionResult → Dict Value → Engine → Outcome
unfolding settle_token
process_execution_result e token result elements s =
    let merged = merge_result e.now result.variables token in
    elim result.timer_request [
      | none ↦ settle_token e merged result elements s
      | some request ↦
          if s.create_timer_fails
          then record {
            token = merged;
            engine = call (create_timer request) s;
            answer = error create_timer_failed;
          }
          else settle_token e merged result elements (call (create_timer request) s)
    ]
