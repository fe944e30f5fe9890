-- ===== src/Engine/Outcomes.antt =====
-- A wait that a token does not have, over the processing of a result
-- (src/process/execution_processor.go).
use atom_engine.Base.{
  ℕ, ◌≡◌, String, false, not, Option, none, some, List, [], ◌∷◌, Dict, ltb, length, str_eq, All,
  Bool-cases, Option-cases, if_cases, inl, inr, select,
}
use atom_engine.Token.{Token, TokenState, Value, is_waiting, set_state, set_waiting_for}
use atom_engine.Engine.{
  Engine, ExecutionResult, ProcessInstance, call, create_timer, cancel_boundary_timers, execute,
  execute_async, load_process_instance, load_tokens_by_process_instance, load_tokens_by_state,
  save_process_instance,
}
use atom_engine.Engine.Awaits.{
  IsFree, IsFreeOutcome, IsFreePair, IsIdle, IsIdle-cleared, IsIdle-idle, IsIdle-merged,
  move_token_to_next_elements-IsFree, save_cases, update_and-IsFree,
}
use atom_engine.Engine.Processor.{
  Env, all_completed, call_activity_wait, check_process_completion, complete_instance,
  complete_token, continue_parent, continue_parents, done, forward_token,
  handle_call_activity_completion, merge_result, process_execution_result, settle_token,
  start_new_tokens,
}
use atom_engine.Engine.Settled.{completed_idle}

-- A result that asks for no such wait.
pub record AsksElse (wait : String) (r : ExecutionResult) : Type 0 where
  pub waits : str_eq r.waiting_for wait ≡ false
  pub children : All (IsIdle wait) r.new_tokens

module _ (wait id : String) where
  continue_parents-IsFree :
      (now : ℕ) (child : Option ProcessInstance) (parents : List Token) (s : Engine)
      → IsFree wait id s
      → IsFree wait id (continue_parents now child parents s)
  unfolding continue_parents
  continue_parents-IsFree now child [] s free = free
  continue_parents-IsFree now child (parent ∷ rest) s free =
      continue_parents-IsFree now child rest _ (
        save_cases wait id (IsFree wait id) (continue_parent now child parent) s s
          (λ s'. call (execute (continue_parent now child parent)) s') (idle child) free free
          (λ s' free'. free'))
    where
      env : Env
      env = record { now = now; fresh_id = λ n. "" }

      idle : (c : Option ProcessInstance) → IsIdle wait (continue_parent now c parent)
      idle none = IsIdle-cleared wait env parent
      idle (some c) = IsIdle-cleared wait env _

  handle_call_activity_completion-IsFree :
      (now : ℕ) (instance_id : String) (s : Engine)
      → IsFree wait id s
      → IsFree wait id (handle_call_activity_completion now instance_id s)
  unfolding handle_call_activity_completion
  handle_call_activity_completion-IsFree now instance_id s free =
      after (load_tokens_by_state TokenState.waiting s)
    where
      after :
          (o : Option (List Token))
          → IsFree wait id (elim o [
            | none ↦ s
            | some tokens ↦
                continue_parents now
                  (load_process_instance instance_id s)
                  (select (λ t. str_eq t.waiting_for (call_activity_wait instance_id)) tokens)
                  s
          ])
      after none = free
      after (some tokens) =
          continue_parents-IsFree now (load_process_instance instance_id s)
            (select (λ t. str_eq t.waiting_for (call_activity_wait instance_id)) tokens) s free

  complete_instance-IsFree :
      (now : ℕ) (instance_id : String) (s : Engine)
      → IsFree wait id s
      → IsFreePair wait id (complete_instance now instance_id s)
  unfolding complete_instance save_process_instance
  complete_instance-IsFree now instance_id s free =
      elim (Option-cases (load_process_instance instance_id s)) [
        | inl missing ↦ rw (complete_instance, missing) (free, tt)
        | inr (p, found) ↦
            rw (complete_instance, found)
              (elim (Bool-cases s.instance_write_fails) [
                | inl y ↦ rw y (free, tt)
                | inr n ↦ rw n (handle_call_activity_completion-IsFree now instance_id _ free, tt)
              ])
      ]

  check_process_completion-IsFree :
      (now : ℕ) (instance_id : String) (s : Engine)
      → IsFree wait id s
      → IsFreePair wait id (check_process_completion now instance_id s)
  unfolding check_process_completion
  check_process_completion-IsFree now instance_id s free =
      elim (Option-cases (load_tokens_by_process_instance instance_id s)) [
        | inl missing ↦ rw (check_process_completion, missing) (free, tt)
        | inr (tokens, found) ↦
            rw (check_process_completion, found)
              (if_cases (IsFreePair wait id) (all_completed tokens)
                (λ _. complete_instance-IsFree now instance_id s free) (λ _. (free, tt)))
      ]

  complete_token-IsFree :
      (e : Env) (t : Token) (s : Engine)
      → IsFree wait id s
      → IsFreeOutcome wait id (complete_token e t s)
  unfolding complete_token
  complete_token-IsFree e t s free =
      let done_token = set_state e.now TokenState.completed t in
      save_cases wait id (IsFreeOutcome wait id) done_token s _
        (λ s'.
          let o =
            check_process_completion e.now t.process_instance_id
              (call (cancel_boundary_timers t.token_id) s') in
          record { token = done_token; engine = o.0; answer = o.1 })
        (IsIdle-idle wait done_token (completed_idle e t)) free (free, tt)
        (λ s' free'. check_process_completion-IsFree e.now t.process_instance_id _ free')

  start_new_tokens-IsFree :
      (ts : List Token) (s : Engine)
      → All (IsIdle wait) ts
      → IsFree wait id s
      → IsFree wait id (start_new_tokens ts s)
  unfolding start_new_tokens
  start_new_tokens-IsFree [] s idle free = free
  start_new_tokens-IsFree (t ∷ ts) s (first, idle) free = start_new_tokens-IsFree ts _ idle (
      save_cases wait id (IsFree wait id) t s s (λ s'. call (execute_async t) s') first free free
        (λ s' free'. free'))

  forward_token-IsFree :
      (e : Env) (t : Token) (r : ExecutionResult) (elements : Dict Value) (s : Engine)
      → IsIdle wait t
      → AsksElse wait r
      → IsFree wait id s
      → IsFreeOutcome wait id (forward_token e t r elements s)
  unfolding forward_token
  forward_token-IsFree e t r elements s idle asks free =
      if_cases (IsFreeOutcome wait id) (ltb 0 (length r.next_elements))
        (λ _. move_token_to_next_elements-IsFree wait id e t r.next_elements elements s idle free)
        (λ _.
          if_cases (IsFreeOutcome wait id) r.token_updated
            (λ _.
              update_and-IsFree wait id done t (start_new_tokens r.new_tokens s) idle tt
                (start_new_tokens-IsFree r.new_tokens s asks.children free))
            (λ _. (start_new_tokens-IsFree r.new_tokens s asks.children free, tt)))

  set_waiting_for-IsIdle :
      (e : Env) (other : String) (t : Token)
      → str_eq other wait ≡ false
      → IsIdle wait (set_waiting_for e.now other t)
  unfolding set_waiting_for is_waiting
  set_waiting_for-IsIdle e other t differs = differs

  settle_token-IsFree :
      (e : Env) (t : Token) (r : ExecutionResult) (elements : Dict Value) (s : Engine)
      → IsIdle wait t
      → AsksElse wait r
      → IsFree wait id s
      → IsFreeOutcome wait id (settle_token e t r elements s)
  unfolding settle_token
  settle_token-IsFree e t r elements s idle asks free =
      if_cases (IsFreeOutcome wait id) (not (str_eq r.waiting_for ""))
        (λ _.
          update_and-IsFree wait id done (set_waiting_for e.now r.waiting_for t) s
            (set_waiting_for-IsIdle e r.waiting_for t asks.waits) tt free)
        (λ _.
          if_cases (IsFreeOutcome wait id) r.completed (λ _. complete_token-IsFree e t s free)
            (λ _. forward_token-IsFree e t r elements s idle asks free))

  pub process_execution_result-IsFree :
      (e : Env) (t : Token) (r : ExecutionResult) (elements : Dict Value) (s : Engine)
      → IsIdle wait t
      → AsksElse wait r
      → IsFree wait id s
      → IsFreeOutcome wait id (process_execution_result e t r elements s)
  unfolding process_execution_result
  process_execution_result-IsFree e t r elements s idle asks free =
      let merged = merge_result e.now r.variables t in
      let still = IsIdle-merged wait e r.variables t idle in
      elim (Option-cases r.timer_request) [
        | inl missing ↦ rw missing (settle_token-IsFree e merged r elements s still asks free)
        | inr (request, found) ↦ rw found (
            if_cases (IsFreeOutcome wait id) s.create_timer_fails (λ _. (free, tt))
              (λ _.
                settle_token-IsFree e merged r elements (call (create_timer request) s) still asks
                  free))
      ]
