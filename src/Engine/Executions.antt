-- ===== src/Engine/Executions.antt =====
-- A wait that a token does not have, over ExecuteToken (src/process/engine.go).
use atom_engine.Base.{
  ℕ, zero, suc, false, ◌≡◌, refl, subst, Bool, [], ◌∷◌, List, String, Option, none, some, Dict,
  lookup, str_eq, Option-cases, if_cases, inl, inr,
}
use atom_engine.Token.{Token, TokenState, Value, is_waiting, move_to, set_state}
use atom_engine.Engine.{Engine, ExecutionResult, call, cancel_boundary_timers}
use atom_engine.Engine.Awaits.{
  IsFree, IsIdle, IsIdle-idle, IsIdle-moved, IsIdleAnswer, save_cases, update_and-IsFree,
}
use atom_engine.Engine.Chain.{answer_in, execute_chain}
use atom_engine.Engine.Elements.{member}
use atom_engine.Engine.Execution.{
  Done, Execution, Executor, exclusive_executor, execute_element, execute_token, execute_type,
  fail_token, finish_execution, follow_flow,
}
use atom_engine.Engine.Processor.{Answer, Env, done, error, executes}
use mathlib.Core.Option.{some_inj}
use atom_engine.Engine.Exclusive.{chosen, execute_exclusive, failure, flows_of, select_flow}
use atom_engine.Engine.Outcomes.{AsksElse, process_execution_result-IsFree}

pub record LeavesFree (wait id : String) (x : Execution) : Type 0 where
  pub engine : IsFree wait id x.engine
  pub token : IsIdle wait x.token
  pub result : (r : ExecutionResult) → x.result ≡ some r → AsksElse wait r

-- No executor brings the wait about: neither in its token, nor in the store, nor by its result.
abbrev pub NoneAsks : String → String → (String → Value → Option Executor) → Type 0
NoneAsks wait id executors =
    (type : String) (element : Value) (executor : Executor)
    → executors type element ≡ some executor
    → (t : Token) (s : Engine) → IsIdle wait t
    → IsFree wait id s
    → LeavesFree wait id (executor t element s)

module _ (wait id : String) where
  abbrev pub IsFreeDone : Done → Type 0
  IsFreeDone d = IsFree wait id d.engine × IsIdleAnswer wait (answer_in d.reply)

  fail_token-IsFree :
      (e : Env) (t : Token) (s : Engine) → IsFree wait id s → IsFreeDone (fail_token e t s)
  unfolding fail_token set_state is_waiting
  fail_token-IsFree e t s free =
      save_cases wait id IsFreeDone (set_state e.now TokenState.failed t)
        (call (cancel_boundary_timers t.token_id) s) _ _
        (IsIdle-idle wait (set_state e.now TokenState.failed t) refl) free (free, tt)
        (λ s' free'. (free', tt))

  finish_execution-IsFree :
      (e : Env) (elements : Dict Value) (x : Execution)
      → LeavesFree wait id x
      → IsFreeDone (finish_execution e elements x)
  unfolding finish_execution
  finish_execution-IsFree e elements x leaves = elim (Option-cases x.result) [
    | inl missing ↦ rw missing (fail_token-IsFree e x.token x.engine leaves.engine)
    | inr (r, found) ↦ rw found (
        process_execution_result-IsFree wait id e x.token r elements x.engine leaves.token
          (leaves.result r found) leaves.engine)
  ]

  follow_flow-IsFree :
      (e : Env) (t : Token) (target : Option Value) (s : Engine)
      → IsIdle wait t
      → IsFree wait id s
      → IsFreeDone (follow_flow e t target s)
  unfolding follow_flow
  follow_flow-IsFree e t none s idle free = (free, tt)
  follow_flow-IsFree e t (some (Value.text target)) s idle free =
      let sent = IsIdle-moved wait e target t idle in
      update_and-IsFree wait id (executes (move_to e.now target t)) (move_to e.now target t) s sent
        sent free
  follow_flow-IsFree e t (some v) s idle free = (free, tt)

module _ (wait id : String) (executors : String → Value → Option Executor)
    (none_asks : NoneAsks wait id executors) (e : Env) where
  execute_type-IsFree :
      (elements : Dict Value) (t : Token) (type : String) (element : Value) (s : Engine)
      → IsIdle wait t
      → IsFree wait id s
      → IsFreeDone wait id (execute_type executors e elements t type element s)
  unfolding execute_type
  execute_type-IsFree elements t type element s idle free =
      if_cases (IsFreeDone wait id) (str_eq type "sequenceFlow")
        (λ _. follow_flow-IsFree wait id e t (member "target_ref" element) s idle free)
        (λ _. elim (Option-cases (executors type element)) [
          | inl missing ↦ rw missing (free, tt)
          | inr (executor, found) ↦ rw found (
              finish_execution-IsFree wait id e elements (executor t element s)
                (none_asks type element executor found t s idle free))
        ])

  execute_element-IsFree :
      (elements : Dict Value) (t : Token) (element : Value) (s : Engine)
      → IsIdle wait t
      → IsFree wait id s
      → IsFreeDone wait id (execute_element executors e elements t element s)
  unfolding execute_element
  execute_element-IsFree elements t (Value.object fields) s idle free =
      elim (Option-cases (member "type" (Value.object fields))) [
        | inl missing ↦ rw (execute_element, missing) (free, tt)
        | inr (Value.text type, found) ↦
            rw (execute_element, found)
              (execute_type-IsFree elements t type (Value.object fields) s idle free)
        | inr (v, found) ↦ rw (execute_element, found) (free, tt)
      ]
  execute_element-IsFree elements t v s idle free = (free, tt)

  execute_token-IsFree :
      (definitions : Dict (Dict Value)) (t : Token) (s : Engine)
      → IsIdle wait t
      → IsFree wait id s
      → IsFreeDone wait id (execute_token executors e definitions t s)
  unfolding execute_token
  execute_token-IsFree definitions t s idle free =
      elim (Option-cases (lookup t.process_key definitions)) [
        | inl missing ↦ rw (execute_token, missing) (free, tt)
        | inr (elements, found) ↦
            rw (execute_token, found)
              (elim (Option-cases (lookup t.current_element_id elements)) [
                | inl gone ↦ rw gone (free, tt)
                | inr (element, at) ↦ rw at (execute_element-IsFree elements t element s idle free)
              ])
      ]

  -- However far the executions have got, the token of the id does not have the wait.
  pub execute_chain-IsFree :
      (definitions : Dict (Dict Value)) (n : ℕ) (a : Answer) (s : Engine)
      → IsIdleAnswer wait a
      → IsFree wait id s
      → IsFree wait id (execute_chain executors e definitions n a s)
  unfolding execute_chain
  execute_chain-IsFree definitions zero a s next free = free
  execute_chain-IsFree definitions (suc n) (executes t) s next free =
      let (free', next') = execute_token-IsFree definitions t s next free in
      execute_chain-IsFree definitions n _ _ next' free'
  execute_chain-IsFree definitions (suc n) done s next free = free
  execute_chain-IsFree definitions (suc n) (error x) s next free = free

-- The exclusive gateways bring no wait about.
module _ (wait : String) (named : str_eq "" wait ≡ false) where
  execute_exclusive-AsksElse :
      (evaluate : Dict Value → String → Bool) (variables : Dict Value)
      (elements : Option (Dict Value)) (element : Value)
      → AsksElse wait (execute_exclusive evaluate variables elements element)
  unfolding execute_exclusive
  execute_exclusive-AsksElse evaluate variables elements element = after (member "outgoing" element)
    where
      choice : List String → ExecutionResult
      choice flows = elim flows [
        | [] ↦ failure "exclusive gateway has no valid outgoing sequence flows"
        | first ∷ rest ↦ chosen (select_flow evaluate variables elements first rest ∷ [])
      ]

      of_flows : (flows : List String) → AsksElse wait (choice flows)
      of_flows [] = record { waits = named; children = tt }
      of_flows (first ∷ rest) = record { waits = named; children = tt }

      after :
          (outgoing : Option Value)
          → AsksElse wait (elim outgoing [
            | none ↦ failure "exclusive gateway has no outgoing sequence flows"
            | some outgoing ↦ choice (flows_of (some outgoing))
          ])
      after none = record { waits = named; children = tt }
      after (some outgoing) = of_flows (flows_of (some outgoing))

  pub exclusive_executor-LeavesFree :
      (id : String) (evaluate : Dict Value → String → Bool) (definitions : Dict (Dict Value))
      (t : Token) (element : Value) (s : Engine)
      → IsIdle wait t
      → IsFree wait id s
      → LeavesFree wait id (exclusive_executor evaluate definitions t element s)
  exclusive_executor-LeavesFree id evaluate definitions t element s idle free = record {
    engine = free;
    token = idle;
    result = λ r given. subst (AsksElse wait) (some_inj.0 given) (
        execute_exclusive-AsksElse evaluate t.variables (lookup t.process_key definitions) element);
  }
