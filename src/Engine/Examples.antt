-- ===== src/Engine/Examples.antt =====
-- The engine on a small store.
use mathlib.Core.Option
use atom_engine.Base.{
  ℕ, zero, suc, ◌≡◌, ◌<◌, refl, sym, ap, ◌∙◌, Bool-cases, inl, inr, String, true, false, none, some,
  [], ◌∷◌, map, lookup, All, eq_iff, str_eq, arith,
}
use Prim.Native.String.{count, ◌++◌ as str_append}
use Prim.Native.String.count
use Prim.Native.String.append
use atom_engine.Token.{
  Token, TokenState, Value, new_token, set_state, set_waiting_for, is_completed,
}
use atom_engine.Engine.{
  Engine, ExecutionResult, ProcessInstance, InstanceState, new_process_instance, is_in_instance,
  set_instance_state, add_metadata, execute_async,
}
use atom_engine.Engine.Processor.{
  Env, done, check_process_completion, process_execution_result, move_to_targets,
}
use atom_engine.Engine.Manager.{cancel_process_instance}
use atom_engine.Engine.Completion.{check_process_completion-unfinished}
use atom_engine.Engine.LastToken.{process_execution_result-last, completed_or}
use atom_engine.Engine.Forks.{fork_children, move_to_targets-fork}
use atom_engine.Engine.Cancellation.{canceled_token, cancel_process_instance-tokens}

abbrev order_instance : ProcessInstance
unfolding new_process_instance
order_instance = new_process_instance "i" 1 "order" "Order" 1 "order"

abbrev end_token : Token
unfolding new_token
end_token = new_token "t1" 10 "i" "order" "end"

abbrev waiting_token : Token
unfolding new_token set_waiting_for
waiting_token = set_waiting_for 11 "message:paid" (new_token "t2" 10 "i" "order" "paid")

abbrev past_token : Token
unfolding new_token set_state
past_token = set_state 12 TokenState.completed (new_token "t0" 5 "i" "order" "start")

abbrev engine : Engine
engine = record {
  tokens = ("t0", past_token) ∷ ("t1", end_token) ∷ [];
  instances = ("i", order_instance) ∷ [];
  token_read_fails = false;
  token_write_fails = false;
  instance_read_fails = false;
  instance_write_fails = false;
  create_timer_fails = false;
  calls = [];
}

abbrev waiting_engine : Engine
waiting_engine = record engine { tokens = ("t1", end_token) ∷ ("t2", waiting_token) ∷ [] }

-- As long as the index says.
abbrev ids : ℕ → String
ids zero = ""
ids (suc n) = str_append "x" (ids n)

abbrev env : Env
env = record { now = 20; fresh_id = ids }

abbrev end_result : ExecutionResult
end_result = record {
  success = true;
  token_updated = false;
  next_elements = [];
  new_tokens = [];
  variables = some (("total", Value.number "3") ∷ []);
  waiting_for = "";
  completed = true;
  error = "";
  timer_request = none;
  is_timer_callback = false;
}

check_process_completion-unfinished_example :
    (check_process_completion 20 "i" waiting_engine).0 ≡ waiting_engine
unfolding lookup is_completed waiting_token
check_process_completion-unfinished_example =
    check_process_completion-unfinished 20 "i" "t2" waiting_token waiting_engine refl refl refl

process_execution_result-last_example :
    (lookup "i" (process_execution_result env end_token end_result [] engine).engine.instances
      ≡ some (set_instance_state 20 InstanceState.completed order_instance))
    × ((process_execution_result env end_token end_result [] engine).answer ≡ done)
unfolding lookup is_completed order_instance end_token past_token
process_execution_result-last_example =
    process_execution_result-last env engine order_instance refl refl refl refl refl
      (refl, (refl, tt)) end_token end_result [] refl refl refl refl
      (λ k t n e y.
        ap completed_or (sym e)
        ∙ rw n (elim (Bool-cases (str_eq "t0" k)) [ inl z ↦ rw z refl | inr z ↦ rw z refl ]))

count-ids : (n : ℕ) → count (ids n) ≡ n
count-ids zero = refl
count-ids (suc n) = rw append.cons (rw append.nil (rw count.cons (ap suc (count-ids n))))

ids-distinct : (j k : ℕ) → j < k → str_eq (ids k) (ids j) ≡ false
ids-distinct j k h = elim (Bool-cases (str_eq (ids k) (ids j))) [
  | inl y ↦
      let same : count (ids k) ≡ count (ids j) = ap count ((eq_iff (ids k) (ids j)).0 y) in
      absurd (omega (arith, count-ids j, count-ids k, same))
  | inr n ↦ n
]

abbrev forked : Token
forked = set_state 20 TokenState.completed end_token

move_to_targets-fork_example :
    let o = move_to_targets env end_token ("ship" ∷ "bill" ∷ []) engine in
    let children = fork_children env 0 forked ("ship" ∷ "bill" ∷ []) in
    (o.token ≡ forked)
    × (o.engine.calls ≡ map execute_async children)
    × (map (λ c. c.current_element_id) children ≡ "ship" ∷ "bill" ∷ [])
    × All (λ c. lookup c.token_id o.engine.tokens ≡ some c) children
    × All
        (λ c.
          (c.parent_token_id ≡ "t1")
          × (c.previous_element_id ≡ "end")
          × (c.state ≡ TokenState.completed))
        children
unfolding end_token
move_to_targets-fork_example =
    move_to_targets-fork env end_token "ship" "bill" [] engine refl ids-distinct

cancel_process_instance-tokens_example :
    let o = cancel_process_instance true 20 "i" "stopped" waiting_engine in
    ((k : String)
      → lookup k o.0.tokens
        ≡ Option.map (canceled_token 20 (is_in_instance "i")) (lookup k waiting_engine.tokens))
    × (lookup "i" o.0.instances
        ≡ some (
            add_metadata 20 "cancel_reason"
              (Value.text "stopped")
              (set_instance_state 20 InstanceState.canceled order_instance)))
    × (o.1 ≡ none)
unfolding lookup order_instance end_token waiting_token
cancel_process_instance-tokens_example =
    cancel_process_instance-tokens 20 "stopped" order_instance waiting_engine refl refl refl refl
      refl (refl, (refl, tt)) (refl, (refl, tt))
