-- ===== src/Engine/Steps.antt =====
-- One execution of a token (ExecuteToken of src/process/engine.go), through the exclusive gateway
-- and through an executor that fails.
use atom_engine.Base.{
  ◌≡◌, refl, sym, ap, subst, ◌∙◌, String, Bool, false, Option, none, some, List, [], ◌∷◌, ◌++◌,
  Dict, lookup, insert, lookup-insert_self, All, str_eq, if◌then◌else◌,
}
use atom_engine.Token.{Token, TokenState, Value, Fields, move_to, set_state}
use atom_engine.Engine.{Engine, call, cancel_boundary_timers}
use atom_engine.Engine.Storage.{save_token-works}
use atom_engine.Engine.Elements.{
  member, field_of, find_target_element_by_flow_id, is_activity_element, target_elements,
}
use atom_engine.Engine.Processor.{
  Answer, Env, executes, forward_token, leave_activity, move_to_targets,
  move_token_to_next_elements, process_execution_result, settle_token, update_and,
}
use atom_engine.Engine.Exclusive.{chosen, execute_exclusive, flows_of}
use atom_engine.Engine.Choice.{execute_exclusive-choice, find_or, holds, is_unconditional}
use atom_engine.Engine.Execution.{
  Executor, answered, answer_of, execute_element, execute_token, execute_type, execution_failed,
  fail_token, exclusive_executor, finish_execution, refused,
}

module _ (executors : String → Value → Option Executor) (e : Env) (definitions : Dict (Dict Value))
    (elements : Dict Value) (token : Token) (fields : Fields) (s : Engine)
    (loaded : lookup token.process_key definitions ≡ some elements)
    (found : lookup token.current_element_id elements ≡ some (Value.object fields)) where
  execute_token-typed :
      (type : String)
      → field_of "type" fields ≡ some (Value.text type)
      → execute_token executors e definitions token s
        ≡ execute_type executors e elements token type (Value.object fields) s
  unfolding execute_token execute_element
  execute_token-typed type t = simp (execute_token, execute_element, loaded, found, t)

  execute_token-executes :
      (type : String) (executor : Executor)
      → field_of "type" fields ≡ some (Value.text type)
      → str_eq type "sequenceFlow" ≡ false
      → executors type (Value.object fields) ≡ some executor
      → execute_token executors e definitions token s
        ≡ finish_execution e elements (executor token (Value.object fields) s)
  unfolding execute_type
  execute_token-executes type executor t no_flow x =
      execute_token-typed type t ∙ simp (execute_type, no_flow, x)

  -- Where the executor of the element returns an error, the token is marked as failed, is saved with
  -- that mark, and its boundary timers are canceled; the call returns the error. The save works.
  pub execute_token-failed :
      (type : String) (executor : Executor)
      → field_of "type" fields ≡ some (Value.text type)
      → str_eq type "sequenceFlow" ≡ false
      → executors type (Value.object fields) ≡ some executor
      → (executor token (Value.object fields) s).result ≡ none
      → (executor token (Value.object fields) s).engine.token_write_fails ≡ false
      → let x = executor token (Value.object fields) s in
        let failed_token = set_state e.now TokenState.failed x.token in
        let o = execute_token executors e definitions token s in
        (o.token ≡ failed_token)
        × (lookup x.token.token_id o.engine.tokens ≡ some failed_token)
        × (o.engine.calls ≡ x.engine.calls ++ cancel_boundary_timers x.token.token_id ∷ [])
        × (o.reply ≡ refused execution_failed)
  unfolding finish_execution fail_token set_state
  execute_token-failed type executor t no_flow found_executor fails writes =
      let x = executor token (Value.object fields) s in
      let failed_token = set_state e.now TokenState.failed x.token in
      let called = call (cancel_boundary_timers x.token.token_id) x.engine in
      let after : Engine = record called {
        tokens = insert x.token.token_id failed_token called.tokens;
      } in
      let direct : execute_token executors e definitions token s
          ≡ record { token = failed_token; engine = after; reply = refused execution_failed } =
        execute_token-executes type executor t no_flow found_executor
        ∙ simp (finish_execution, fails, fail_token, save_token-works called failed_token writes) in
      (
        ap (λ o. o.token) direct,
        ap (λ o. lookup x.token.token_id o.engine.tokens) direct
            ∙ lookup-insert_self x.token.token_id failed_token x.engine.tokens,
        ap (λ o. o.engine.calls) direct,
        ap (λ o. o.reply) direct,
      )

target_elements-one :
    (flow target : String) (elements : Dict Value)
    → find_target_element_by_flow_id flow elements ≡ target
    → str_eq target "" ≡ false
    → target_elements (flow ∷ []) elements ≡ target ∷ []
unfolding target_elements
target_elements-one flow target elements f named =
    subst (λ t. (if str_eq t "" then [] else t ∷ []) ≡ target ∷ []) (sym f)
      (ap (λ b. if b then [] else target ∷ []) named)

leave_activity-outside :
    (token : Token) (elements : Dict Value) (s : Engine)
    → is_activity_element token.current_element_id elements ≡ false
    → leave_activity token elements s ≡ s
unfolding leave_activity
leave_activity-outside token elements s outside =
    ap (λ b. if b then call (cancel_boundary_timers token.token_id) s else s) outside

pub update_and-works :
    (answer : Answer) (token : Token) (s : Engine)
    → s.token_write_fails ≡ false
    → update_and answer token s ≡ record {
      token = token;
      engine = record s { tokens = insert token.token_id token s.tokens };
      answer = answer;
    }
unfolding update_and
update_and-works answer token s writes = simp (update_and, save_token-works s token writes)

-- A result with one flow moves the token, outside of an activity.
process_execution_result-moves :
    (e : Env) (token : Token) (flow target : String) (elements : Dict Value) (s : Engine)
    → find_target_element_by_flow_id flow elements ≡ target
    → str_eq target "" ≡ false
    → is_activity_element token.current_element_id elements ≡ false
    → s.token_write_fails ≡ false
    → process_execution_result e token (chosen (flow ∷ [])) elements s ≡ record {
      token = move_to e.now target token;
      engine = record s { tokens = insert token.token_id (move_to e.now target token) s.tokens };
      answer = executes (move_to e.now target token);
    }
unfolding process_execution_result settle_token forward_token move_token_to_next_elements
    move_to_targets move_to
process_execution_result-moves e token flow target elements s f named outside writes =
    ap (λ targets. move_to_targets e token targets (leave_activity token elements s))
      (target_elements-one flow target elements f named)
    ∙ ap (move_to_targets e token (target ∷ [])) (leave_activity-outside token elements s outside)
    ∙ update_and-works (executes (move_to e.now target token)) (move_to e.now target token) s writes

module _ (executors : String → Value → Option Executor) (e : Env) (definitions : Dict (Dict Value))
    (evaluate : Dict Value → String → Bool) (elements : Dict Value) (token : Token)
    (fields : Fields) (s : Engine) (loaded : lookup token.process_key definitions ≡ some elements)
    (found : lookup token.current_element_id elements ≡ some (Value.object fields))
    (type : field_of "type" fields ≡ some (Value.text "exclusiveGateway"))
    (registered : executors "exclusiveGateway" (Value.object fields)
      ≡ some (exclusive_executor evaluate definitions)) where
  exclusive_gateway-outside : is_activity_element token.current_element_id elements ≡ false
  unfolding is_activity_element
  exclusive_gateway-outside = simp (is_activity_element, found, type)

  -- The execution of a token at an exclusive gateway with outgoing flows moves it over the first flow
  -- whose condition holds, or else over the first one without a condition, or else over the first
  -- one: it is saved at the target of that flow, and is executed there; the timers and the other
  -- calls are left as they are. The flow has a target, no flow has the empty id, and the save works.
  pub execute_token-exclusive :
      (outgoing : Value) (first : String) (rest : List String) (target : String)
      → member "outgoing" (Value.object fields) ≡ some outgoing
      → flows_of (some outgoing) ≡ first ∷ rest
      → All (λ f. str_eq f "" ≡ false) (first ∷ rest)
      → find_target_element_by_flow_id
          (find_or
            (holds evaluate token.variables elements)
            (find_or (is_unconditional elements) first (first ∷ rest))
            (first ∷ rest))
          elements
        ≡ target
      → str_eq target "" ≡ false
      → s.token_write_fails ≡ false
      → let moved = move_to e.now target token in
        execute_token executors e definitions token s ≡ record {
          token = moved;
          engine = record s { tokens = insert token.token_id moved s.tokens };
          reply = answered (executes moved);
        }
  unfolding finish_execution
  execute_token-exclusive outgoing first rest target has flows named leads reached writes =
      let flow =
        find_or (holds evaluate token.variables elements)
          (find_or (is_unconditional elements) first (first ∷ rest)) (first ∷ rest) in
      let choice =
        execute_exclusive-choice evaluate token.variables elements (Value.object fields) outgoing
          first rest has flows named in
      execute_token-executes executors e definitions elements token fields s loaded found
        "exclusiveGateway" (exclusive_executor evaluate definitions) type refl registered
      ∙ ap
          (λ process. finish_execution e elements (record {
            token = token;
            engine = s;
            result =
                some (execute_exclusive evaluate token.variables process (Value.object fields));
          }))
          loaded
      ∙ ap
          (λ result.
            finish_execution e elements
              (record { token = token; engine = s; result = some result }))
          choice
      ∙ ap answer_of (
          process_execution_result-moves e token flow target elements s leads reached
            exclusive_gateway-outside writes)
