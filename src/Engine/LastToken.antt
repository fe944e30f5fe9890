-- ===== src/Engine/LastToken.antt =====
-- The completion of the last token of an instance (src/process/execution_processor.go).
use atom_engine.Base.{
  ◌≡◌, inl, inr, sym, ap, ◌∙◌, String, Bool, true, false, Option, none, some, Dict, lookup, insert,
  lookup-insert, IsDict, IsDict-insert, str_eq, Bool-cases,
}
use atom_engine.Token.{Token, TokenState, Value, is_completed, set_state, merge_variables}
use atom_engine.Engine.{
  Engine, ExecutionResult, ProcessInstance, InstanceState, call, cancel_boundary_timers,
  tokens_where, is_in_instance, set_instance_state,
}
use atom_engine.Engine.Storage.{save_token-works}
use atom_engine.Engine.Processor.{
  Env, Outcome, all_completed, check_process_completion, complete_instance, done, complete_token,
  process_execution_result, settle_token, merge_result,
}
use atom_engine.Engine.Completion.{
  all_completed-all, check_process_completion-all, complete_instance-marks,
}

abbrev pub OthersCompleted : Token → Engine → Type 0
OthersCompleted token s =
    (k : String) (t : Token)
    → str_eq token.token_id k ≡ false
    → lookup k s.tokens ≡ some t
    → str_eq t.process_instance_id token.process_instance_id ≡ true
    → is_completed t ≡ true

-- The store after the completed token is saved and its timers are canceled.
abbrev saved_state : Env → Token → Engine → Engine
saved_state e token s =
    let t = set_state e.now TokenState.completed token in
    call (cancel_boundary_timers token.token_id)
      (record s { tokens = insert t.token_id t s.tokens })

complete_token-saves :
    (e : Env) (token : Token) (s : Engine)
    → s.token_write_fails ≡ false
    → let after =
        check_process_completion e.now token.process_instance_id (saved_state e token s) in
      ((complete_token e token s).engine ≡ after.0) × ((complete_token e token s).answer ≡ after.1)
unfolding complete_token set_state
complete_token-saves e token s writes =
    let w = save_token-works s (set_state e.now TokenState.completed token) writes in
    (simp (complete_token, w), simp (complete_token, w))

abbrev pub completed_or : Option Token → Bool
completed_or none = true
completed_or (some t) = is_completed t

saved_state-completed :
    (e : Env) (token : Token) (s : Engine)
    → IsDict s.tokens
    → OthersCompleted token s
    → all_completed
        (tokens_where (is_in_instance token.process_instance_id) (saved_state e token s).tokens)
      ≡ true
unfolding set_state is_completed
saved_state-completed e token s u others =
    all_completed-all (is_in_instance token.process_instance_id) (saved_state e token s).tokens
      (IsDict-insert token.token_id _ s.tokens u)
      (λ k t found mine. elim (Bool-cases (str_eq token.token_id k)) [
        | inl y ↦ ap completed_or (sym (rw y at rw lookup-insert at found))
        | inr n ↦ others k t n (rw n at rw lookup-insert at found) mine
      ])

module _ (e : Env) (s : Engine) (p : ProcessInstance) (token_reads : s.token_read_fails ≡ false)
    (token_writes : s.token_write_fails ≡ false) (reads : s.instance_read_fails ≡ false)
    (writes : s.instance_write_fails ≡ false) (found : lookup p.instance_id s.instances ≡ some p)
    (unique : IsDict s.tokens) where
  abbrev Completes : Outcome → Type 0
  Completes o =
      (lookup p.instance_id o.engine.instances
        ≡ some (set_instance_state e.now InstanceState.completed p))
      × (o.answer ≡ done)

  complete_token-Completes :
      (token : Token)
      → token.process_instance_id ≡ p.instance_id
      → OthersCompleted token s
      → Completes (complete_token e token s)
  complete_token-Completes token own others =
      let (same, answers) = complete_token-saves e token s token_writes in
      let check =
        check_process_completion-all e.now token.process_instance_id (saved_state e token s)
          token_reads (saved_state-completed e token s unique others) in
      let left = complete_instance e.now token.process_instance_id (saved_state e token s) in
      let (marks, answer) =
        complete_instance-marks e.now token.process_instance_id (saved_state e token s) p reads
          writes (rw own found) (sym own) in
      (
        ap (λ o. lookup p.instance_id o.instances) same
            ∙ ap (λ r. lookup p.instance_id r.0.instances) check
            ∙ ap (λ id. lookup id left.0.instances) (sym own)
            ∙ marks,
        answers ∙ ap (λ r. r.1) check ∙ answer,
      )

  merged-Completes :
      (variables : Option (Dict Value)) (token : Token)
      → token.process_instance_id ≡ p.instance_id
      → OthersCompleted token s
      → Completes (complete_token e (merge_result e.now variables token) s)
  unfolding merge_variables
  merged-Completes none token own others = complete_token-Completes token own others
  merged-Completes (some variables) token own others =
      complete_token-Completes (merge_variables e.now variables token) own others

  -- Where the database works: a result that completes its token, waits for nothing and asks for no
  -- timer completes the instance of the token, as soon as the other tokens of the instance in the
  -- store are completed, canceled or failed. No id stands twice in the store of the tokens.
  pub process_execution_result-last :
      (token : Token) (result : ExecutionResult) (elements : Dict Value)
      → result.timer_request ≡ none
      → result.waiting_for ≡ ""
      → result.completed ≡ true
      → token.process_instance_id ≡ p.instance_id
      → OthersCompleted token s
      → (lookup p.instance_id (process_execution_result e token result elements s).engine.instances
          ≡ some (set_instance_state e.now InstanceState.completed p))
        × ((process_execution_result e token result elements s).answer ≡ done)
  unfolding process_execution_result settle_token
  process_execution_result-last token result elements timer waits completes own others =
      let direct : process_execution_result e token result elements s
          ≡ complete_token e (merge_result e.now result.variables token) s =
        simp (process_execution_result, settle_token, timer, waits, completes) in
      rw direct (merged-Completes result.variables token own others)
