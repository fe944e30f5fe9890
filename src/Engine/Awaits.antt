-- ===== src/Engine/Awaits.antt =====
-- A wait that a token does not have, over the execution processor
-- (src/process/execution_processor.go).
use atom_engine.Base.{
  ℕ, suc, ◌≡◌, ap, ◌∙◌, String, Bool, false, ◌&&◌, Option, none, some, List, [], ◌∷◌, Dict, lookup,
  insert, lookup-insert, str_eq, Bool-cases, if_cases, inl, inr, if◌then◌else◌,
}
use atom_engine.Token.{
  Token, TokenState, Value, clear_waiting_for, is_waiting, merge_variables, move_to, set_state,
}
use atom_engine.Engine.{Engine, call, execute_async, save_token}
use atom_engine.Engine.Callbacks.{waits_for}
use atom_engine.Engine.Elements.{is_activity_element, target_elements}
use atom_engine.Engine.Forks.{fork_child}
use atom_engine.Engine.Processor.{
  Answer, Env, Outcome, done, error, executes, fork_tokens, leave_activity, merge_result,
  move_to_targets, move_token_to_next_elements, update_and,
}
use atom_engine.Engine.Settled.{child_idle, cleared_idle, completed_idle}

module _ (wait : String) where
  abbrev pub IsIdle : Token → Type 0
  IsIdle t = waits_for wait t ≡ false

  abbrev pub IsIdleAnswer : Answer → Type 0
  IsIdleAnswer (executes t) = IsIdle t
  IsIdleAnswer done = Unit
  IsIdleAnswer (error x) = Unit

  pub IsIdle-idle : (t : Token) → is_waiting t ≡ false → IsIdle t
  IsIdle-idle t idle = ap (λ b. b && str_eq t.waiting_for wait) idle

  pub IsIdle-cleared : (e : Env) (t : Token) → IsIdle (clear_waiting_for e.now t)
  IsIdle-cleared e t = IsIdle-idle (clear_waiting_for e.now t) (cleared_idle e t)

  pub IsIdle-merged :
      (e : Env) (variables : Option (Dict Value)) (t : Token)
      → IsIdle t
      → IsIdle (merge_result e.now variables t)
  unfolding merge_variables is_waiting
  IsIdle-merged e none t idle = idle
  IsIdle-merged e (some variables) t idle = idle

  pub IsIdle-moved :
      (e : Env) (target : String) (t : Token) → IsIdle t → IsIdle (move_to e.now target t)
  unfolding move_to is_waiting
  IsIdle-moved e target t idle = idle

  abbrev pub awaits : Option Token → Bool
  awaits none = false
  awaits (some t) = waits_for wait t

module _ (wait id : String) where
  -- The token of the id does not wait so.
  abbrev pub IsFree : Engine → Type 0
  IsFree s = awaits wait (lookup id s.tokens) ≡ false

  abbrev pub IsFreeOutcome : Outcome → Type 0
  IsFreeOutcome o = IsFree o.engine × IsIdleAnswer wait o.answer

  abbrev pub IsFreePair : Engine × Answer → Type 0
  IsFreePair o = IsFree o.0 × IsIdleAnswer wait o.1

  insert-IsFree :
      (t : Token) (tokens : Dict Token)
      → IsIdle wait t
      → awaits wait (lookup id tokens) ≡ false
      → awaits wait (lookup id (insert t.token_id t tokens)) ≡ false
  insert-IsFree t tokens idle free =
      ap (awaits wait) (lookup-insert t.token_id id t tokens)
      ∙ elim (Bool-cases (str_eq t.token_id id)) [
        | inl y ↦ ap (λ b. awaits wait (if b then some t else lookup id tokens)) y ∙ idle
        | inr n ↦ ap (λ b. awaits wait (if b then some t else lookup id tokens)) n ∙ free
      ]

  -- A save, in a call that goes on in one way where it fails, and in another where it does not.
  pub save_cases :
      {A : Type 0} (P : A → Type 0) (t : Token) (s : Engine) (failed : A) (went : Engine → A)
      → IsIdle wait t
      → IsFree s
      → P failed
      → ((s' : Engine) → IsFree s' → P (went s'))
      → P (elim (save_token t s) [ none ↦ failed | some s' ↦ went s' ])
  unfolding save_token
  save_cases P t s failed went idle free bad good =
      if_cases (λ (o : Option Engine). P (elim o [ none ↦ failed | some s' ↦ went s' ]))
        s.token_write_fails (λ _. bad)
        (λ _.
          good (record s { tokens = insert t.token_id t s.tokens })
            (insert-IsFree t s.tokens idle free))

  pub update_and-IsFree :
      (answer : Answer) (t : Token) (s : Engine)
      → IsIdle wait t
      → IsIdleAnswer wait answer
      → IsFree s
      → IsFreeOutcome (update_and answer t s)
  unfolding update_and
  update_and-IsFree answer t s idle next free =
      save_cases IsFreeOutcome t s _ (λ s'. record { token = t; engine = s'; answer = answer }) idle
        free (free, tt) (λ s' free'. (free', next))

  fork_tokens-IsFree :
      (e : Env) (i : ℕ) (t : Token) (targets : List String) (s : Engine)
      → is_waiting t ≡ false
      → IsFree s
      → IsFree (fork_tokens e i t targets s)
  unfolding fork_tokens
  fork_tokens-IsFree e i t [] s idle free = free
  fork_tokens-IsFree e i t (target ∷ rest) s idle free =
      let child = fork_child e i t target in
      fork_tokens-IsFree e (suc i) t rest _ idle (
        save_cases IsFree child s s (λ s'. call (execute_async child) s')
          (IsIdle-idle wait child (child_idle e t i target idle)) free free (λ s' free'. free'))

  move_to_targets-IsFree :
      (e : Env) (t : Token) (targets : List String) (s : Engine)
      → IsIdle wait t
      → IsFree s
      → IsFreeOutcome (move_to_targets e t targets s)
  unfolding move_to_targets
  move_to_targets-IsFree e t [] s idle free = (free, tt)
  move_to_targets-IsFree e t (target ∷ []) s idle free =
      let sent = IsIdle-moved wait e target t idle in
      update_and-IsFree (executes (move_to e.now target t)) (move_to e.now target t) s sent sent
        free
  move_to_targets-IsFree e t (first ∷ second ∷ rest) s idle free =
      let original = set_state e.now TokenState.completed t in
      save_cases IsFreeOutcome original s _
        (λ s'. record {
          token = original;
          engine = fork_tokens e 0 original (first ∷ second ∷ rest) s';
          answer = done;
        })
        (IsIdle-idle wait original (completed_idle e t)) free (free, tt)
        (λ s' free'. (
          fork_tokens-IsFree e 0 original (first ∷ second ∷ rest) s' (completed_idle e t) free',
          tt,
        ))

  pub move_token_to_next_elements-IsFree :
      (e : Env) (t : Token) (flows : List String) (elements : Dict Value) (s : Engine)
      → IsIdle wait t
      → IsFree s
      → IsFreeOutcome (move_token_to_next_elements e t flows elements s)
  unfolding move_token_to_next_elements leave_activity
  move_token_to_next_elements-IsFree e t [] elements s idle free = (free, tt)
  move_token_to_next_elements-IsFree e t (flow ∷ rest) elements s idle free =
      move_to_targets-IsFree e t (target_elements (flow ∷ rest) elements) _ idle (
        if_cases IsFree (is_activity_element t.current_element_id elements) (λ _. free) (λ _. free))
