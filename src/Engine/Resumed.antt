-- ===== src/Engine/Resumed.antt =====
-- A wait that a token has had, over the helper of all callbacks (src/process/callback_helper.go) and
-- the movement of a token (src/process/token_movement.go).
use atom_engine.Base.{
  ℕ, ◌≡◌, sym, ◌∙◌, Bool-cases, ap, String, false, Option, none, some, List, [], ◌∷◌, Dict, lookup,
  insert, str_eq, Option-cases, inl, inr, if◌then◌else◌,
}
use atom_engine.Token.{Token, TokenState, Value, clear_waiting_for, set_state}
use atom_engine.Engine.{Engine, call, cancel_boundary_timers, load_token}
use atom_engine.Engine.Awaits.{
  IsFree, IsFreeOutcome, IsIdle, IsIdle-idle, IsIdleAnswer, awaits,
  move_token_to_next_elements-IsFree, update_and-IsFree,
}
use atom_engine.Engine.Callbacks.{
  Callback, CallbackAnswer, complete_moved_token, get_element_outgoing_flows,
  load_and_validate_token, move_along, move_from, moved, process_callback_and_continue, rejected,
}
use atom_engine.Engine.Chain.{chain_of}
use atom_engine.Engine.Execution.{Executor}
use atom_engine.Engine.Executions.{NoneAsks, execute_chain-IsFree}
use atom_engine.Engine.Processor.{Env, done, merge_result}
use atom_engine.Engine.Settled.{completed_idle, resumed_idle, resumed_settled, saved, waits}
use atom_engine.Engine.Storage.{save_token-works}

module _ (wait : String) where
  pub awaits-waits : (o : Option Token) → waits o ≡ false → awaits wait o ≡ false
  awaits-waits none idle = idle
  awaits-waits (some t) idle = IsIdle-idle wait t idle

  abbrev pub IsIdleCallback : CallbackAnswer → Type 0
  IsIdleCallback (rejected r) = Unit
  IsIdleCallback (moved a) = IsIdleAnswer wait a

module _ (wait id : String) where
  abbrev pub IsFreeCallback : Callback → Type 0
  IsFreeCallback c = IsFree wait id c.engine × IsIdleCallback wait c.answer

  move_along-IsFree :
      (e : Env) (t : Token) (flows : List String) (elements : Dict Value) (s : Engine)
      → IsIdle wait t
      → IsFree wait id s
      → IsFreeOutcome wait id (move_along e t flows elements s)
  unfolding move_along complete_moved_token
  move_along-IsFree e t [] elements s idle free =
      update_and-IsFree wait id done (set_state e.now TokenState.completed t)
        (call (cancel_boundary_timers t.token_id) s)
        (IsIdle-idle wait (set_state e.now TokenState.completed t) (completed_idle e t)) tt free
  move_along-IsFree e t (flow ∷ rest) elements s idle free =
      move_token_to_next_elements-IsFree wait id e t (flow ∷ rest) elements s idle free

  move_from-IsFree :
      (e : Env) (definitions : Dict (Dict Value)) (t : Token) (element_id : String) (s : Engine)
      → IsIdle wait t
      → IsFree wait id s
      → IsFreeCallback (move_from e definitions t element_id s)
  unfolding move_from
  move_from-IsFree e definitions t element_id s idle free =
      elim (Option-cases (lookup t.process_key definitions)) [
        | inl missing ↦ rw (move_from, missing) (free, tt)
        | inr (elements, found) ↦
            rw (move_from, found)
              (elim (Option-cases (get_element_outgoing_flows (lookup element_id elements))) [
                | inl none_there ↦ rw none_there (free, tt)
                | inr (flows, at) ↦ rw at (move_along-IsFree e t flows elements s idle free)
              ])
      ]

  -- A callback that is accepted resumes the token, which does not wait for anything thereafter.
  pub process_callback_and_continue-IsFree :
      (e : Env) (definitions : Dict (Dict Value)) (t : Token) (element_id : String)
      (variables : Option (Dict Value)) (s : Engine)
      → s.token_write_fails ≡ false
      → t.token_id ≡ id
      → IsFreeCallback (process_callback_and_continue e definitions t element_id variables s)
  unfolding process_callback_and_continue
  process_callback_and_continue-IsFree e definitions t element_id variables s works own =
      let resumed = merge_result e.now variables (clear_waiting_for e.now t) in
      let called = call (cancel_boundary_timers t.token_id) s in
      let current = resumed.current_element_id in
      rw (process_callback_and_continue, save_token-works called resumed works)
        (move_from-IsFree e definitions resumed (if str_eq current "" then element_id else current)
          (saved resumed called) (IsIdle-idle wait resumed (resumed_idle e t variables))
          (awaits-waits wait (lookup id (insert resumed.token_id resumed s.tokens))
            (resumed_settled e t variables s.tokens id own)))

  pub executed-IsFree :
      (executors : String → Value → Option Executor) (e : Env) (definitions : Dict (Dict Value))
      (n : ℕ) (a : CallbackAnswer) (s : Engine)
      → NoneAsks wait id executors
      → IsFree wait id s
      → IsIdleCallback wait a
      → IsFree wait id (chain_of executors e definitions n a s)
  executed-IsFree executors e definitions n (rejected r) s none_asks free next = free
  executed-IsFree executors e definitions n (moved a) s none_asks free next =
      execute_chain-IsFree wait id executors none_asks e definitions n a s next free

  pub load_and_validate_token-IsFree :
      (s : Engine) → IsFree wait id s → load_and_validate_token id wait s ≡ none
  unfolding load_and_validate_token load_token
  load_and_validate_token-IsFree s free = elim (Bool-cases s.token_read_fails) [
    | inl fails ↦ simp (load_and_validate_token, load_token, fails)
    | inr reads ↦ elim (Option-cases (lookup id s.tokens)) [
      | inl missing ↦ simp (load_and_validate_token, load_token, reads, missing)
      | inr (t, found) ↦
          simp
            (load_and_validate_token, load_token, reads, found, sym (ap (awaits wait) found) ∙ free)
    ]
  ]
