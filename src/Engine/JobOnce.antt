-- ===== src/Engine/JobOnce.antt =====
-- The callback of a job is taken once (src/process/job_callbacks.go), with the executions that it
-- ends with.
use atom_engine.Base.{
  ℕ, ◌≡◌, refl, sym, ap, subst, ◌∙◌, String, true, false, not, ◌&&◌, Option, none, some, List, [],
  ◌∷◌, Dict, lookup, lookup-insert_self, str_eq, Bool-cases, Option-cases, inl, inr,
}
use atom_engine.Token.{Token, TokenState, Value, is_waiting, set_state}
use atom_engine.Engine.{Engine}
use atom_engine.Engine.Awaits.{IsFree}
use atom_engine.Engine.Boundaries.{
  ErrorBoundary, find_matching_error_boundary, remove_error_boundaries_for_token,
}
use atom_engine.Engine.Callbacks.{load_and_validate_token}
use atom_engine.Engine.Chain.{executed_job, job_chain}
use atom_engine.Engine.Execution.{Executor}
use atom_engine.Engine.Executions.{NoneAsks}
use atom_engine.Engine.JobCallbacks.{
  JobAnswer, JobCallbacks, JobEngine, activate_error_boundary_flow, catch_failure, continued,
  create_job_failure_incident, done, extract_bpmn_error_code, handle_job_callback,
  handle_job_failure, job_failed, job_wait, saved_or_same, token_not_loaded, token_not_waiting,
  with_saved,
}
use atom_engine.Engine.Processor.{Env}
use atom_engine.Engine.Resumed.{
  IsIdleCallback, awaits-waits, executed-IsFree, load_and_validate_token-IsFree,
  process_callback_and_continue-IsFree,
}
use atom_engine.Engine.Settled.{saved, waits}
use atom_engine.Engine.Storage.{save_token-works}

-- Every boundary of the token interrupts it.
abbrev pub AllInterrupt : String → Dict (List ErrorBoundary) → Type 0
AllInterrupt id d =
    (code : String) (b : ErrorBoundary)
    → find_matching_error_boundary id code d ≡ some b
    → b.cancel_activity ≡ true

module _ (wait : String) where
  abbrev pub IsIdleJob : JobAnswer → Type 0
  IsIdleJob (continued a) = IsIdleCallback wait a
  IsIdleJob done = Unit
  IsIdleJob token_not_loaded = Unit
  IsIdleJob token_not_waiting = Unit
  IsIdleJob job_failed = Unit

module _ (upper show_number from_message : String → String) (wait id : String) where
  abbrev pub IsFreeJob : JobCallbacks → Type 0
  IsFreeJob c = IsFree wait id c.state.engine × IsIdleJob wait c.answer

  -- A token of the id that is saved and does not wait.
  saved_or_same-IsFree :
      (t : Token) (s : Engine)
      → s.token_write_fails ≡ false
      → t.token_id ≡ id
      → is_waiting t ≡ false
      → IsFree wait id (saved_or_same t s)
  saved_or_same-IsFree t s works own idle =
      subst (IsFree wait id)
        (sym (ap (λ o. elim o [ none ↦ s | some s' ↦ s' ]) (save_token-works s t works)))
        (awaits-waits wait (lookup id (saved t s).tokens) (
          ap waits (
            subst (λ k. lookup k (saved t s).tokens ≡ some t) own
              (lookup-insert_self t.token_id t s.tokens))
          ∙ idle))

  saved_or_same-works :
      (t : Token) (s : Engine)
      → s.token_write_fails ≡ false
      → (saved_or_same t s).token_write_fails ≡ false
  saved_or_same-works t s works =
      subst (λ o. (elim o as (λ x. Engine) [ none ↦ s | some s' ↦ s' ]).token_write_fails ≡ false)
        (sym (save_token-works s t works)) works

  module _ (e : Env) (definitions : Dict (Dict Value)) where
    activate_error_boundary_flow-IsFree :
        (t : Token) (b : ErrorBoundary) (variables : Option (Dict Value)) (s : JobEngine)
        → s.engine.token_write_fails ≡ false
        → t.token_id ≡ id
        → IsFree wait id s.engine
        → IsFreeJob (
            activate_error_boundary_flow upper show_number from_message e definitions t b variables
              s)
    unfolding activate_error_boundary_flow
    activate_error_boundary_flow-IsFree t b variables s works own free = after b.outgoing_flows
      where
        after :
            (flows : List String)
            → IsFreeJob (
                activate_error_boundary_flow upper show_number from_message e definitions t
                  (record b { outgoing_flows = flows })
                  variables
                  s)
        after [] = (free, tt)
        after (flow ∷ rest) =
            process_callback_and_continue-IsFree wait id e definitions t b.element_id variables
              s.engine works own

    catch_failure-IsFree :
        (t : Token) (b : ErrorBoundary) (variables : Option (Dict Value)) (s : JobEngine)
        → s.engine.token_write_fails ≡ false
        → t.token_id ≡ id
        → b.cancel_activity ≡ true
        → IsFreeJob (catch_failure upper show_number from_message e definitions t b variables s)
    unfolding catch_failure set_state is_waiting
    catch_failure-IsFree t b variables s works own interrupts =
        let canceled_token = set_state e.now TokenState.canceled t in
        let unregistered = record s {
          boundaries = remove_error_boundaries_for_token t.token_id s.boundaries;
        } in
        simp (catch_failure, interrupts)
          (activate_error_boundary_flow-IsFree canceled_token b variables
            (with_saved canceled_token unregistered)
            (saved_or_same-works canceled_token s.engine works) own
            (saved_or_same-IsFree canceled_token s.engine works own refl))

    handle_job_failure-IsFree :
        (t : Token) (job_id element_id message : String) (variables : Option (Dict Value))
        (s : JobEngine)
        → s.engine.token_write_fails ≡ false
        → t.token_id ≡ id
        → AllInterrupt id s.boundaries
        → IsFreeJob (
            handle_job_failure upper show_number from_message e definitions t job_id element_id
              message variables s)
    unfolding handle_job_failure create_job_failure_incident set_state is_waiting
    handle_job_failure-IsFree t job_id element_id message variables s works own all =
        let code = extract_bpmn_error_code upper show_number from_message variables message in
        let failed_token = set_state e.now TokenState.failed t in
        let settled = saved_or_same-IsFree failed_token s.engine works own refl in
        elim (Option-cases (find_matching_error_boundary t.token_id code s.boundaries)) [
          | inr (b, found) ↦
              simp (handle_job_failure, found)
                (catch_failure-IsFree t b variables s works own (
                  all code b
                    (ap (λ k. find_matching_error_boundary k code s.boundaries) (sym own) ∙ found)))
          | inl missing ↦
              simp (handle_job_failure, missing)
                (elim (Bool-cases s.has_incidents) [
                  | inl y ↦ rw y (settled, tt)
                  | inr n ↦ rw n (settled, tt)
                ])
        ]

    handle_job_callback-IsFree :
        (t : Token) (job_id element_id status message : String) (variables : Option (Dict Value))
        (s : JobEngine)
        → str_eq status "ERROR_THROWN" ≡ false
        → s.engine.token_write_fails ≡ false
        → t.token_id ≡ id
        → AllInterrupt id s.boundaries
        → load_and_validate_token id (job_wait job_id) s.engine ≡ some t
        → IsFreeJob (
            handle_job_callback upper show_number from_message e definitions job_id element_id id
              status message variables s)
    unfolding handle_job_callback
    handle_job_callback-IsFree t job_id element_id status message variables s other works own all
          accepted =
        elim (Bool-cases (str_eq status "FAILED" && not (str_eq message ""))) [
          | inl y ↦
              simp (handle_job_callback, other, accepted, y)
                (handle_job_failure-IsFree t job_id element_id message variables s works own all)
          | inr n ↦
              simp (handle_job_callback, other, accepted, n)
                (process_callback_and_continue-IsFree wait id e definitions t element_id variables
                  s.engine works own)
        ]

module _ (executors : String → Value → Option Executor) (e : Env) (definitions : Dict (Dict Value))
    (wait id : String) where
  executed_job-IsFree :
      (n : ℕ) (a : JobAnswer) (s : JobEngine)
      → NoneAsks wait id executors
      → IsFree wait id s.engine
      → IsIdleJob wait a
      → IsFree wait id (job_chain executors e definitions n a s).engine
  executed_job-IsFree n (continued a) s none_asks free next =
      executed-IsFree wait id executors e definitions n a s.engine none_asks free next
  executed_job-IsFree n done s none_asks free next = free
  executed_job-IsFree n token_not_loaded s none_asks free next = free
  executed_job-IsFree n token_not_waiting s none_asks free next = free
  executed_job-IsFree n job_failed s none_asks free next = free

-- Once a callback of a job, other than for a thrown error, has been accepted for a token, and the
-- token has been executed at as many of the elements that follow as one likes, a further callback of
-- the job for the token, other than for a thrown error, is rejected and changes nothing, as long as
-- nothing else changes the state, and no executor makes a token wait for that job; they may make it
-- wait for another. Writes work at the callback, the token stands in the store under its own
-- id, every boundary event that may catch an error of it interrupts it, and the executions may fail.
pub handle_job_callback-once :
    (upper show_number from_message : String → String)
    (executors : String → Value → Option Executor) (e later : Env)
    (definitions definitions' : Dict (Dict Value)) (n : ℕ)
    (job_id element_id element_id' status status' message message' : String)
    (variables variables' : Option (Dict Value)) (t : Token) (s : JobEngine)
    → NoneAsks (job_wait job_id) t.token_id executors
    → str_eq status "ERROR_THROWN" ≡ false
    → str_eq status' "ERROR_THROWN" ≡ false
    → s.engine.token_write_fails ≡ false
    → AllInterrupt t.token_id s.boundaries
    → load_and_validate_token t.token_id (job_wait job_id) s.engine ≡ some t
    → let s' = executed_job executors e definitions n (
        handle_job_callback upper show_number from_message e definitions job_id element_id
          t.token_id status message variables s) in
      handle_job_callback upper show_number from_message later definitions' job_id element_id'
        t.token_id status' message' variables' s'
      ≡ record { state = s'; answer = token_not_waiting }
unfolding handle_job_callback
handle_job_callback-once upper show_number from_message executors e later definitions definitions' n
      job_id element_id element_id' status status' message message' variables variables' t s
      none_asks other other' works all accepted =
    let id = t.token_id in
    let wait = job_wait job_id in
    let first =
      handle_job_callback upper show_number from_message e definitions job_id element_id id status
        message variables s in
    let (free, next) =
      handle_job_callback-IsFree upper show_number from_message wait id e definitions t job_id
        element_id status message variables s other works refl all accepted in
    simp (
      handle_job_callback,
      other',
      load_and_validate_token-IsFree wait id (executed_job executors e definitions n first).engine (
          executed_job-IsFree executors e definitions wait id n first.answer first.state none_asks
            free next),
    )
