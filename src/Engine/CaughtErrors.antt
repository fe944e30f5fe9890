-- ===== src/Engine/CaughtErrors.antt =====
-- What a caught error leaves (handleJobBPMNError of src/process/job_callbacks.go).
use atom_engine.Base.{
  ◌≡◌, ◌≢◌, refl, sym, ap, subst, ◌∙◌, String, true, false, none, some, List, [], ◌∷◌, ◌++◌, Dict,
  lookup, insert, merge, lookup-insert_self, lookup-insert_ne, lookup-insert, lookup-merge,
  lookup-remove_self, or_else, str_eq, if◌then◌else◌, Bool-cases, inl, inr,
}
use atom_engine.Token.{
  Token, TokenState, Value, clear_waiting_for, merge_variables, move_to, set_state, set_variables,
}
use atom_engine.Engine.{Engine, call, cancel_boundary_timers, load_token}
use atom_engine.Engine.Boundaries.{
  ErrorBoundary, find_matching_error_boundary, remove_error_boundaries_for_token,
}
use atom_engine.Engine.Callbacks.{
  get_element_outgoing_flows, move_along, move_from, moved, process_callback_and_continue, reject,
  save_failed, moved_by,
}
use atom_engine.Engine.Elements.{is_activity_element, target_elements}
use atom_engine.Engine.JobCallbacks.{
  JobCallbacks, JobEngine, complete_job_with_bpmn_error, continued, continued_by, error_thrown,
  error_variables, handle_job_callback, text_or, thrown_code, thrown_token, with_saved,
}
use atom_engine.Engine.JobErrors.{caught, handle_job_callback-caught}
use atom_engine.Engine.Processor.{
  Env, executes, leave_activity, move_to_targets, move_token_to_next_elements,
}
use atom_engine.Engine.Settled.{saved}
use atom_engine.Engine.Steps.{update_and-works}
use atom_engine.Engine.Storage.{save_token-works}

module _ (e : Env) (definitions : Dict (Dict Value)) where
  leave_activity-tokens :
      (t : Token) (elements : Dict Value) (s : Engine)
      → ((leave_activity t elements s).tokens ≡ s.tokens)
        × ((leave_activity t elements s).token_write_fails ≡ s.token_write_fails)
  unfolding leave_activity
  leave_activity-tokens t elements s =
      elim (Bool-cases (is_activity_element t.current_element_id elements)) [
        | inl y ↦ rw y (refl, refl)
        | inr n ↦ rw n (refl, refl)
      ]

  move_from-one :
      (t : Token) (element_id target : String) (elements : Dict Value) (flow : String)
      (flows : List String) (s : Engine)
      → s.token_write_fails ≡ false
      → lookup t.process_key definitions ≡ some elements
      → get_element_outgoing_flows (lookup element_id elements) ≡ some (flow ∷ flows)
      → target_elements (flow ∷ flows) elements ≡ target ∷ []
      → let sent = move_to e.now target t in
        move_from e definitions t element_id s ≡ record {
          engine = saved sent (leave_activity t elements s);
          answer = moved (executes sent);
        }
  unfolding move_from move_along move_token_to_next_elements move_to_targets
  move_from-one t element_id target elements flow flows s works found outgoing targets =
      let sent = move_to e.now target t in
      rw (found, outgoing, move_from)
        (ap (λ l. moved_by (move_to_targets e t l (leave_activity t elements s))) targets
          ∙ ap moved_by (
              update_and-works (executes sent) sent (leave_activity t elements s)
                ((leave_activity-tokens t elements s).1 ∙ works)))

  process_callback_and_continue-one :
      (t : Token) (target : String) (elements variables : Dict Value) (flow : String)
      (flows : List String) (s : Engine)
      → s.token_write_fails ≡ false
      → str_eq t.current_element_id "" ≡ false
      → lookup t.process_key definitions ≡ some elements
      → get_element_outgoing_flows (lookup t.current_element_id elements) ≡ some (flow ∷ flows)
      → target_elements (flow ∷ flows) elements ≡ target ∷ []
      → let resumed = merge_variables e.now variables (clear_waiting_for e.now t) in
        let sent = move_to e.now target resumed in
        process_callback_and_continue e definitions t t.current_element_id (some variables) s
        ≡ record {
          engine = saved sent (
              leave_activity resumed elements
                (saved resumed (call (cancel_boundary_timers t.token_id) s)));
          answer = moved (executes sent);
        }
  unfolding process_callback_and_continue merge_variables clear_waiting_for
  process_callback_and_continue-one t target elements variables flow flows s works placed found
        outgoing targets =
      let resumed = merge_variables e.now variables (clear_waiting_for e.now t) in
      let called = call (cancel_boundary_timers t.token_id) s in
      let current = t.current_element_id in
      ap
        (λ o. elim o [
          | none ↦ reject save_failed called
          | some s' ↦
              move_from e definitions resumed (if str_eq current "" then current else current) s'
        ])
        (save_token-works called resumed works)
      ∙ ap
          (λ b.
            move_from e definitions resumed (if b then current else current) (saved resumed called))
          placed
      ∙ move_from-one resumed current target elements flow flows (saved resumed called) works found
          outgoing targets

-- What a caught error leaves: the token, canceled, stands at the target with the code and the
-- message, and is executed there; the job is closed with the error; the boundaries are gone.
pub record CaughtBy (job_id code message target : String) (t : Token) (s : JobEngine)
    (c : JobCallbacks) : Type 0 where
  pub token : Token
  pub answer : c.answer ≡ continued (moved (executes token))
  pub own : lookup t.token_id c.state.engine.tokens ≡ some token
  pub placed : token.current_element_id ≡ target
  pub canceled : token.state ≡ TokenState.canceled
  pub with_code : lookup "errorCode" token.variables ≡ some (Value.text code)
  pub with_message : lookup "errorMessage" token.variables ≡ some (Value.text message)
  pub others :
      (k : String) → t.token_id ≢ k → lookup k c.state.engine.tokens ≡ lookup k s.engine.tokens
  pub unregistered : lookup t.token_id c.state.boundaries ≡ none
  pub closed : c.state.reports ≡ s.reports ++ error_thrown job_id code message ∷ []

module _ (upper show_number from_message : String → String) (e : Env)
    (definitions : Dict (Dict Value)) where
  -- The state when the canceled token goes on.
  abbrev ended_state : Token → String → String → String → Dict Value → JobEngine → JobEngine
  ended_state t job_id code message variables s = record s {
    engine = saved (thrown_token e (some variables) t) s.engine;
    boundaries = remove_error_boundaries_for_token t.token_id s.boundaries;
    reports = s.reports ++ error_thrown job_id code message ∷ [];
  }

  caught-works :
      (t : Token) (job_id code message : String) (variables : Dict Value) (s : JobEngine)
      → s.engine.token_write_fails ≡ false
      → s.has_jobs ≡ true
      → thrown_code (some variables) ≡ code
      → caught upper show_number from_message e definitions t job_id message (some variables) s
        ≡ ended_state t job_id code message variables s
  unfolding complete_job_with_bpmn_error
  caught-works t job_id code message variables s works jobs thrown =
      let ended = thrown_token e (some variables) t in
      let gone : JobEngine = record s {
        boundaries = remove_error_boundaries_for_token t.token_id s.boundaries;
      } in
      ap (λ x. with_saved ended (complete_job_with_bpmn_error job_id x message gone)) thrown
      ∙ ap
          (λ b. with_saved ended (
            if b
            then record gone { reports = s.reports ++ error_thrown job_id code message ∷ [] }
            else gone))
          jobs
      ∙ ap
          (λ o. record gone {
            engine = elim o [ none ↦ s.engine | some s' ↦ s' ];
            reports = s.reports ++ error_thrown job_id code message ∷ [];
          })
          (save_token-works s.engine ended works)

  -- The token at the target.
  abbrev resumed_token : Token → String → String → Dict Value → Token
  resumed_token t code message variables =
      merge_variables e.now (error_variables code message (some variables))
        (clear_waiting_for e.now (thrown_token e (some variables) t))

  sent-CaughtBy :
      (t : Token) (job_id code message target : String) (elements variables : Dict Value)
      (s : JobEngine)
      → let resumed = resumed_token t code message variables in
        let sent = move_to e.now target resumed in
        let s' = ended_state t job_id code message variables s in
        CaughtBy job_id code message target t s (
          continued_by
            (record {
              engine = saved sent (
                  leave_activity resumed elements
                    (saved resumed (call (cancel_boundary_timers t.token_id) s'.engine)));
              answer = moved (executes sent);
            })
            s')
  unfolding move_to merge_variables clear_waiting_for set_variables set_state
      remove_error_boundaries_for_token
  sent-CaughtBy t job_id code message target elements variables s =
      let resumed = resumed_token t code message variables in
      let sent = move_to e.now target resumed in
      let s' = ended_state t job_id code message variables s in
      let before = saved resumed (call (cancel_boundary_timers t.token_id) s'.engine) in
      let kept = (leave_activity-tokens e definitions resumed elements before).0 in
      let extra = error_variables code message (some variables) in
      let had = merge variables t.variables in
      record {
        token = sent;
        answer = refl;
        own = lookup-insert_self t.token_id sent (leave_activity resumed elements before).tokens;
        placed = refl;
        canceled = refl;
        with_code =
            lookup-merge "errorCode" extra had
            ∙ ap (λ o. or_else o (lookup "errorCode" had))
                (lookup-insert "errorMessage" "errorCode" (Value.text message)
                    (insert "errorCode" (Value.text code) variables)
                  ∙ lookup-insert_self "errorCode" (Value.text code) variables);
        with_message =
            lookup-merge "errorMessage" extra had
            ∙ ap (λ o. or_else o (lookup "errorMessage" had))
                (lookup-insert_self "errorMessage" (Value.text message)
                  (insert "errorCode" (Value.text code) variables));
        others = λ k other.
            lookup-insert_ne t.token_id k sent (leave_activity resumed elements before).tokens other
            ∙ ap (lookup k) kept
            ∙ lookup-insert_ne t.token_id k resumed s'.engine.tokens other
            ∙ lookup-insert_ne t.token_id k (thrown_token e (some variables) t) s.engine.tokens
                other;
        unregistered = lookup-remove_self t.token_id s.boundaries;
        closed = refl;
      }

  -- An error with a code, thrown by a job, that a boundary event with flows catches cancels the
  -- token, and then sends it from the element of the job, and not from the boundary event, to the
  -- target of its flows, with the code and the message as variables, to be executed there. The job is
  -- closed with the error, the boundaries of the token are gone, and no other token changes. Writes
  -- work, the jobs component can be reached, the token can be loaded, and the flows out of the
  -- element of the job have one target.
  pub handle_job_callback-CaughtBy :
      (job_id element_id code message target boundary_flow flow : String)
      (boundary_flows flows : List String) (elements variables : Dict Value) (t : Token)
      (b : ErrorBoundary) (s : JobEngine)
      → s.engine.token_write_fails ≡ false
      → s.has_jobs ≡ true
      → load_token t.token_id s.engine ≡ some t
      → lookup "errorCode" variables ≡ some (Value.text code)
      → find_matching_error_boundary t.token_id code s.boundaries ≡ some b
      → b.outgoing_flows ≡ boundary_flow ∷ boundary_flows
      → str_eq t.current_element_id "" ≡ false
      → lookup t.process_key definitions ≡ some elements
      → get_element_outgoing_flows (lookup t.current_element_id elements) ≡ some (flow ∷ flows)
      → target_elements (flow ∷ flows) elements ≡ target ∷ []
      → CaughtBy job_id code message target t s (
          handle_job_callback upper show_number from_message e definitions job_id element_id
            t.token_id "ERROR_THROWN" message
            (some variables)
            s)
  unfolding set_variables set_state
  handle_job_callback-CaughtBy job_id element_id code message target boundary_flow flow
        boundary_flows flows elements variables t b s works jobs loaded given found catches placed
        process outgoing targets =
      let ended = thrown_token e (some variables) t in
      let thrown : thrown_code (some variables) ≡ code = ap (text_or "GENERAL_ERROR") given in
      let s' = ended_state t job_id code message variables s in
      subst (CaughtBy job_id code message target t s)
        (sym (
          handle_job_callback-caught upper show_number from_message e definitions job_id element_id
            message boundary_flow boundary_flows (some variables) t b s loaded
            (ap (λ x. find_matching_error_boundary t.token_id x s.boundaries) thrown ∙ found)
            catches placed
          ∙ ap
              (λ x.
                continued_by
                  (process_callback_and_continue e definitions ended t.current_element_id
                    (some (error_variables x message (some variables)))
                    (caught upper show_number from_message e definitions t job_id message
                      (some variables) s).engine)
                  (caught upper show_number from_message e definitions t job_id message
                    (some variables) s))
              thrown
          ∙ ap
              (λ x.
                continued_by
                  (process_callback_and_continue e definitions ended t.current_element_id
                    (some (error_variables code message (some variables))) x.engine)
                  x)
              (caught-works t job_id code message variables s works jobs thrown)
          ∙ ap (λ c. continued_by c s')
              (process_callback_and_continue-one e definitions ended target elements
                (error_variables code message (some variables)) flow flows s'.engine works placed
                process outgoing targets)))
        (sent-CaughtBy t job_id code message target elements variables s)
