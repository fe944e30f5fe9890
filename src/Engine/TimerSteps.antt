-- ===== src/Engine/TimerSteps.antt =====
-- The way of a token after its timer (src/process/timer_callbacks.go, src/process/callback_helper.go).
use atom_engine.Base.{
  subst, ◌≡◌, ◌≢◌, refl, sym, ap, ◌∙◌, String, true, false, none, some, List, [], ◌∷◌, ◌++◌, Dict,
  lookup, insert, lookup-insert_self, lookup-insert_ne,
}
use atom_engine.Token.{Token, Value, clear_waiting_for, move_to}
use atom_engine.Engine.{Engine, call, cancel_boundary_timers, cancel_event_timers}
use atom_engine.Engine.Callbacks.{
  Callback, get_element_outgoing_flows, load_and_validate_token, moved, no_process, reject,
  save_failed,
}
use atom_engine.Engine.Elements.{target_elements}
use atom_engine.Engine.Processor.{Env, executes}
use atom_engine.Engine.Settled.{saved}
use atom_engine.Engine.Steps.{update_and-works}
use atom_engine.Engine.Storage.{save_token-works}
use atom_engine.Engine.TimerCallbacks.{
  handle_event_timer_callback, handle_timer_callback, move_to_first,
  process_callback_and_continue_with_flows, timer_wait,
}

module _ (e : Env) (definitions : Dict (Dict Value)) (t : Token) (s : Engine) where
  -- The token at its next element.
  abbrev pub sent_to : String → Token
  sent_to target = move_to e.now target (clear_waiting_for e.now t)

  abbrev pub timers_canceled : Engine
  timers_canceled =
      call (cancel_event_timers t.token_id) (call (cancel_boundary_timers t.token_id) s)

  move_to_first-works :
      (target : String) (rest : List String)
      → s.token_write_fails ≡ false
      → let resumed = clear_waiting_for e.now t in
        move_to_first e resumed (target ∷ rest) (saved resumed timers_canceled) ≡ record {
          engine = saved (sent_to target) (saved resumed timers_canceled);
          answer = moved (executes (sent_to target));
        }
  move_to_first-works target rest works =
      let resumed = clear_waiting_for e.now t in
      ap (λ o. record { engine = o.engine; answer = moved o.answer })
        (update_and-works (executes (sent_to target)) (sent_to target)
          (saved resumed timers_canceled) works)

  process_callback_and_continue_with_flows-works :
      (elements : Dict Value) (flows : List String) (target : String) (rest : List String)
      → s.token_write_fails ≡ false
      → lookup t.process_key definitions ≡ some elements
      → target_elements flows elements ≡ target ∷ rest
      → let resumed = clear_waiting_for e.now t in
        process_callback_and_continue_with_flows e definitions t flows none s ≡ record {
          engine = saved (sent_to target) (saved resumed timers_canceled);
          answer = moved (executes (sent_to target));
        }
  unfolding process_callback_and_continue_with_flows clear_waiting_for
  process_callback_and_continue_with_flows-works elements flows target rest works found targets =
      let resumed = clear_waiting_for e.now t in
      ap
        (λ o. elim o [
          | none ↦ reject save_failed timers_canceled
          | some s' ↦ elim (lookup t.process_key definitions) [
            | none ↦ reject no_process s'
            | some elements' ↦ move_to_first e resumed (target_elements flows elements') s'
          ]
        ])
        (save_token-works timers_canceled resumed works)
      ∙ ap
          (λ o. elim o [
            | none ↦ reject no_process (saved resumed timers_canceled)
            | some elements' ↦
                move_to_first e resumed (target_elements flows elements')
                  (saved resumed timers_canceled)
          ])
          found
      ∙ ap (λ l. move_to_first e resumed l (saved resumed timers_canceled)) targets
      ∙ move_to_first-works target rest works

  handle_timer_callback-flows :
      (element_id : String) (element : Value) (elements : Dict Value) (flows : List String)
      → load_and_validate_token t.token_id (timer_wait element_id) s ≡ some t
      → lookup t.process_key definitions ≡ some elements
      → lookup element_id elements ≡ some element
      → get_element_outgoing_flows (some element) ≡ some flows
      → handle_timer_callback e definitions true element_id t.token_id s
        ≡ process_callback_and_continue_with_flows e definitions t flows none s
  unfolding handle_timer_callback handle_event_timer_callback
  handle_timer_callback-flows element_id element elements flows waiting found at outgoing =
      simp (handle_timer_callback, handle_event_timer_callback, waiting, found, at, outgoing)

  -- The effect of a timer on the store of its token.
  pub record SentTo (target : String) (c : Callback) : Type 0 where
    pub answer : c.answer ≡ moved (executes (sent_to target))
    pub own : lookup t.token_id c.engine.tokens ≡ some (sent_to target)
    pub others : (k : String) → t.token_id ≢ k → lookup k c.engine.tokens ≡ lookup k s.tokens
    pub calls :
        c.engine.calls
        ≡ (s.calls ++ cancel_boundary_timers t.token_id ∷ []) ++ cancel_event_timers t.token_id ∷ []

  saved-SentTo :
      (target : String)
      → SentTo target (record {
        engine = saved (sent_to target) (saved (clear_waiting_for e.now t) timers_canceled);
        answer = moved (executes (sent_to target));
      })
  unfolding clear_waiting_for move_to
  saved-SentTo target =
      let resumed = clear_waiting_for e.now t in
      record {
        answer = refl;
        own = lookup-insert_self t.token_id (sent_to target) (insert t.token_id resumed s.tokens);
        others = λ k other.
            lookup-insert_ne t.token_id k (sent_to target) (insert t.token_id resumed s.tokens)
              other
            ∙ lookup-insert_ne t.token_id k resumed s.tokens other;
        calls = refl;
      }

  -- The timer of a token that waits for it at an event sends the token to the target of the first
  -- flow of the event that has one, and over no other flow, whatever further flows there are; its
  -- boundary and event timers are canceled, and no other token changes. The record of the timer and
  -- the process can be read, and writes work.
  pub handle_timer_callback-first :
      (element_id : String) (element : Value) (elements : Dict Value) (flows : List String)
      (target : String) (rest : List String)
      → s.token_write_fails ≡ false
      → load_and_validate_token t.token_id (timer_wait element_id) s ≡ some t
      → lookup t.process_key definitions ≡ some elements
      → lookup element_id elements ≡ some element
      → get_element_outgoing_flows (some element) ≡ some flows
      → target_elements flows elements ≡ target ∷ rest
      → SentTo target (handle_timer_callback e definitions true element_id t.token_id s)
  handle_timer_callback-first element_id element elements flows target rest works waiting found at
        outgoing targets =
      subst (SentTo target)
        (sym (
          handle_timer_callback-flows element_id element elements flows waiting found at outgoing
          ∙ process_callback_and_continue_with_flows-works elements flows target rest works found
              targets))
        (saved-SentTo target)
