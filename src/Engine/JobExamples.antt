-- ===== src/Engine/JobExamples.antt =====
-- A token that waits for a job, with a boundary event that catches one error.
use atom_engine.Base.{
  ◌≡◌, refl, sym, ap, ◌∙◌, str_eq, Bool, Option, Bool-cases, inl, inr, String, true, false, none,
  some, insert, [], ◌∷◌, Dict, lookup,
}
use atom_engine.Engine.Awaits.{awaits}
use atom_engine.Engine.Chain.{execute_chain, executed_job}
use atom_engine.Engine.CallbackExamples.{waiting_executors, waiting_executors-NoneAsks}
use atom_engine.Engine.JobOnce.{AllInterrupt, handle_job_callback-once}
use atom_engine.Engine.Callbacks.{load_and_validate_token}
use atom_engine.Token.{
  is_waiting, clear_waiting_for, move_to, Token, Value, Fields, new_token, set_waiting_for,
}
use atom_engine.Engine.{load_token, save_token}
use atom_engine.Engine.Boundaries.{
  ErrorBoundary, find_matching_error_boundary, first_of_code, get_error_boundaries_for_token,
}
use atom_engine.Engine.JobCallbacks.{JobEngine, handle_job_callback, token_not_waiting}
use atom_engine.Engine.Elements.{
  is_activity_element, find_target_element_by_flow_id, target_elements,
}
use atom_engine.Engine.CaughtErrors.{CaughtBy, handle_job_callback-CaughtBy}
use atom_engine.Engine.Processor.{Env}

abbrev pay : Value
pay = Value.object (Fields.field "outgoing" (Value.text "next") Fields.end)

abbrev ship : Value
ship = Value.object (
    Fields.field "type" (Value.text "serviceTask")
      (Fields.field "incoming" (Value.text "next") Fields.end))

abbrev refund : Value
refund = Value.object (Fields.field "incoming" (Value.text "failed") Fields.end)

abbrev elements : Dict Value
elements = ("pay", pay) ∷ ("ship", ship) ∷ ("refund", refund) ∷ []

abbrev definitions : Dict (Dict Value)
definitions = ("order", elements) ∷ []

abbrev token : Token
unfolding new_token set_waiting_for
token = set_waiting_for 11 "job:j1" (new_token "t1" 10 "i" "order" "pay")

abbrev boundary : ErrorBoundary
boundary = record {
  token_id = "t1";
  element_id = "declined";
  attached_to_ref = "pay";
  error_ref = "e1";
  error_code = "DECLINED";
  error_name = "declined";
  cancel_activity = true;
  outgoing_flows = "failed" ∷ [];
}

abbrev state : JobEngine
unfolding token
state = record {
  engine = record {
    tokens = ("t1", token) ∷ [];
    instances = [];
    token_read_fails = false;
    token_write_fails = false;
    instance_read_fails = false;
    instance_write_fails = false;
    create_timer_fails = false;
    calls = [];
  };
  boundaries = ("t1", boundary ∷ []) ∷ [];
  has_jobs = true;
  has_incidents = true;
  reports = [];
}

abbrev env : Env
env = record { now = 20; fresh_id = λ n. "c" }

abbrev same : String → String
same s = s

abbrev code : Dict Value
code = ("errorCode", Value.text "DECLINED") ∷ []

handle_job_callback-CaughtBy_example : CaughtBy "j1" "DECLINED" "card declined" "ship" token state (
    handle_job_callback same same same env definitions "j1" "pay" "t1" "ERROR_THROWN"
      "card declined"
      (some code)
      state)
unfolding load_token lookup find_matching_error_boundary first_of_code
    get_error_boundaries_for_token new_token set_waiting_for token state target_elements
    find_target_element_by_flow_id
handle_job_callback-CaughtBy_example =
    handle_job_callback-CaughtBy same same same env definitions "j1" "pay" "DECLINED"
      "card declined" "ship" "failed" "next" [] [] elements code token boundary state refl refl refl
      refl refl refl refl refl refl refl

abbrev completed : JobEngine
unfolding handle_job_callback execute_chain
completed =
    executed_job (waiting_executors definitions "job:j2") env definitions 3
      (handle_job_callback same same same env definitions "j1" "pay" "t1" "COMPLETED" "" none state)

-- The executions after the callback have made the token wait for the other job.
waits_for_job : awaits "job:j2" (lookup "t1" completed.engine.tokens) ≡ true
unfolding lookup completed load_token state is_waiting save_token clear_waiting_for target_elements
    is_activity_element move_to insert
waits_for_job = refl

abbrev interrupts : Option ErrorBoundary → Bool
interrupts none = true
interrupts (some b) = b.cancel_activity

state-AllInterrupt : AllInterrupt "t1" state.boundaries
unfolding lookup find_matching_error_boundary first_of_code get_error_boundaries_for_token state
state-AllInterrupt code b found =
    ap interrupts (sym found)
    ∙ elim (Bool-cases (str_eq "DECLINED" code)) [ inl y ↦ rw y refl | inr n ↦ rw n refl ]

handle_job_callback-once_example :
    handle_job_callback same same same env definitions "j1" "pay" "t1" "COMPLETED" "" none completed
    ≡ record { state = completed; answer = token_not_waiting }
unfolding load_and_validate_token load_token lookup is_waiting set_waiting_for new_token token state
    completed handle_job_callback find_matching_error_boundary first_of_code
    get_error_boundaries_for_token
handle_job_callback-once_example =
    handle_job_callback-once same same same (waiting_executors definitions "job:j2") env env
      definitions definitions 3 "j1" "pay" "pay" "COMPLETED" "COMPLETED" "" "" none none token state
      (waiting_executors-NoneAsks definitions "job:j1" "t1" "job:j2" refl refl) refl refl refl
      state-AllInterrupt refl
