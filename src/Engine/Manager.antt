-- ===== src/Engine/Manager.antt =====
-- The manager of the process instances (src/process/process_instance_manager.go).
use atom_engine.Base.{ℕ, String, Bool, ◌||◌, Option, none, some, List, [], ◌∷◌, if◌then◌else◌}
use atom_engine.Token.{Token, TokenState, Value, is_active, is_waiting, set_state}
use atom_engine.Engine.{
  Engine, InstanceState, call, cancel_boundary_timers, cancel_all_timers, cancel_all_jobs,
  load_tokens_by_process_instance, load_process_instance, save_token, save_process_instance,
  set_instance_state, add_metadata,
}

-- The loop over the tokens of the instance: one that is not saved is logged.
unfoldable pub cancel_tokens : ℕ → List Token → Engine → Engine
cancel_tokens now [] s = s
cancel_tokens now (t ∷ rest) s =
    let called = call (cancel_boundary_timers t.token_id) s in
    cancel_tokens now rest (
      if is_active t || is_waiting t
      then elim (save_token (set_state now TokenState.canceled t) called) [
        | none ↦ called
        | some s' ↦ s'
      ]
      else s)

pub data CancelError : Type 0 where
  not_ready load_instance_failed update_instance_failed load_tokens_failed : CancelError

-- A failed cancellation of the timers or of the jobs is logged.
unfoldable pub cancel_process_instance :
    Bool → ℕ → String → String → Engine → Engine × Option CancelError
unfolding cancel_tokens
cancel_process_instance ready now instance_id reason s =
    if ready
    then elim (load_process_instance instance_id s) [
      | none ↦ (s, some load_instance_failed)
      | some p ↦
          let canceled =
            add_metadata now "cancel_reason" (Value.text reason)
              (set_instance_state now InstanceState.canceled p) in
          elim (save_process_instance canceled s) [
            | none ↦ (s, some update_instance_failed)
            | some s' ↦ elim (load_tokens_by_process_instance instance_id s') [
              | none ↦ (s', some load_tokens_failed)
              | some tokens ↦ (
                call (cancel_all_jobs instance_id reason)
                    (call (cancel_all_timers instance_id) (cancel_tokens now tokens s')),
                none,
              )
            ]
          ]
    ]
    else (s, some not_ready)
