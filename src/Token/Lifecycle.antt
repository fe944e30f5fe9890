-- ===== src/Token/Lifecycle.antt =====
-- The state of a token and its time stamps (src/core/models/token.go).
use atom_engine.Base.{
  ℕ, ◌≡◌, ◌≢◌, ◌⊎◌, String, true, false, Option, none, some, refl, ◌∙◌, List, [], ◌∷◌, Dict, arith,
}
use atom_engine.Token.{
  Token, TokenState, completed, canceled, failed, Value, move_to, set_state, set_variable,
  set_waiting_for, clear_waiting_for, is_active, is_waiting, is_completed, is_final, new_token,
  add_child_token, remove_child_token, add_boundary_timer, remove_boundary_timer, set_variables,
  merge_variables, set_execution_context, set_timer_callback, clear_timer_callback,
}

-- A final token has its time of completion.
abbrev pub IsStamped : Token → Type 0
IsStamped t = is_final t.state ≡ true → t.completed_at ≢ none

-- The calls that write to a token.
pub data Call : Type 0 where
  moves : String → Call
  sets_state : TokenState → Call
  sets_variable : String → Value → Call
  sets_variables merges_variables : Dict Value → Call
  sets_context : String → Value → Call
  waits_for : String → Call
  resumes : Call
  adds_child removes_child adds_timer removes_timer : String → Call
  marks_callback clears_callback : Call

unfoldable pub apply : ℕ → Call → Token → Token
unfolding move_to set_state set_variable set_variables merge_variables set_execution_context
    set_waiting_for clear_waiting_for add_child_token remove_child_token add_boundary_timer
    remove_boundary_timer set_timer_callback clear_timer_callback
apply now (moves id) t = move_to now id t
apply now (sets_state s) t = set_state now s t
apply now (sets_variable k v) t = set_variable now k v t
apply now (sets_variables vs) t = set_variables now vs t
apply now (merges_variables vs) t = merge_variables now vs t
apply now (sets_context k v) t = set_execution_context now k v t
apply now (waits_for w) t = set_waiting_for now w t
apply now resumes t = clear_waiting_for now t
apply now (adds_child id) t = add_child_token now id t
apply now (removes_child id) t = remove_child_token now id t
apply now (adds_timer id) t = add_boundary_timer now id t
apply now (removes_timer id) t = remove_boundary_timer now id t
apply now marks_callback t = set_timer_callback now t
apply now clears_callback t = clear_timer_callback now t

unfoldable pub run : List (ℕ × Call) → Token → Token
run [] t = t
run ((now, c) ∷ cs) t = run cs (apply now c t)

pub apply-IsStamped : (now : ℕ) (c : Call) (t : Token) → IsStamped t → IsStamped (apply now c t)
unfolding apply
apply-IsStamped now (moves id) t h = ground arith
apply-IsStamped now c t h = ground arith

run-IsStamped : (cs : List (ℕ × Call)) (t : Token) → IsStamped t → IsStamped (run cs t)
unfolding run
run-IsStamped [] t h = h
run-IsStamped ((now, c) ∷ cs) t h = run-IsStamped cs (apply now c t) (apply-IsStamped now c t h)

-- After any calls on a new token, a token that is completed, canceled or failed carries the time
-- at which it was completed.
pub new_token-IsStamped :
    (fresh : String) (now : ℕ) (instance key element : String) (cs : List (ℕ × Call))
    → is_completed (run cs (new_token fresh now instance key element)) ≡ true
    → (run cs (new_token fresh now instance key element)).completed_at ≢ none
unfolding is_completed new_token
new_token-IsStamped fresh now instance key element cs =
    run-IsStamped cs (new_token fresh now instance key element) λ h. cc

-- The time of the last call that sets a final state.
abbrev pub last_final : List (ℕ × Call) → Option ℕ → Option ℕ
last_final [] before = before
last_final ((now, sets_state completed) ∷ cs) before = last_final cs (some now)
last_final ((now, sets_state canceled) ∷ cs) before = last_final cs (some now)
last_final ((now, sets_state failed) ∷ cs) before = last_final cs (some now)
last_final (_ ∷ cs) before = last_final cs before

run-completed_at :
    (cs : List (ℕ × Call)) (t : Token) → (run cs t).completed_at ≡ last_final cs t.completed_at
unfolding run apply
run-completed_at [] t = refl
run-completed_at ((now, sets_state completed) ∷ cs) t =
    run-completed_at cs (set_state now completed t)
run-completed_at ((now, sets_state canceled) ∷ cs) t =
    run-completed_at cs (set_state now canceled t)
run-completed_at ((now, sets_state failed) ∷ cs) t = run-completed_at cs (set_state now failed t)
run-completed_at ((now, c) ∷ cs) t = run-completed_at cs (apply now c t)

-- After any calls on a new token its time of completion is that of the last call that set it to
-- completed, canceled or failed, and it has none if there was no such call; and a token that is in
-- one of these states has a time of completion.
pub new_token-completed_at :
    (fresh : String) (now : ℕ) (instance key element : String) (cs : List (ℕ × Call))
    → let t = run cs (new_token fresh now instance key element) in
      (t.completed_at ≡ last_final cs none) × (is_completed t ≡ true → last_final cs none ≢ none)
unfolding new_token
new_token-completed_at fresh now instance key element cs =
    let t = new_token fresh now instance key element in
    let stamped = run-completed_at cs t in
    (
      stamped,
      λ done missing.
          new_token-IsStamped fresh now instance key element cs done (stamped ∙ missing),
    )

-- `IsActive`, `IsWaiting` and `IsCompleted` exclude one another, and one of them holds.
pub state_tests_partition :
    (t : Token)
    → ((is_active t ≡ true) × (is_waiting t ≡ false) × (is_completed t ≡ false))
      ⊎ ((is_active t ≡ false) × (is_waiting t ≡ true) × (is_completed t ≡ false))
      ⊎ ((is_active t ≡ false) × (is_waiting t ≡ false) × (is_completed t ≡ true))
unfolding is_active is_waiting is_completed
state_tests_partition t = ground arith
