-- ===== src/Engine/Settled.antt =====
-- A token that no longer waits, over the movements of a callback (src/process/callback_helper.go,
-- src/process/token_movement.go).
use atom_engine.Base.{
  ℕ, ◌≡◌, refl, ap, subst, ◌∙◌, String, Bool, false, Option, none, some, Dict, lookup, insert,
  lookup-insert_self,
}
use atom_engine.Token.{
  Token, TokenState, Value, clear_waiting_for, clone, is_waiting, is_waiting_state, resume,
  merge_variables, move_to, set_state,
}
use atom_engine.Engine.{Engine}
use atom_engine.Engine.Processor.{Env, merge_result}
use atom_engine.Engine.Forks.{fork_child}

abbrev pub waits : Option Token → Bool
waits none = false
waits (some t) = is_waiting t

-- A token that is saved, with calls added.
abbrev pub saved : Token → Engine → Engine
saved t s = record s { tokens = insert t.token_id t s.tokens }

module _ (e : Env) (t : Token) where
  pub completed_idle : is_waiting (set_state e.now TokenState.completed t) ≡ false
  unfolding is_waiting set_state
  completed_idle = refl

  pub child_idle :
      (i : ℕ) (target : String)
      → is_waiting t ≡ false
      → is_waiting (fork_child e i t target) ≡ false
  unfolding is_waiting move_to clone
  child_idle i target idle = idle

module _ (e : Env) (t : Token) where
  pub cleared_idle : is_waiting (clear_waiting_for e.now t) ≡ false
  unfolding is_waiting clear_waiting_for
  cleared_idle = elim t.state as (λ x. is_waiting_state (resume x) ≡ false) [
    | TokenState.waiting ↦ refl
    | _ ↦ refl
  ]

  pub resumed_idle :
      (variables : Option (Dict Value))
      → is_waiting (merge_result e.now variables (clear_waiting_for e.now t)) ≡ false
  unfolding is_waiting merge_variables
  resumed_idle none = cleared_idle
  resumed_idle (some variables) = cleared_idle

  pub resumed_id :
      (variables : Option (Dict Value))
      → (merge_result e.now variables (clear_waiting_for e.now t)).token_id ≡ t.token_id
  unfolding merge_variables clear_waiting_for
  resumed_id none = refl
  resumed_id (some variables) = refl

  pub resumed_settled :
      (variables : Option (Dict Value)) (tokens : Dict Token) (id : String)
      → t.token_id ≡ id
      → let resumed = merge_result e.now variables (clear_waiting_for e.now t) in
        waits (lookup id (insert resumed.token_id resumed tokens)) ≡ false
  resumed_settled variables tokens id own =
      let resumed = merge_result e.now variables (clear_waiting_for e.now t) in
      ap waits (
        subst (λ k. lookup k (insert resumed.token_id resumed tokens) ≡ some resumed)
          (resumed_id variables ∙ own) (lookup-insert_self resumed.token_id resumed tokens))
      ∙ resumed_idle variables
