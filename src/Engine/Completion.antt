-- ===== src/Engine/Completion.antt =====
-- When the execution processor completes an instance (src/process/execution_processor.go).
use atom_engine.Base.{
  ℕ, ◌≡◌, inl, inr, refl, ap, ◌∙◌, String, Bool, true, false, Option, some, List, [], ◌∷◌, Dict,
  lookup, insert, lookup-insert_self, IsDict, str_eq, str_eq_self, eq_iff, arith, Bool-cases,
}
use atom_engine.Token.{Token, is_completed}
use atom_engine.Engine.{
  Engine, ProcessInstance, InstanceState, tokens_where, is_in_instance,
  load_tokens_by_process_instance, load_tokens_by_state, save_token, set_instance_state,
}
use atom_engine.Engine.Storage.{load_process_instance-works, save_process_instance-works}
use atom_engine.Engine.Processor.{
  all_completed, check_process_completion, complete_instance, done, continue_parents,
  handle_call_activity_completion,
}

all_completed-tokens_where :
    (p : Token → Bool) (k : String) (t : Token) (d : Dict Token)
    → lookup k d ≡ some t
    → p t ≡ true
    → is_completed t ≡ false
    → all_completed (tokens_where p d) ≡ false
unfolding all_completed tokens_where lookup
all_completed-tokens_where p k t [] e y n = absurd (ground arith)
all_completed-tokens_where p k t ((j, u) ∷ d) e y n =
    ground (arith, all_completed-tokens_where p k t d)

-- As long as the instance has a token in the store that is active or waiting, the check after a
-- token's completion changes nothing: the instance is not completed, and no call is made.
pub check_process_completion-unfinished :
    (now : ℕ) (instance_id k : String) (t : Token) (s : Engine)
    → lookup k s.tokens ≡ some t
    → str_eq t.process_instance_id instance_id ≡ true
    → is_completed t ≡ false
    → (check_process_completion now instance_id s).0 ≡ s
unfolding check_process_completion load_tokens_by_process_instance
check_process_completion-unfinished now instance_id k t s e y n =
    elim (Bool-cases s.token_read_fails) [
      | inl fails ↦ simp (check_process_completion, load_tokens_by_process_instance, fails)
      | inr reads ↦ simp (
        check_process_completion,
        load_tokens_by_process_instance,
        reads,
        all_completed-tokens_where (is_in_instance instance_id) k t s.tokens e y n,
      )
    ]

-- What happens to waiting parents leaves the instances.
continue_parents-instances :
    (now : ℕ) (child : Option ProcessInstance) (parents : List Token) (s : Engine)
    → (continue_parents now child parents s).instances ≡ s.instances
unfolding continue_parents save_token
continue_parents-instances now child [] s = refl
continue_parents-instances now child (t ∷ rest) s =
    continue_parents-instances now child rest _ ∙ ground arith

handle_call_activity_completion-instances :
    (now : ℕ) (id : String) (s : Engine)
    → (handle_call_activity_completion now id s).instances ≡ s.instances
unfolding handle_call_activity_completion load_tokens_by_state
handle_call_activity_completion-instances now id s = elim (Bool-cases s.token_read_fails) [
  | inl fails ↦ simp (handle_call_activity_completion, load_tokens_by_state, fails)
  | inr reads ↦
      simp
        (handle_call_activity_completion, load_tokens_by_state, reads, continue_parents-instances)
]

pub all_completed-all :
    (p : Token → Bool) (d : Dict Token)
    → IsDict d
    → ((k : String) (t : Token) → lookup k d ≡ some t → p t ≡ true → is_completed t ≡ true)
    → all_completed (tokens_where p d) ≡ true
unfolding all_completed tokens_where lookup
all_completed-all p [] u h = refl
all_completed-all p ((j, t) ∷ d) (fresh, u) h =
    let first : p t ≡ true → is_completed t ≡ true = h j t (rw str_eq_self refl) in
    let later : (k : String) (t' : Token)
        → lookup k d ≡ some t'
        → p t' ≡ true
        → is_completed t' ≡ true =
      λ k t' e. h k t' (ground (arith, e, fresh, eq_iff j k)) in
    ground (arith, first, all_completed-all p d u later)

module _ (now : ℕ) (id : String) (s : Engine) where
  pub check_process_completion-all :
      s.token_read_fails ≡ false
      → all_completed (tokens_where (is_in_instance id) s.tokens) ≡ true
      → check_process_completion now id s ≡ complete_instance now id s
  unfolding check_process_completion load_tokens_by_process_instance
  check_process_completion-all reads all =
      simp (check_process_completion, load_tokens_by_process_instance, reads, all)

  complete_instance-saves :
      (p : ProcessInstance)
      → s.instance_read_fails ≡ false
      → s.instance_write_fails ≡ false
      → lookup id s.instances ≡ some p
      → complete_instance now id s ≡ (
        handle_call_activity_completion now id (record s {
          instances =
              insert p.instance_id (set_instance_state now InstanceState.completed p) s.instances;
        }),
        done,
      )
  unfolding complete_instance set_instance_state
  complete_instance-saves p reads writes e =
      let q = set_instance_state now InstanceState.completed p in
      simp (
        complete_instance,
        load_process_instance-works s id reads ∙ e,
        save_process_instance-works s q writes,
      )

  pub complete_instance-marks :
      (p : ProcessInstance)
      → s.instance_read_fails ≡ false
      → s.instance_write_fails ≡ false
      → lookup id s.instances ≡ some p
      → p.instance_id ≡ id
      → (lookup id (complete_instance now id s).0.instances
          ≡ some (set_instance_state now InstanceState.completed p))
        × ((complete_instance now id s).1 ≡ done)
  complete_instance-marks p reads writes e own = rw (complete_instance-saves p reads writes e) (
    ap (lookup id) (handle_call_activity_completion-instances now id _)
        ∙ rw own (lookup-insert_self id _ s.instances),
    refl,
  )
