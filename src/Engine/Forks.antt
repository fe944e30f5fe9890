-- ===== src/Engine/Forks.antt =====
-- A token that moves on to several elements (moveTokenToNextElements of
-- src/process/execution_processor.go).
use atom_engine.Base.{
  ℕ, suc, ◌≤◌, ◌<◌, ◌≡◌, refl, sym, ap, subst, ◌∙◌, String, false, some, List, [], ◌∷◌, ◌++◌, map,
  lookup, insert, lookup-insert, lookup-insert_self, All, str_eq, arith,
}
use mathlib.Core.List.{append_assoc, append-nil}
use atom_engine.Token.{Token, TokenState, clone, move_to, set_state}
use atom_engine.Engine.{Engine, call, execute_async}
use atom_engine.Engine.Storage.{save_token-works}
use atom_engine.Engine.Processor.{Env, done, fork_tokens, move_to_targets}

-- The clone for a target.
abbrev pub fork_child : Env → ℕ → Token → String → Token
fork_child e i token target = move_to e.now target (clone (e.fresh_id i) e.now token)

abbrev pub fork_children : Env → ℕ → Token → List String → List Token
fork_children e i token [] = []
fork_children e i token (target ∷ rest) =
    fork_child e i token target ∷ fork_children e (suc i) token rest

-- A child that is saved and started.
abbrev pub started : Env → ℕ → Token → String → Engine → Engine
started e i token target s =
    let child = fork_child e i token target in
    call (execute_async child) (record s { tokens = insert (e.fresh_id i) child s.tokens })

module _ (e : Env) (token : Token) where
  pub fork_tokens-cons :
      (i : ℕ) (target : String) (rest : List String) (s : Engine)
      → s.token_write_fails ≡ false
      → fork_tokens e i token (target ∷ rest) s
        ≡ fork_tokens e (suc i) token rest (started e i token target s)
  unfolding fork_tokens move_to clone
  fork_tokens-cons i target rest s works =
      let w = save_token-works s (fork_child e i token target) works in simp (fork_tokens, w)

  fork_tokens-calls :
      (i : ℕ) (targets : List String) (s : Engine)
      → s.token_write_fails ≡ false
      → (fork_tokens e i token targets s).calls
        ≡ s.calls ++ map execute_async (fork_children e i token targets)
  unfolding fork_tokens
  fork_tokens-calls i [] s works = sym (append-nil s.calls)
  fork_tokens-calls i (target ∷ rest) s works =
      ap (λ o. o.calls) (fork_tokens-cons i target rest s works)
      ∙ fork_tokens-calls (suc i) rest (started e i token target s) works
      ∙ append_assoc s.calls (execute_async (fork_child e i token target) ∷ []) _

  -- A key that no child has keeps its token.
  fork_tokens-others :
      (i : ℕ) (targets : List String) (s : Engine) (k : String)
      → s.token_write_fails ≡ false
      → ((j : ℕ) → i ≤ j → str_eq (e.fresh_id j) k ≡ false)
      → lookup k (fork_tokens e i token targets s).tokens ≡ lookup k s.tokens
  unfolding fork_tokens
  fork_tokens-others i [] s k works ne = refl
  fork_tokens-others i (target ∷ rest) s k works ne =
      ap (λ o. lookup k o.tokens) (fork_tokens-cons i target rest s works)
      ∙ fork_tokens-others (suc i) rest (started e i token target s) k works
          (λ j h. ne j (omega arith))
      ∙ rw lookup-insert (rw (ne i (omega arith)) refl)

  fork_tokens-saved :
      (i : ℕ) (targets : List String) (s : Engine)
      → s.token_write_fails ≡ false
      → ((j k : ℕ) → j < k → str_eq (e.fresh_id k) (e.fresh_id j) ≡ false)
      → All
          (λ c. lookup c.token_id (fork_tokens e i token targets s).tokens ≡ some c)
          (fork_children e i token targets)
  unfolding move_to clone
  fork_tokens-saved i [] s works distinct = tt
  fork_tokens-saved i (target ∷ rest) s works distinct =
      let next = started e i token target s in
      let own =
        fork_tokens-others (suc i) rest next (e.fresh_id i) works
          (λ j h. distinct i j (omega arith)) in
      subst
        (λ o.
          All (λ c. lookup c.token_id o.tokens ≡ some c) (fork_children e i token (target ∷ rest)))
        (sym (fork_tokens-cons i target rest s works))
        (
          own ∙ lookup-insert_self (e.fresh_id i) (fork_child e i token target) s.tokens,
          fork_tokens-saved (suc i) rest next works distinct,
        )

  fork_children-targets :
      (i : ℕ) (targets : List String)
      → map (λ c. c.current_element_id) (fork_children e i token targets) ≡ targets
  unfolding move_to
  fork_children-targets i [] = refl
  fork_children-targets i (target ∷ rest) = ap (◌∷◌ target) (fork_children-targets (suc i) rest)

  fork_children-parent :
      (i : ℕ) (targets : List String)
      → All
          (λ c.
            (c.parent_token_id ≡ token.token_id)
            × (c.previous_element_id ≡ token.current_element_id)
            × (c.state ≡ token.state))
          (fork_children e i token targets)
  unfolding move_to clone
  fork_children-parent i [] = tt
  fork_children-parent i (target ∷ rest) = ((refl, refl, refl), fork_children-parent (suc i) rest)

-- A token that moves on to two elements or more is completed, and has one child for each of them, in
-- their order: every child stands in the store at its element, names the token as its parent, and is
-- started once. The children are clones of the completed token, so they are stored as completed.
-- Writes of tokens do not fail, and the new ids differ from one another.
pub move_to_targets-fork :
    (e : Env) (token : Token) (first second : String) (rest : List String) (s : Engine)
    → s.token_write_fails ≡ false
    → ((j k : ℕ) → j < k → str_eq (e.fresh_id k) (e.fresh_id j) ≡ false)
    → let targets = first ∷ second ∷ rest in
      let o = move_to_targets e token targets s in
      let children = fork_children e 0 (set_state e.now TokenState.completed token) targets in
      (o.token ≡ set_state e.now TokenState.completed token)
      × (o.engine.calls ≡ s.calls ++ map execute_async children)
      × (map (λ c. c.current_element_id) children ≡ targets)
      × All (λ c. lookup c.token_id o.engine.tokens ≡ some c) children
      × All
          (λ c.
            (c.parent_token_id ≡ token.token_id)
            × (c.previous_element_id ≡ token.current_element_id)
            × (c.state ≡ TokenState.completed))
          children
unfolding set_state move_to_targets
move_to_targets-fork e token first second rest s works distinct =
    let targets : List String = first ∷ second ∷ rest in
    let original = set_state e.now TokenState.completed token in
    let saved : Engine = record s { tokens = insert token.token_id original s.tokens } in
    let direct : move_to_targets e token targets s ≡ record {
      token = original;
      engine = fork_tokens e 0 original targets saved;
      answer = done;
    } =
      simp (move_to_targets, save_token-works s original works) in
    let children = fork_children e 0 original targets in
    (
      ap (λ o. o.token) direct,
      ap (λ o. o.engine.calls) direct ∙ fork_tokens-calls e original 0 targets saved works,
      fork_children-targets e original 0 targets,
      subst (λ o. All (λ c. lookup c.token_id o.engine.tokens ≡ some c) children) (sym direct)
          (fork_tokens-saved e original 0 targets saved works distinct),
      fork_children-parent e original 0 targets,
    )
