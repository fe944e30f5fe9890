-- ===== src/Engine/Cancellation.antt =====
-- What the cancellation of an instance does to the tokens (src/process/process_instance_manager.go).
use atom_engine.Base.{
  ℕ, ◌≡◌, refl, sym, ap, ◌∙◌, String, Bool, true, false, ◌||◌, Option, none, some, List, [], ◌∷◌,
  Dict, lookup, insert, lookup-insert, lookup-insert_self, IsDict, str_eq, eq_iff, arith,
  Bool-cases, inl, inr, if◌then◌else◌,
}
use mathlib.Core.Option
use atom_engine.Token.{Token, TokenState, Value, is_active, is_waiting, set_state}
use atom_engine.Engine.{
  Engine, ProcessInstance, InstanceState, call, cancel_boundary_timers, cancel_all_timers,
  cancel_all_jobs, tokens_where, is_in_instance, save_token, set_instance_state, add_metadata,
}
use atom_engine.Engine.Storage.{
  save_token-works, load_process_instance-works, save_process_instance-works,
  load_tokens_by_process_instance-works,
}
use atom_engine.Engine.Manager.{cancel_tokens, cancel_process_instance}

-- Every token stands under its own id.
abbrev pub Keyed : Dict Token → Type 0
Keyed [] = Unit
Keyed ((k, t) ∷ d) = (t.token_id ≡ k) × Keyed d

abbrev pub is_open : Token → Bool
is_open t = is_active t || is_waiting t

-- The token after the cancellation of an instance.
abbrev pub canceled_token : ℕ → (Token → Bool) → Token → Token
canceled_token now p t =
    if p t then (if is_open t then set_state now TokenState.canceled t else t) else t

-- The entry of a key, where the tokens of a part of the store are canceled.
abbrev pub entry_after : ℕ → (Token → Bool) → Option Token → Option Token → Option Token
entry_after now p none kept = kept
entry_after now p (some t) kept =
    if p t then (if is_open t then some (set_state now TokenState.canceled t) else kept) else kept

-- One turn of the loop.
abbrev cancel_one : ℕ → Token → Engine → Engine
cancel_one now t s = cancel_tokens now (t ∷ []) s

cancel_tokens-cons :
    (now : ℕ) (t : Token) (rest : List Token) (s : Engine)
    → cancel_tokens now (t ∷ rest) s ≡ cancel_tokens now rest (cancel_one now t s)
unfolding cancel_tokens
cancel_tokens-cons now t rest s = refl

cancel_tokens-nil : (now : ℕ) (s : Engine) → cancel_tokens now [] s ≡ s
unfolding cancel_tokens
cancel_tokens-nil now s = refl

-- What one turn leaves in the store.
record Cancels (now : ℕ) (t : Token) (s s' : Engine) : Type 0 where
  writes : s'.token_write_fails ≡ false
  entry :
      (k : String)
      → lookup k s'.tokens ≡ (
          if is_open t
          then (if str_eq t.token_id k
              then some (set_state now TokenState.canceled t)
              else lookup k s.tokens)
          else lookup k s.tokens)

cancel_one-Cancels :
    (now : ℕ) (t : Token) (s : Engine)
    → s.token_write_fails ≡ false
    → Cancels now t s (cancel_one now t s)
unfolding cancel_tokens set_state save_token
cancel_one-Cancels now t s works =
    let called = call (cancel_boundary_timers t.token_id) s in
    let w = save_token-works called (set_state now TokenState.canceled t) works in
    elim (Bool-cases (is_open t)) [
      | inl alive ↦ record {
        writes = simp (cancel_tokens, alive, works);
        entry = λ k. simp (cancel_tokens, alive, w, lookup-insert);
      }
      | inr final ↦ record {
        writes = simp (cancel_tokens, final, works);
        entry = λ k. simp (cancel_tokens, final);
      }
    ]

module _ (now : ℕ) (p : Token → Bool) where
  cancel_tokens-entries :
      (d : Dict Token) (s : Engine) (k : String)
      → s.token_write_fails ≡ false
      → IsDict d
      → Keyed d
      → lookup k (cancel_tokens now (tokens_where p d) s).tokens
        ≡ entry_after now p (lookup k d) (lookup k s.tokens)
  unfolding tokens_where lookup
  cancel_tokens-entries [] s k works u keyed = ap (λ o. lookup k o.tokens) (cancel_tokens-nil now s)
  cancel_tokens-entries ((j, t) ∷ d) s k works (fresh, u) (own, keyed) =
      let c = cancel_one-Cancels now t s works in
      let gone : str_eq j k ≡ true → lookup k d ≡ none =
        λ y. ap (λ i. lookup i d) (sym ((eq_iff j k).0 y)) ∙ fresh in
      let key : str_eq t.token_id k ≡ str_eq j k = ap (λ i. str_eq i k) own in
      elim (Bool-cases (p t)) [
        | inl y ↦ rw y (
            ap (λ o. lookup k o.tokens) (cancel_tokens-cons now t (tokens_where p d) s)
            ∙ cancel_tokens-entries d (cancel_one now t s) k c.writes u keyed
            ∙ elim (Bool-cases (str_eq j k)) [
              | inl same ↦ rw (gone same) (rw same (c.entry k ∙ rw (key ∙ same) (rw y refl)))
              | inr other ↦ rw other (
                  ap (entry_after now p (lookup k d)) (c.entry k ∙ rw (key ∙ other) (ground arith)))
            ])
        | inr n ↦ rw n (
            cancel_tokens-entries d s k works u keyed ∙ elim (Bool-cases (str_eq j k)) [
              | inl same ↦ rw (gone same) (rw same (rw n refl))
              | inr other ↦ rw other refl
            ])
      ]

entry_after-all :
    (now : ℕ) (p : Token → Bool) (o : Option Token)
    → entry_after now p o o ≡ Option.map (canceled_token now p) o
entry_after-all now p none = refl
entry_after-all now p (some t) = ground arith

cancel_tokens-instances :
    (now : ℕ) (ts : List Token) (s : Engine) → (cancel_tokens now ts s).instances ≡ s.instances
unfolding cancel_tokens save_token
cancel_tokens-instances now [] s = refl
cancel_tokens-instances now (t ∷ rest) s = cancel_tokens-instances now rest _ ∙ ground arith

-- Where the database works, the cancellation of an instance that exists cancels each of its tokens
-- that is active or waiting, leaves the other tokens of the instance and all tokens of other
-- instances as they are, and marks the instance as canceled with the reason, whatever its state was.
-- Each token stands once in the store, under its own id.
pub cancel_process_instance-tokens :
    (now : ℕ) (reason : String) (p : ProcessInstance) (s : Engine)
    → s.token_read_fails ≡ false
    → s.token_write_fails ≡ false
    → s.instance_read_fails ≡ false
    → s.instance_write_fails ≡ false
    → lookup p.instance_id s.instances ≡ some p
    → IsDict s.tokens
    → Keyed s.tokens
    → let o = cancel_process_instance true now p.instance_id reason s in
      ((k : String)
        → lookup k o.0.tokens
          ≡ Option.map (canceled_token now (is_in_instance p.instance_id)) (lookup k s.tokens))
      × (lookup p.instance_id o.0.instances
          ≡ some (
              add_metadata now "cancel_reason"
                (Value.text reason)
                (set_instance_state now InstanceState.canceled p)))
      × (o.1 ≡ none)
unfolding cancel_process_instance add_metadata set_instance_state
cancel_process_instance-tokens now reason p s token_reads token_writes reads writes found u keyed =
    let id = p.instance_id in
    let q =
      add_metadata now "cancel_reason" (Value.text reason)
        (set_instance_state now InstanceState.canceled p) in
    let s1 : Engine = record s { instances = insert id q s.instances } in
    let mine = tokens_where (is_in_instance id) s.tokens in
    let s2 =
      call (cancel_all_jobs id reason) (call (cancel_all_timers id) (cancel_tokens now mine s1)) in
    let direct : cancel_process_instance true now id reason s ≡ (s2, none) = simp (
      cancel_process_instance,
      load_process_instance-works s id reads ∙ found,
      save_process_instance-works s q writes,
      load_tokens_by_process_instance-works s1 id token_reads,
    ) in
    (
      (λ k.
          ap (λ o. lookup k o.0.tokens) direct
          ∙ cancel_tokens-entries now (is_in_instance id) s.tokens s1 k token_writes u keyed
          ∙ entry_after-all now (is_in_instance id) (lookup k s.tokens)),
      ap (λ o. lookup id o.0.instances) direct
          ∙ ap (lookup id) (cancel_tokens-instances now mine s1)
          ∙ lookup-insert_self id q s.instances,
      ap (λ o. o.1) direct,
    )
