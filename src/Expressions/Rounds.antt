-- ===== src/Expressions/Rounds.antt =====
-- The rounds of the tokenizer (tokenizeLogicalExpression of src/expression/variable_evaluator.go):
-- what each of them reads.
use atom_engine.Base.{
  ℕ, zero, suc, ◌≤◌, ◌<◌, ◌≡◌, refl, ap, ◌∙◌, false, Option, some, List, [], ◌∷◌, ◌++◌, ◌==◌, arith,
  length,
}
use atom_engine.Expressions.{
  Chars, LogicToken, and_operator, or_operator, not_operator, left_paren, right_paren, add_tokens,
  codes, next_token, skip_spaces, tokenize_loop,
}
use atom_engine.Expressions.Termination.{
  NoSpaceFirst, length-skip_spaces, next_token-Progress, skip_spaces_head,
}

-- More fuel than is enough changes nothing.
tokenize_loop-fuel :
    (f g : ℕ) (s : Chars) → length s < f → length s < g → tokenize_loop f s ≡ tokenize_loop g s
unfolding tokenize_loop
tokenize_loop-fuel zero g s h k = absurd (omega arith)
tokenize_loop-fuel (suc f) zero s h k = absurd (omega arith)
tokenize_loop-fuel (suc f) (suc g) s h k =
    round (skip_spaces s) (skip_spaces_head s) (length-skip_spaces s)
      (λ rest. tokenize_loop-fuel f g rest)
  where
    round :
        (left : Chars)
        → NoSpaceFirst left
        → length left ≤ length s
        → ((rest : Chars)
            → length rest < f
            → length rest < g
            → tokenize_loop f rest ≡ tokenize_loop g rest)
        → ◌≡◌ {A = Option (List LogicToken)}
            (elim left [
              | [] ↦ some []
              | c ∷ r ↦ add_tokens (next_token (c ∷ r)).0 (tokenize_loop f (next_token (c ∷ r)).1)
            ])
            (elim left [
              | [] ↦ some []
              | c ∷ r ↦ add_tokens (next_token (c ∷ r)).0 (tokenize_loop g (next_token (c ∷ r)).1)
            ])
    round [] head less same = refl
    round (c ∷ r) head less same =
        let (taken, few) = next_token-Progress c r head in
        ap (add_tokens (next_token (c ∷ r)).0)
          (same (next_token (c ∷ r)).1 (omega arith) (omega arith))

-- The tokens of a text, with enough fuel.
unfoldable pub tokens_of : Chars → Option (List LogicToken)
tokens_of s = tokenize_loop (suc (length s)) s

skip_spaces-visible : (c : ℕ) (s : Chars) → c == 32 ≡ false → skip_spaces (c ∷ s) ≡ c ∷ s
unfolding skip_spaces
skip_spaces-visible c s no_space = simp no_space

pub tokens_of-next :
    (c : ℕ) (s : Chars)
    → c == 32 ≡ false
    → tokens_of (c ∷ s) ≡ add_tokens (next_token (c ∷ s)).0 (tokens_of (next_token (c ∷ s)).1)
unfolding tokens_of tokenize_loop
tokens_of-next c s no_space =
    let (taken, few) = next_token-Progress c s no_space in
    let rest = (next_token (c ∷ s)).1 in
    ap
      (λ (left : Chars). elim left [
        | [] ↦ some []
        | c' ∷ r ↦
            add_tokens (next_token (c' ∷ r)).0
              (tokenize_loop (suc (length s)) (next_token (c' ∷ r)).1)
      ])
      (skip_spaces-visible c s no_space)
    ∙ ap (add_tokens (next_token (c ∷ s)).0)
        (tokenize_loop-fuel (suc (length s)) (suc (length rest)) rest (omega arith) (omega arith))

tokens_of-space : (s : Chars) → tokens_of (32 ∷ s) ≡ tokens_of s
unfolding tokens_of tokenize_loop skip_spaces
tokens_of-space s =
    tokenize_loop-fuel (suc (suc (length s))) (suc (length s)) s (omega arith) (omega arith)

pub tokens_of-left_paren :
    (s : Chars) → tokens_of (codes "(" ++ s) ≡ add_tokens (left_paren ∷ []) (tokens_of s)
unfolding next_token
tokens_of-left_paren s = tokens_of-next 40 s refl

pub tokens_of-right_paren :
    (s : Chars) → tokens_of (codes ")" ++ s) ≡ add_tokens (right_paren ∷ []) (tokens_of s)
unfolding next_token
tokens_of-right_paren s = tokens_of-next 41 s refl

pub tokens_of-not :
    (s : Chars) → tokens_of (codes "not " ++ s) ≡ add_tokens (not_operator ∷ []) (tokens_of s)
unfolding next_token
tokens_of-not s =
    tokens_of-next 110 (111 ∷ 116 ∷ 32 ∷ s) refl
    ∙ ap (add_tokens (not_operator ∷ [])) (tokens_of-space s)

pub tokens_of-and :
    (s : Chars) → tokens_of (codes " and " ++ s) ≡ add_tokens (and_operator ∷ []) (tokens_of s)
unfolding next_token
tokens_of-and s =
    tokens_of-space (codes "and " ++ s)
    ∙ tokens_of-next 97 (110 ∷ 100 ∷ 32 ∷ s) refl
    ∙ ap (add_tokens (and_operator ∷ [])) (tokens_of-space s)

pub tokens_of-or :
    (s : Chars) → tokens_of (codes " or " ++ s) ≡ add_tokens (or_operator ∷ []) (tokens_of s)
unfolding next_token
tokens_of-or s =
    tokens_of-space (codes "or " ++ s)
    ∙ tokens_of-next 111 (114 ∷ 32 ∷ s) refl
    ∙ ap (add_tokens (or_operator ∷ [])) (tokens_of-space s)
