-- ===== src/Expressions/Termination.antt =====
-- The tokenizer comes to an end (tokenizeLogicalExpression of src/expression/variable_evaluator.go).
use atom_engine.Base.{
  ℕ, zero, suc, ◌≤◌, ◌<◌, ◌≡◌, refl, ap, false, ◌||◌, some, List, [], ◌∷◌, ◌++◌, ◌==◌, arith, drop,
  length, length-append, length-drop, Bool-cases, if_cases, inl, inr,
}
use atom_engine.Expressions.{
  Chars, LogicToken, and_operator, or_operator, not_operator, left_paren, right_paren, add_tokens,
  codes, depth_after, ends_operand, has_prefix, next_token, operand_tokens, scan_operand,
  skip_spaces, tokenize_loop, trim_space,
}

pub length-skip_spaces : (s : Chars) → length (skip_spaces s) ≤ length s
unfolding skip_spaces
length-skip_spaces [] = omega arith
length-skip_spaces (c ∷ s) = ground (arith, length-skip_spaces s)

abbrev pub NoSpaceFirst : Chars → Type 0
NoSpaceFirst [] = Unit
NoSpaceFirst (c ∷ s) = c == 32 ≡ false

pub skip_spaces_head : (s : Chars) → NoSpaceFirst (skip_spaces s)
unfolding skip_spaces
skip_spaces_head [] = tt
skip_spaces_head (c ∷ s) = elim (Bool-cases (c == 32)) [
  | inl y ↦ rw y (skip_spaces_head s)
  | inr n ↦ rw n n
]

length-scan_operand : (depth : ℕ) (s : Chars) → length (scan_operand depth s).1 ≤ length s
unfolding scan_operand
length-scan_operand depth [] = omega arith
length-scan_operand depth (c ∷ s) = elim (Bool-cases (ends_operand depth (c ∷ s))) [
  | inl y ↦ simp y (omega arith)
  | inr n ↦ simp n (omega (arith, length-scan_operand (depth_after depth c) s))
]

-- A character that is neither a space nor a closing parenthesis belongs to the operand.
scan_operand_starts :
    (c : ℕ) (s : Chars)
    → c == 32 ≡ false
    → c == 41 ≡ false
    → scan_operand 0 (c ∷ s)
      ≡ (c ∷ (scan_operand (depth_after 0 c) s).0, (scan_operand (depth_after 0 c) s).1)
unfolding scan_operand
scan_operand_starts c s no_space no_paren = simp (no_space, no_paren)

length-operand_tokens : (s : Chars) → length (operand_tokens s) ≤ 1
length-operand_tokens [] = omega arith
length-operand_tokens (c ∷ s) = omega arith

-- What a round is to do: it takes a character at least, and adds a token at most.
abbrev pub Progress : Chars → List LogicToken × Chars → Type 0
Progress s r = (length r.1 < length s) × (length r.0 ≤ 1)

drop-Progress :
    (t : LogicToken) (n c : ℕ) (s : Chars) → Progress (c ∷ s) (t ∷ [], drop (suc n) (c ∷ s))
drop-Progress t n c s = (omega (arith, length-drop n s), omega arith)

pub next_token-Progress :
    (c : ℕ) (s : Chars) → c == 32 ≡ false → Progress (c ∷ s) (next_token (c ∷ s))
unfolding next_token
next_token-Progress c s no_space =
    let P = Progress (c ∷ s) in
    if_cases P (has_prefix (c ∷ s) (codes "(")) (λ _. drop-Progress left_paren 0 c s)
      (λ _.
        if_cases P (has_prefix (c ∷ s) (codes ")")) (λ _. drop-Progress right_paren 0 c s)
          (λ inside.
            if_cases P (has_prefix (c ∷ s) (codes "not ") || has_prefix (c ∷ s) (codes "not("))
              (λ _. drop-Progress not_operator 2 c s)
              (λ _.
                if_cases P (has_prefix (c ∷ s) (codes "and "))
                  (λ _. drop-Progress and_operator 2 c s)
                  (λ _.
                    if_cases P (has_prefix (c ∷ s) (codes "or "))
                      (λ _. drop-Progress or_operator 1 c s) (λ _. rest_progress inside)))))
  where
    rest_progress :
        has_prefix (c ∷ s) (codes ")") ≡ false
        → Progress
            (c ∷ s)
            (operand_tokens (trim_space (scan_operand 0 (c ∷ s)).0), (scan_operand 0 (c ∷ s)).1)
    rest_progress inside =
        rw (scan_operand_starts c s no_space (ground (arith, inside)))
          (omega (arith, length-scan_operand (depth_after 0 c) s), length-operand_tokens _)

-- Rounds as many as there are characters, and one more, are enough for the tokenizer to come to its
-- end, and it gives at most one token for a character.
pub tokenize_loop-ends :
    (fuel : ℕ) (s : Chars)
    → length s < fuel
    → (ts : List LogicToken) × (tokenize_loop fuel s ≡ some ts) × (length ts ≤ length s)
unfolding tokenize_loop
tokenize_loop-ends zero s enough = absurd (omega arith)
tokenize_loop-ends (suc fuel) s enough =
    round (skip_spaces s) (skip_spaces_head s) (length-skip_spaces s)
      (λ rest. tokenize_loop-ends fuel rest)
  where
    round :
        (left : Chars)
        → NoSpaceFirst left
        → length left ≤ length s
        → ((rest : Chars)
            → length rest < fuel
            → (ts : List LogicToken) × (tokenize_loop fuel rest ≡ some ts)
              × (length ts ≤ length rest))
        → (ts : List LogicToken) × (elim left [
          | [] ↦ some []
          | c ∷ r ↦ add_tokens (next_token (c ∷ r)).0 (tokenize_loop fuel (next_token (c ∷ r)).1)
        ]
            ≡ some ts)
          × (length ts ≤ length s)
    round [] head less later = ([], refl, omega arith)
    round (c ∷ r) head less later =
        let (taken, few) = next_token-Progress c r head in
        let (ts, done, bounded) = later (next_token (c ∷ r)).1 (omega arith) in
        (
          (next_token (c ∷ r)).0 ++ ts,
          ap (add_tokens (next_token (c ∷ r)).0) done,
          omega (arith, length-append {0} (next_token (c ∷ r)).0 ts),
        )
