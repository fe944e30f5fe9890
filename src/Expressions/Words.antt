-- ===== src/Expressions/Words.antt =====
-- How the tokenizer reads an operand (tokenizeLogicalExpression of
-- src/expression/variable_evaluator.go).
use atom_engine.Base.{
  ℕ, ◌≡◌, refl, sym, ap, subst, ◌∙◌, Bool, true, false, ◌||◌, ◌&&◌, List, [], ◌∷◌, ◌++◌, ◌==◌,
  arith, All, ◌⊎◌, Bool-cases, inl, inr, if◌then◌else◌,
}
use mathlib.Core.List.{reverse, reverse-reverse}
use atom_engine.Expressions.{
  Chars, LogicToken, operand, add_tokens, codes, depth_after, ends_operand, has_prefix, is_space,
  next_token, operand_tokens, scan_operand, trim_left, trim_space,
}
use atom_engine.Expressions.Text.{BeginsVisibly, HasNoOperator, IsOperand}
use atom_engine.Expressions.Rounds.{tokens_of, tokens_of-next}

-- Here an operand ends.
abbrev pub Ends : Chars → Type 0
Ends rest = ends_operand 0 rest ≡ true

Ends-cases : (c : ℕ) (s : Chars) → Ends (c ∷ s) → (c == 41 ≡ true) ⊎ (c == 32 ≡ true)
Ends-cases c s ends = elim (Bool-cases (c == 41)) [
  | inl y ↦ inl y
  | inr n ↦ inr (ground (arith, ends, n))
]

-- No space and no parenthesis.
abbrev IsLetter : ℕ → Type 0
IsLetter c = (c == 32 ≡ false) × (c == 40 ≡ false) × (c == 41 ≡ false)

-- A prefix that ends in a space is one of the text before the end with a space behind it.
has_prefix-space :
    (word s rest : Chars)
    → All IsLetter word
    → Ends rest
    → has_prefix (s ++ codes " ") (word ++ codes " ") ≡ false
    → has_prefix (s ++ rest) (word ++ codes " ") ≡ false
has_prefix-space [] [] [] letters ends h = refl
has_prefix-space (x ∷ word) [] [] letters ends h = refl
has_prefix-space [] [] (c ∷ rest) letters ends h = cc
has_prefix-space (x ∷ word) [] (c ∷ rest) (letter, letters) ends h = elim (Ends-cases c rest ends) [
  | inl e ↦ ground (arith, letter, e)
  | inr e ↦ ground (arith, letter, e)
]
has_prefix-space [] (c ∷ s) rest letters ends h = h
has_prefix-space (x ∷ word) (c ∷ s) rest (letter, letters) ends h = elim (Bool-cases (c == x)) [
  | inl y ↦ rw y (
      has_prefix-space word s rest letters ends
        (subst (λ b. (b && has_prefix (s ++ codes " ") (word ++ codes " ")) ≡ false) y h))
  | inr n ↦ rw n refl
]

-- A text without parentheses does not begin with a word that one follows.
has_prefix-paren :
    (word s rest : Chars)
    → All IsLetter word
    → Ends rest
    → HasNoOperator s
    → has_prefix (s ++ rest) (word ++ codes "(") ≡ false
has_prefix-paren [] [] [] letters ends plain = refl
has_prefix-paren (x ∷ word) [] [] letters ends plain = refl
has_prefix-paren [] [] (c ∷ rest) letters ends plain = elim (Ends-cases c rest ends) [
  | inl e ↦ ground (arith, e)
  | inr e ↦ ground (arith, e)
]
has_prefix-paren (x ∷ word) [] (c ∷ rest) (letter, letters) ends plain =
    elim (Ends-cases c rest ends) [
      | inl e ↦ ground (arith, letter, e)
      | inr e ↦ ground (arith, letter, e)
    ]
has_prefix-paren [] (c ∷ s) rest letters ends plain = rw plain.0 refl
has_prefix-paren (x ∷ word) (c ∷ s) rest (letter, letters) ends plain = elim (Bool-cases (c == x)) [
  | inl y ↦ rw y (has_prefix-paren word s rest letters ends plain.4)
  | inr n ↦ rw n refl
]

and_IsLetter : All IsLetter (codes "and")
and_IsLetter = ((refl, refl, refl), ((refl, refl, refl), ((refl, refl, refl), tt)))

or_IsLetter : All IsLetter (codes "or")
or_IsLetter = ((refl, refl, refl), ((refl, refl, refl), tt))

not_IsLetter : All IsLetter (codes "not")
not_IsLetter = ((refl, refl, refl), ((refl, refl, refl), ((refl, refl, refl), tt)))

-- The same of an operator within the text.
has_prefix-operator :
    (word : Chars) (c : ℕ) (s rest : Chars)
    → All IsLetter word
    → Ends rest
    → has_prefix ((c ∷ s) ++ codes " ") (32 ∷ (word ++ codes " ")) ≡ false
    → has_prefix ((c ∷ s) ++ rest) (32 ∷ (word ++ codes " ")) ≡ false
has_prefix-operator word c s rest letters ends h = elim (Bool-cases (c == 32)) [
  | inl y ↦
      ap (λ b. b && has_prefix (s ++ rest) (word ++ codes " ")) y
      ∙ has_prefix-space word s rest letters ends
          (ap (λ b. b && has_prefix (s ++ codes " ") (word ++ codes " ")) (sym y) ∙ h)
  | inr n ↦ ap (λ b. b && has_prefix (s ++ rest) (word ++ codes " ")) n
]

or_false : {a b c : Bool} → a ≡ false → b ≡ false → c ≡ false → ((a || b) || c) ≡ false
or_false {a} {b} {c} h k l = ground (arith, h, k, l)

if_false {ℓ} : {A : Type ℓ} (b : Bool) (x y : A) → b ≡ false → (if b then x else y) ≡ y
if_false b x y h = ap (λ t. if t then x else y) h

-- The scan of an operand takes exactly the operand.
scan_operand-append :
    (s rest : Chars) → HasNoOperator s → Ends rest → scan_operand 0 (s ++ rest) ≡ (s, rest)
unfolding scan_operand
scan_operand-append [] [] plain ends = refl
scan_operand-append [] (c ∷ rest) plain ends = simp ends
scan_operand-append (c ∷ s) rest (no_left, no_right, no_and, no_or, plain) ends =
    let inside : ends_operand 0 ((c ∷ s) ++ rest) ≡ false =
      or_false no_right (has_prefix-operator (codes "and") c s rest and_IsLetter ends no_and)
        (has_prefix-operator (codes "or") c s rest or_IsLetter ends no_or) in
    ap
      (λ b. if b then ([], (c ∷ s) ++ rest) else (
        c ∷ (scan_operand (depth_after 0 c) (s ++ rest)).0,
        (scan_operand (depth_after 0 c) (s ++ rest)).1,
      ))
      inside
    ∙ ap (λ (d : ℕ). (c ∷ (scan_operand d (s ++ rest)).0, (scan_operand d (s ++ rest)).1))
        (ground (arith, no_left, no_right))
    ∙ ap (λ (r : Chars × Chars). (c ∷ r.0, r.1)) (scan_operand-append s rest plain ends)

trim_left-visible : (s : Chars) → BeginsVisibly s → trim_left s ≡ s
unfolding trim_left
trim_left-visible [] begins = refl
trim_left-visible (c ∷ s) begins = simp begins

space_visible : (c : ℕ) → is_space c ≡ false → c == 32 ≡ false
space_visible c visible = elim (Bool-cases (c == 32)) [
  | inl y ↦ ground (arith, y, visible)
  | inr n ↦ n
]

pub trim_space-visible :
    (s : Chars) → BeginsVisibly s → BeginsVisibly (reverse s) → trim_space s ≡ s
unfolding trim_space
trim_space-visible s begins ends =
    ap (λ t. reverse (trim_left (reverse t))) (trim_left-visible s begins)
    ∙ ap reverse (trim_left-visible (reverse s) ends)
    ∙ reverse-reverse s

next_token-operand :
    (c : ℕ) (s rest : Chars)
    → IsOperand (c ∷ s)
    → Ends rest
    → next_token ((c ∷ s) ++ rest) ≡ (operand (c ∷ s) ∷ [], rest)
unfolding next_token
next_token-operand c s rest is ends =
    let text = (c ∷ s) ++ rest in
    if_false (has_prefix text (codes "(")) _ _ (ap (λ b. b && true) is.plain.0)
    ∙ if_false (has_prefix text (codes ")")) _ _ (ap (λ b. b && true) is.plain.1)
    ∙ if_false (has_prefix text (codes "not ") || has_prefix text (codes "not(")) _ _ (
        ground (
          arith,
          has_prefix-space (codes "not") (c ∷ s) rest not_IsLetter ends is.not_not,
          has_prefix-paren (codes "not") (c ∷ s) rest not_IsLetter ends is.plain,
        ))
    ∙ if_false (has_prefix text (codes "and ")) _ _
        (has_prefix-space (codes "and") (c ∷ s) rest and_IsLetter ends is.not_and)
    ∙ if_false (has_prefix text (codes "or ")) _ _
        (has_prefix-space (codes "or") (c ∷ s) rest or_IsLetter ends is.not_or)
    ∙ ap (λ (r : Chars × Chars). (operand_tokens (trim_space r.0), r.1))
        (scan_operand-append (c ∷ s) rest is.plain ends)
    ∙ ap (λ (t : Chars). (operand_tokens t, rest)) (trim_space-visible (c ∷ s) is.begins is.ends)

pub tokens_of-operand :
    (s rest : Chars)
    → IsOperand s
    → Ends rest
    → tokens_of (s ++ rest) ≡ add_tokens (operand s ∷ []) (tokens_of rest)
tokens_of-operand [] rest is ends = absurd is.begins
tokens_of-operand (c ∷ s) rest is ends =
    tokens_of-next c (s ++ rest) (space_visible c is.begins)
    ∙ ap (λ (r : List LogicToken × Chars). add_tokens r.0 (tokens_of r.1))
        (next_token-operand c s rest is ends)
