-- ===== src/Expressions/Postfix.antt =====
-- The postfix notation of a well-formed expression, and the part of it that the conversion of
-- src/expression/variable_evaluator.go (infixToRPN) has on its stack at the end of the expression.
use atom_engine.Base.{◌≡◌, refl, sym, ap, ◌∙◌, List, [], ◌∷◌, ◌++◌, All, All-append}
use mathlib.Core.List.{append_assoc, append-nil}
use atom_engine.Expressions.{LogicToken, operand, and_operator, or_operator, not_operator}
use atom_engine.Expressions.Grammar.{
  Disjunction, conjunction, or, Conjunction, negation, and, Negation, leaf, negate, paren,
}

-- The postfix notation of an expression.
unfoldable mutual
  pub disjunction_rpn : Disjunction → List LogicToken
  disjunction_rpn (conjunction c) = conjunction_rpn c
  disjunction_rpn (or d c) = disjunction_rpn d ++ (conjunction_rpn c ++ (or_operator ∷ []))

  pub conjunction_rpn : Conjunction → List LogicToken
  conjunction_rpn (negation n) = negation_rpn n
  conjunction_rpn (and c n) = conjunction_rpn c ++ (negation_rpn n ++ (and_operator ∷ []))

  pub negation_rpn : Negation → List LogicToken
  negation_rpn (leaf s) = operand s ∷ []
  negation_rpn (negate n) = negation_rpn n ++ (not_operator ∷ [])
  negation_rpn (paren d) = disjunction_rpn d

-- What an expression puts on the stack.
unfoldable mutual
  pub disjunction_stack : Disjunction → List LogicToken
  disjunction_stack (conjunction c) = conjunction_stack c
  disjunction_stack (or d c) = conjunction_stack c ++ (or_operator ∷ [])

  pub conjunction_stack : Conjunction → List LogicToken
  conjunction_stack (negation n) = negation_stack n
  conjunction_stack (and c n) = negation_stack n ++ (and_operator ∷ [])

  pub negation_stack : Negation → List LogicToken
  negation_stack (leaf s) = []
  negation_stack (negate n) = negation_stack n ++ (not_operator ∷ [])
  negation_stack (paren d) = []

-- What it has put out by then.
unfoldable mutual
  pub disjunction_output : Disjunction → List LogicToken
  disjunction_output (conjunction c) = conjunction_output c
  disjunction_output (or d c) = disjunction_rpn d ++ conjunction_output c

  pub conjunction_output : Conjunction → List LogicToken
  conjunction_output (negation n) = negation_output n
  conjunction_output (and c n) = conjunction_rpn c ++ negation_output n

  pub negation_output : Negation → List LogicToken
  negation_output (leaf s) = operand s ∷ []
  negation_output (negate n) = negation_output n
  negation_output (paren d) = disjunction_rpn d

-- Both together are the postfix notation.
mutual
  unfolding disjunction_rpn disjunction_stack disjunction_output

  pub disjunction_whole :
      (d : Disjunction) → disjunction_output d ++ disjunction_stack d ≡ disjunction_rpn d
  disjunction_whole (conjunction c) = conjunction_whole c
  disjunction_whole (or d c) =
      append_assoc (disjunction_rpn d) (conjunction_output c)
        (conjunction_stack c ++ (or_operator ∷ []))
      ∙ ap (disjunction_rpn d ++◌) (
          sym (append_assoc (conjunction_output c) (conjunction_stack c) (or_operator ∷ []))
          ∙ ap (◌++ (or_operator ∷ [])) (conjunction_whole c))

  pub conjunction_whole :
      (c : Conjunction) → conjunction_output c ++ conjunction_stack c ≡ conjunction_rpn c
  conjunction_whole (negation n) = negation_whole n
  conjunction_whole (and c n) =
      append_assoc (conjunction_rpn c) (negation_output n) (negation_stack n ++ (and_operator ∷ []))
      ∙ ap (conjunction_rpn c ++◌) (
          sym (append_assoc (negation_output n) (negation_stack n) (and_operator ∷ []))
          ∙ ap (◌++ (and_operator ∷ [])) (negation_whole n))

  negation_whole : (n : Negation) → negation_output n ++ negation_stack n ≡ negation_rpn n
  negation_whole (leaf s) = refl
  negation_whole (negate n) =
      sym (append_assoc (negation_output n) (negation_stack n) (not_operator ∷ []))
      ∙ ap (◌++ (not_operator ∷ [])) (negation_whole n)
  negation_whole (paren d) = append-nil (disjunction_rpn d)

-- What holds of the operators holds of all that an expression puts on the stack.
module _ (P : LogicToken → Type 0) (on_not : P not_operator) where
  negation_stack-All : (n : Negation) → All P (negation_stack n)
  unfolding negation_stack
  negation_stack-All (leaf s) = tt
  negation_stack-All (negate n) =
      All-append P (negation_stack n) (not_operator ∷ []) (negation_stack-All n) (on_not, tt)
  negation_stack-All (paren d) = tt

  module _ (on_and : P and_operator) where
    pub conjunction_stack-All : (c : Conjunction) → All P (conjunction_stack c)
    unfolding conjunction_stack
    conjunction_stack-All (negation n) = negation_stack-All n
    conjunction_stack-All (and c n) =
        All-append P (negation_stack n) (and_operator ∷ []) (negation_stack-All n) (on_and, tt)

    pub disjunction_stack-All : P or_operator → (d : Disjunction) → All P (disjunction_stack d)
    unfolding disjunction_stack
    disjunction_stack-All on_or (conjunction c) = conjunction_stack-All c
    disjunction_stack-All on_or (or d c) =
        All-append P (conjunction_stack c) (or_operator ∷ []) (conjunction_stack-All c) (on_or, tt)
