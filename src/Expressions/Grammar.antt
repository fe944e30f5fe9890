-- ===== src/Expressions/Grammar.antt =====
-- The grammar of the logical expressions of FEEL, as a reference for the conversion to postfix
-- notation: `not` binds more strongly than `and`, and that more strongly than `or`.
use atom_engine.Base.{Bool, Option, none, some, List, [], ◌∷◌, ◌++◌, String}
use atom_engine.Token.{Value}
use atom_engine.Expressions.{
  Chars, LogicToken, operand, and_operator, or_operator, not_operator, left_paren, right_paren,
}
use atom_engine.Expressions.Logic.{apply_logical_operator}

mutual
  pub data Disjunction : Type 0 where
    conjunction : Conjunction → Disjunction
    or : Disjunction → Conjunction → Disjunction

  pub data Conjunction : Type 0 where
    negation : Negation → Conjunction
    and : Conjunction → Negation → Conjunction

  pub data Negation : Type 0 where
    leaf : Chars → Negation
    negate : Negation → Negation
    paren : Disjunction → Negation

-- How an expression is written.
unfoldable mutual
  pub disjunction_tokens : Disjunction → List LogicToken
  disjunction_tokens (conjunction c) = conjunction_tokens c
  disjunction_tokens (or d c) = disjunction_tokens d ++ (or_operator ∷ conjunction_tokens c)

  pub conjunction_tokens : Conjunction → List LogicToken
  conjunction_tokens (negation n) = negation_tokens n
  conjunction_tokens (and c n) = conjunction_tokens c ++ (and_operator ∷ negation_tokens n)

  pub negation_tokens : Negation → List LogicToken
  negation_tokens (leaf s) = operand s ∷ []
  negation_tokens (negate n) = not_operator ∷ negation_tokens n
  negation_tokens (paren d) = left_paren ∷ (disjunction_tokens d ++ (right_paren ∷ []))

abbrev pub both : (Value → Value → Value) → Option Value → Option Value → Option Value
both f none right = none
both f (some left) none = none
both f (some left) (some right) = some (f left right)

module _ (evaluate : Chars → Option Value) (is_zero : String → Bool) where
  abbrev apply : LogicToken → Value → Value → Value
  apply = apply_logical_operator evaluate is_zero

  -- What an expression means; `none` is an operand that fails.
  unfoldable mutual
    pub disjunction_value : Disjunction → Option Value
    disjunction_value (conjunction c) = conjunction_value c
    disjunction_value (or d c) =
        both (apply or_operator) (disjunction_value d) (conjunction_value c)

    pub conjunction_value : Conjunction → Option Value
    conjunction_value (negation n) = negation_value n
    conjunction_value (and c n) = both (apply and_operator) (conjunction_value c) (negation_value n)

    pub negation_value : Negation → Option Value
    negation_value (leaf s) = evaluate s
    negation_value (negate n) = both (apply not_operator) (negation_value n) (some Value.null)
    negation_value (paren d) = disjunction_value d
