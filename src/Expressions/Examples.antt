-- ===== src/Expressions/Examples.antt =====
-- The expression `not paid and (total > 100 or vip)`.
use atom_engine.Base.{
  ◌≡◌, ◌≤◌, refl, String, Bool, true, false, Option, some, List, [], ◌∷◌, ◌==◌, length, str_eq,
  arith, if◌then◌else◌,
}
use atom_engine.Token.{Value}
use atom_engine.Expressions.{
  Chars, LogicToken, operand, and_operator, or_operator, not_operator, left_paren, right_paren,
  codes, tokenize_logical_expression, tokenize_loop, tokenized,
}
use atom_engine.Expressions.Grammar.{
  Disjunction, conjunction, or, negation, and, leaf, negate, paren, disjunction_tokens,
  disjunction_value,
}
use atom_engine.Expressions.Logic.{value, evaluate_logical_expression, apply_logical_operator}
use atom_engine.Expressions.Text.{HasOperands, IsOperand, disjunction_text}
use atom_engine.Expressions.Termination.{tokenize_loop-ends}
use atom_engine.Expressions.Reading.{
  evaluate_logical_expression-meaning, tokenize_logical_expression-text,
}

abbrev paid : Chars
paid = codes "paid"

abbrev large : Chars
large = codes "total > 100"

abbrev vip : Chars
vip = codes "vip"

abbrev expression : Disjunction
expression = conjunction (
    and (negation (negate (leaf paid)))
      (paren (or (conjunction (negation (leaf large))) (negation (leaf vip)))))

paid-IsOperand : IsOperand paid
paid-IsOperand = record {
  begins = refl;
  ends = refl;
  plain = ground arith;
  not_not = refl;
  not_and = refl;
  not_or = refl;
}

large-IsOperand : IsOperand large
large-IsOperand = record {
  begins = refl;
  ends = refl;
  plain = ground arith;
  not_not = refl;
  not_and = refl;
  not_or = refl;
}

vip-IsOperand : IsOperand vip
vip-IsOperand = record {
  begins = refl;
  ends = refl;
  plain = ground arith;
  not_not = refl;
  not_and = refl;
  not_or = refl;
}

expression-HasOperands : HasOperands expression
unfolding HasOperands
expression-HasOperands = (paid-IsOperand, (large-IsOperand, vip-IsOperand))

-- Not paid, no total, and a good customer.
abbrev evaluate : Chars → Option Value
evaluate s =
    if length s == 4
    then some (Value.boolean false)
    else if length s == 3
    then some (Value.boolean true)
    else some Value.null

abbrev is_zero : String → Bool
is_zero s = str_eq s "0"

tokenize_logical_expression-text_example :
    tokenize_logical_expression (codes "not paid and (total > 100 or vip)")
    ≡ tokenized (
        not_operator
        ∷ operand paid
        ∷ and_operator
        ∷ left_paren
        ∷ operand large
        ∷ or_operator
        ∷ operand vip
        ∷ right_paren
        ∷ [])
unfolding disjunction_text disjunction_tokens
tokenize_logical_expression-text_example =
    tokenize_logical_expression-text expression expression-HasOperands

evaluate_logical_expression-meaning_example :
    evaluate_logical_expression evaluate is_zero (codes "not paid and (total > 100 or vip)")
    ≡ value (Value.boolean true)
unfolding disjunction_text disjunction_value apply_logical_operator
evaluate_logical_expression-meaning_example =
    evaluate_logical_expression-meaning evaluate is_zero expression expression-HasOperands

tokenize_loop-ends_example :
    (ts : List LogicToken) × (tokenize_loop 9 (codes "a and b") ≡ some ts)
    × (length ts ≤ length (codes "a and b"))
tokenize_loop-ends_example = tokenize_loop-ends 9 (codes "a and b") (omega arith)

-- A text in quotes is taken apart where it holds an operator.
quoted_text :
    tokenize_logical_expression (codes "name == \"salt and pepper\"")
    ≡ tokenized (operand (codes "name == \"salt") ∷ and_operator ∷ operand (codes "pepper\"") ∷ [])
unfolding tokenize_logical_expression
quoted_text = refl

-- A parenthesis at the front ends its operand.
sum_in_parentheses :
    tokenize_logical_expression (codes "(a + b) > 3")
    ≡ tokenized (left_paren ∷ operand (codes "a + b") ∷ right_paren ∷ operand (codes "> 3") ∷ [])
unfolding tokenize_logical_expression
sum_in_parentheses = refl
