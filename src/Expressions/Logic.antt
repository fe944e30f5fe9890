-- ===== src/Expressions/Logic.antt =====
-- The evaluation of a logical expression (src/expression/variable_evaluator.go). What an operand
-- comes to, by evaluateOperand, and whether a number is zero are parameters.
use atom_engine.Base.{
  Bool, true, false, not, ◌&&◌, ◌||◌, Option, none, some, List, [], ◌∷◌, String, str_eq,
  if◌then◌else◌,
}
use atom_engine.Token.{Value}
use atom_engine.Expressions.{
  Chars, LogicToken, Tokenized, no_fuel, empty_expression, tokenized, operand, and_operator,
  or_operator, not_operator, tokenize_logical_expression,
}
use atom_engine.Expressions.Rpn.{Rpn, no_left_paren, unclosed_left_paren, rpn, infix_to_rpn}

-- A truth value, or null, as a value.
abbrev pub truth : Option Bool → Value
truth none = Value.null
truth (some b) = Value.boolean b

-- `x and null` is false where `x` is, and null otherwise; `or` in the same way for true.
abbrev pub and_null : Option Bool → Option Bool → Option Bool
and_null none none = none
and_null none (some right) = if right then none else some false
and_null (some left) none = if left then none else some false
and_null (some left) (some right) = some (left && right)

abbrev pub or_null : Option Bool → Option Bool → Option Bool
or_null none none = none
or_null none (some right) = if right then some true else none
or_null (some left) none = if left then some true else none
or_null (some left) (some right) = some (left || right)

abbrev pub not_null : Option Bool → Option Bool
not_null none = none
not_null (some b) = some (not b)

pub data LogicError : Type 0 where
  empty mismatched operand_failed too_few_operands no_single_result unexpected_token : LogicError
  not_boolean out_of_fuel : LogicError

pub data Evaluated : Type 0 where
  failed : LogicError → Evaluated
  value : Value → Evaluated

module _ (evaluate : Chars → Option Value) (is_zero : String → Bool) where
  unfoldable pub to_boolean_or_null : Value → Option Bool
  to_boolean_or_null Value.null = none
  to_boolean_or_null (Value.boolean b) = some b
  to_boolean_or_null (Value.number n) = some (not (is_zero n))
  to_boolean_or_null (Value.text s) = some (not (str_eq s ""))
  to_boolean_or_null _ = some true

  -- The right operand of `not` is nil.
  unfoldable pub apply_logical_operator : LogicToken → Value → Value → Value
  unfolding to_boolean_or_null
  apply_logical_operator not_operator left right = truth (not_null (to_boolean_or_null left))
  apply_logical_operator and_operator left right =
      truth (and_null (to_boolean_or_null left) (to_boolean_or_null right))
  apply_logical_operator or_operator left right =
      truth (or_null (to_boolean_or_null left) (to_boolean_or_null right))
  apply_logical_operator _ left right = Value.null

  abbrev pub single_result : List Value → Evaluated
  single_result (v ∷ []) = value v
  single_result _ = failed no_single_result

  -- The loop over the tokens, with the stack, whose top is its first.
  unfoldable pub run_rpn : List LogicToken → List Value → Evaluated
  unfolding apply_logical_operator
  run_rpn [] stack = single_result stack
  run_rpn (operand s ∷ ts) stack = elim (evaluate s) [
    | none ↦ failed operand_failed
    | some v ↦ run_rpn ts (v ∷ stack)
  ]
  run_rpn (not_operator ∷ ts) [] = failed too_few_operands
  run_rpn (not_operator ∷ ts) (v ∷ stack) =
      run_rpn ts (apply_logical_operator not_operator v Value.null ∷ stack)
  run_rpn (and_operator ∷ ts) (right ∷ left ∷ stack) =
      run_rpn ts (apply_logical_operator and_operator left right ∷ stack)
  run_rpn (and_operator ∷ ts) _ = failed too_few_operands
  run_rpn (or_operator ∷ ts) (right ∷ left ∷ stack) =
      run_rpn ts (apply_logical_operator or_operator left right ∷ stack)
  run_rpn (or_operator ∷ ts) _ = failed too_few_operands
  run_rpn (_ ∷ ts) stack = failed unexpected_token

  unfoldable pub evaluate_rpn : List LogicToken → Evaluated
  unfolding run_rpn
  evaluate_rpn ts = run_rpn ts []

  -- Null counts as false.
  abbrev pub to_result : Evaluated → Evaluated
  to_result (value Value.null) = value (Value.boolean false)
  to_result (value (Value.boolean b)) = value (Value.boolean b)
  to_result (value v) = failed not_boolean
  to_result (failed e) = failed e

  abbrev pub evaluate_converted : Rpn → Evaluated
  evaluate_converted no_left_paren = failed mismatched
  evaluate_converted unclosed_left_paren = failed mismatched
  evaluate_converted (rpn ts) = to_result (evaluate_rpn ts)

  -- From the conversion of the tokens on.
  unfoldable pub evaluate_tokens : List LogicToken → Evaluated
  unfolding evaluate_rpn
  evaluate_tokens ts = evaluate_converted (infix_to_rpn ts)

  abbrev pub evaluate_tokenized : Tokenized → Evaluated
  evaluate_tokenized no_fuel = failed out_of_fuel
  evaluate_tokenized empty_expression = failed empty
  evaluate_tokenized (tokenized ts) = evaluate_tokens ts

  unfoldable pub evaluate_logical_expression : Chars → Evaluated
  unfolding evaluate_tokens
  evaluate_logical_expression expr = evaluate_tokenized (tokenize_logical_expression expr)
