-- ===== src/Expressions/Rpn.antt =====
-- The conversion to postfix notation (infixToRPN of src/expression/variable_evaluator.go) and its
-- evaluation (evaluateRPN). A stack is a list with its top first.
use atom_engine.Base.{
  ℕ, Bool, true, false, not, ◌&&◌, Option, none, some, List, [], ◌∷◌, ◌++◌, leb, ltb, if◌then◌else◌,
}
use atom_engine.Expressions.{
  LogicToken, operand, and_operator, or_operator, not_operator, left_paren, right_paren,
}

unfoldable pub get_operator_precedence : LogicToken → ℕ
get_operator_precedence not_operator = 3
get_operator_precedence and_operator = 2
get_operator_precedence or_operator = 1
get_operator_precedence _ = 0

abbrev pub is_left_paren : LogicToken → Bool
is_left_paren left_paren = true
is_left_paren _ = false

abbrev pub is_not : LogicToken → Bool
is_not not_operator = true
is_not _ = false

-- `not` is right-associative.
unfoldable pub should_pop : LogicToken → LogicToken → Bool
unfolding get_operator_precedence
should_pop tok top =
    not (is_left_paren top)
    && (if is_not tok
        then ltb (get_operator_precedence tok) (get_operator_precedence top)
        else leb (get_operator_precedence tok) (get_operator_precedence top))

-- The loop of an operator: what it takes from the stack, and the stack that it leaves.
unfoldable pub pop_operators : LogicToken → List LogicToken → List LogicToken × List LogicToken
unfolding should_pop
pop_operators tok [] = ([], [])
pop_operators tok (top ∷ stack) =
    let (popped, left) = pop_operators tok stack in
    if should_pop tok top then (top ∷ popped, left) else ([], top ∷ stack)

-- The loop of a right parenthesis; `none` where the stack has no left one.
unfoldable pub pop_to_paren : List LogicToken → Option (List LogicToken × List LogicToken)
pop_to_paren [] = none
pop_to_paren (top ∷ stack) =
    let later = pop_to_paren stack in
    if is_left_paren top
    then some ([], stack)
    else elim later [ none ↦ none | some (popped, left) ↦ some (top ∷ popped, left) ]

-- The last loop; `none` where a left parenthesis is left.
unfoldable pub pop_all : List LogicToken → Option (List LogicToken)
pop_all [] = some []
pop_all (top ∷ stack) =
    let later = pop_all stack in
    if is_left_paren top then none else elim later [ none ↦ none | some ts ↦ some (top ∷ ts) ]

pub data Rpn : Type 0 where
  no_left_paren unclosed_left_paren : Rpn
  rpn : List LogicToken → Rpn

abbrev pub finish : List LogicToken → Option (List LogicToken) → Rpn
finish output none = unclosed_left_paren
finish output (some popped) = rpn (output ++ popped)

-- The loop over the tokens, with the stack and the output so far.
unfoldable pub convert : List LogicToken → List LogicToken → List LogicToken → Rpn
unfolding pop_operators pop_to_paren pop_all
convert [] stack output = finish output (pop_all stack)
convert (operand s ∷ ts) stack output = convert ts stack (output ++ operand s ∷ [])
convert (left_paren ∷ ts) stack output = convert ts (left_paren ∷ stack) output
convert (right_paren ∷ ts) stack output = elim (pop_to_paren stack) [
  | none ↦ no_left_paren
  | some (popped, left) ↦ convert ts left (output ++ popped)
]
convert (tok ∷ ts) stack output =
    convert ts (tok ∷ (pop_operators tok stack).1) (output ++ (pop_operators tok stack).0)

unfoldable pub infix_to_rpn : List LogicToken → Rpn
unfolding convert
infix_to_rpn tokens = convert tokens [] []
