-- ===== src/Expressions/ShuntingYard.antt =====
-- The conversion of a well-formed expression (infixToRPN of src/expression/variable_evaluator.go).
use atom_engine.Base.{◌≡◌, refl, sym, ap, ◌∙◌, true, false, none, some, List, [], ◌∷◌, ◌++◌, All}
use mathlib.Core.List.{append_assoc, append-nil}
use atom_engine.Expressions.{
  LogicToken, operand, and_operator, or_operator, not_operator, left_paren, right_paren,
}
use atom_engine.Expressions.Rpn.{
  rpn, no_left_paren, convert, finish, infix_to_rpn, is_left_paren, pop_all, pop_operators,
  pop_to_paren, should_pop,
}
use atom_engine.Expressions.Grammar.{
  Disjunction, conjunction, or, Conjunction, negation, and, Negation, leaf, negate, paren,
  disjunction_tokens, conjunction_tokens, negation_tokens,
}
use atom_engine.Expressions.Postfix.{
  disjunction_rpn, disjunction_stack, conjunction_stack, negation_stack, disjunction_output,
  conjunction_output, negation_output, conjunction_stack-All, disjunction_stack-All,
  disjunction_whole, conjunction_whole,
}

-- The operator takes nothing from the stack.
abbrev Stops : LogicToken → List LogicToken → Type 0
Stops tok stack = pop_operators tok stack ≡ ([], stack)

not-Stops : (stack : List LogicToken) → Stops not_operator stack
unfolding pop_operators
not-Stops [] = refl
not-Stops (operand s ∷ stack) = refl
not-Stops (and_operator ∷ stack) = refl
not-Stops (or_operator ∷ stack) = refl
not-Stops (not_operator ∷ stack) = refl
not-Stops (left_paren ∷ stack) = refl
not-Stops (right_paren ∷ stack) = refl

pop_operators-append :
    (tok : LogicToken) (popped stack : List LogicToken)
    → All (λ t. should_pop tok t ≡ true) popped
    → Stops tok stack
    → pop_operators tok (popped ++ stack) ≡ (popped, stack)
unfolding pop_operators
pop_operators-append tok [] stack h stops = stops
pop_operators-append tok (t ∷ popped) stack (h, hs) stops =
    simp (h, pop_operators-append tok popped stack hs stops)

pop_to_paren-append :
    (popped stack : List LogicToken)
    → All (λ t. is_left_paren t ≡ false) popped
    → pop_to_paren (popped ++ (left_paren ∷ stack)) ≡ some (popped, stack)
unfolding pop_to_paren
pop_to_paren-append [] stack h = refl
pop_to_paren-append (t ∷ popped) stack (h, hs) = simp (h, pop_to_paren-append popped stack hs)

pop_all_operators :
    (stack : List LogicToken)
    → All (λ t. is_left_paren t ≡ false) stack
    → pop_all stack ≡ some stack
unfolding pop_all
pop_all_operators [] h = refl
pop_all_operators (t ∷ stack) (h, hs) = simp (h, pop_all_operators stack hs)

-- Reading an expression, and what comes after it.
mutual
  unfolding convert disjunction_tokens disjunction_stack disjunction_output disjunction_rpn

  convert-disjunction :
      (d : Disjunction) (ts stack output : List LogicToken)
      → Stops or_operator stack
      → Stops and_operator stack
      → convert (disjunction_tokens d ++ ts) stack output
        ≡ convert ts (disjunction_stack d ++ stack) (output ++ disjunction_output d)
  convert-disjunction (conjunction c) ts stack output stops_or stops =
      convert-conjunction c ts stack output stops
  convert-disjunction (or d c) ts stack output stops_or stops =
      let pops =
        pop_operators-append or_operator (disjunction_stack d) stack
          (disjunction_stack-All (λ t. should_pop or_operator t ≡ true) refl refl refl d)
          stops_or in
      ap (λ x. convert x stack output)
        (append_assoc (disjunction_tokens d) (or_operator ∷ conjunction_tokens c) ts)
      ∙ convert-disjunction d (or_operator ∷ (conjunction_tokens c ++ ts)) stack output stops_or
          stops
      ∙ ap
          (λ p.
            convert (conjunction_tokens c ++ ts) (or_operator ∷ p.1)
              ((output ++ disjunction_output d) ++ p.0))
          pops
      ∙ convert-conjunction c ts (or_operator ∷ stack)
          ((output ++ disjunction_output d) ++ disjunction_stack d) refl
      ∙ simp (append_assoc, ← disjunction_whole d)

  convert-conjunction :
      (c : Conjunction) (ts stack output : List LogicToken)
      → Stops and_operator stack
      → convert (conjunction_tokens c ++ ts) stack output
        ≡ convert ts (conjunction_stack c ++ stack) (output ++ conjunction_output c)
  convert-conjunction (negation n) ts stack output stops = convert-negation n ts stack output
  convert-conjunction (and c n) ts stack output stops =
      let pops =
        pop_operators-append and_operator (conjunction_stack c) stack
          (conjunction_stack-All (λ t. should_pop and_operator t ≡ true) refl refl c) stops in
      ap (λ x. convert x stack output)
        (append_assoc (conjunction_tokens c) (and_operator ∷ negation_tokens n) ts)
      ∙ convert-conjunction c (and_operator ∷ (negation_tokens n ++ ts)) stack output stops
      ∙ ap
          (λ p.
            convert (negation_tokens n ++ ts) (and_operator ∷ p.1)
              ((output ++ conjunction_output c) ++ p.0))
          pops
      ∙ convert-negation n ts (and_operator ∷ stack)
          ((output ++ conjunction_output c) ++ conjunction_stack c)
      ∙ simp (append_assoc, ← conjunction_whole c)

  convert-negation :
      (n : Negation) (ts stack output : List LogicToken)
      → convert (negation_tokens n ++ ts) stack output
        ≡ convert ts (negation_stack n ++ stack) (output ++ negation_output n)
  convert-negation (leaf s) ts stack output = refl
  convert-negation (negate n) ts stack output =
      ap (λ p. convert (negation_tokens n ++ ts) (not_operator ∷ p.1) (output ++ p.0))
        (not-Stops stack)
      ∙ convert-negation n ts (not_operator ∷ stack) (output ++ [])
      ∙ simp (append_assoc)
  convert-negation (paren d) ts stack output =
      let pops =
        pop_to_paren-append (disjunction_stack d) stack
          (disjunction_stack-All (λ t. is_left_paren t ≡ false) refl refl refl d) in
      ap (λ x. convert x (left_paren ∷ stack) output)
        (append_assoc (disjunction_tokens d) (right_paren ∷ []) ts)
      ∙ convert-disjunction d (right_paren ∷ ts) (left_paren ∷ stack) output refl refl
      ∙ ap
          (λ o. elim o [
            | none ↦ no_left_paren
            | some (popped, left) ↦ convert ts left ((output ++ disjunction_output d) ++ popped)
          ])
          pops
      ∙ simp (append_assoc, ← disjunction_whole d)

pub infix_to_rpn-disjunction :
    (d : Disjunction) → infix_to_rpn (disjunction_tokens d) ≡ rpn (disjunction_rpn d)
unfolding infix_to_rpn convert
infix_to_rpn-disjunction d =
    let stack = disjunction_stack d in
    let operators = disjunction_stack-All (λ t. is_left_paren t ≡ false) refl refl refl d in
    ap (λ ts. convert ts [] []) (sym (append-nil (disjunction_tokens d)))
    ∙ convert-disjunction d [] [] [] refl refl
    ∙ ap (λ s. convert [] s (disjunction_output d)) (append-nil stack)
    ∙ ap (finish (disjunction_output d)) (pop_all_operators stack operators)
    ∙ ap rpn (disjunction_whole d)
