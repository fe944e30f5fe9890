-- ===== src/Expressions/Meaning.antt =====
-- The value of a well-formed logical expression (evaluateLogicalExpression of
-- src/expression/variable_evaluator.go).
use atom_engine.Base.{
  ◌≡◌, refl, sym, ap, ◌∙◌, Bool, Option, none, some, List, [], ◌∷◌, ◌++◌, String, Option-cases, inl,
  inr,
}
use mathlib.Core.List.{append_assoc, append-nil}
use atom_engine.Token.{Value}
use atom_engine.Expressions.{Chars, LogicToken}
use atom_engine.Expressions.Logic.{
  Evaluated, failed, value, operand_failed, evaluate_rpn, evaluate_converted, evaluate_tokens,
  run_rpn, to_result,
}
use atom_engine.Expressions.Grammar.{
  Disjunction, conjunction, or, Conjunction, negation, and, Negation, leaf, negate, paren,
  disjunction_tokens, disjunction_value, conjunction_value, negation_value,
}
use atom_engine.Expressions.Postfix.{disjunction_rpn, conjunction_rpn, negation_rpn}
use atom_engine.Expressions.ShuntingYard.{infix_to_rpn-disjunction}

abbrev pub outcome : Option Value → Evaluated
outcome none = failed operand_failed
outcome (some v) = value v

module _ (evaluate : Chars → Option Value) (is_zero : String → Bool) where
  -- Going on with a value on the stack.
  abbrev goes_on : List LogicToken → List Value → Option Value → Evaluated
  goes_on ts stack none = failed operand_failed
  goes_on ts stack (some v) = run_rpn evaluate is_zero ts (v ∷ stack)

  mutual
    unfolding run_rpn disjunction_rpn disjunction_value

    run_rpn-disjunction :
        (d : Disjunction) (ts : List LogicToken) (stack : List Value)
        → run_rpn evaluate is_zero (disjunction_rpn d ++ ts) stack
          ≡ goes_on ts stack (disjunction_value evaluate is_zero d)
    run_rpn-disjunction (conjunction c) ts stack = run_rpn-conjunction c ts stack
    run_rpn-disjunction (or d c) ts stack =
        elim (Option-cases (disjunction_value evaluate is_zero d)) [
          | inl fails ↦ simp (append_assoc, run_rpn-disjunction d, fails)
          | inr (v, left) ↦ elim (Option-cases (conjunction_value evaluate is_zero c)) [
            | inl fails ↦
                simp (append_assoc, run_rpn-disjunction d, left, run_rpn-conjunction c, fails)
            | inr (w, right) ↦
                simp (append_assoc, run_rpn-disjunction d, left, run_rpn-conjunction c, right)
          ]
        ]

    run_rpn-conjunction :
        (c : Conjunction) (ts : List LogicToken) (stack : List Value)
        → run_rpn evaluate is_zero (conjunction_rpn c ++ ts) stack
          ≡ goes_on ts stack (conjunction_value evaluate is_zero c)
    run_rpn-conjunction (negation n) ts stack = run_rpn-negation n ts stack
    run_rpn-conjunction (and c n) ts stack =
        elim (Option-cases (conjunction_value evaluate is_zero c)) [
          | inl fails ↦ simp (append_assoc, run_rpn-conjunction c, fails)
          | inr (v, left) ↦ elim (Option-cases (negation_value evaluate is_zero n)) [
            | inl fails ↦
                simp (append_assoc, run_rpn-conjunction c, left, run_rpn-negation n, fails)
            | inr (w, right) ↦
                simp (append_assoc, run_rpn-conjunction c, left, run_rpn-negation n, right)
          ]
        ]

    run_rpn-negation :
        (n : Negation) (ts : List LogicToken) (stack : List Value)
        → run_rpn evaluate is_zero (negation_rpn n ++ ts) stack
          ≡ goes_on ts stack (negation_value evaluate is_zero n)
    run_rpn-negation (leaf s) ts stack = elim (Option-cases (evaluate s)) [
      | inl fails ↦ simp fails
      | inr (v, e) ↦ simp e
    ]
    run_rpn-negation (negate n) ts stack = elim (Option-cases (negation_value evaluate is_zero n)) [
      | inl fails ↦ simp (append_assoc, run_rpn-negation n, fails)
      | inr (v, e) ↦ simp (append_assoc, run_rpn-negation n, e)
    ]
    run_rpn-negation (paren d) ts stack = run_rpn-disjunction d ts stack

  -- Conversion and evaluation of the tokens of a well-formed expression give what the expression
  -- means, by a grammar in which `not` binds more strongly than `and`, and `and` more strongly than
  -- `or`, with the three-valued operators, null taken for false at the end; every operand is
  -- evaluated, and where one fails, the whole does.
  pub evaluate_tokens-meaning :
      (d : Disjunction)
      → evaluate_tokens evaluate is_zero (disjunction_tokens d)
        ≡ to_result evaluate is_zero (outcome (disjunction_value evaluate is_zero d))
  unfolding evaluate_tokens evaluate_rpn
  evaluate_tokens-meaning d =
      ap (evaluate_converted evaluate is_zero) (infix_to_rpn-disjunction d)
      ∙ ap (to_result evaluate is_zero) (
          ap (λ ts. run_rpn evaluate is_zero ts []) (sym (append-nil (disjunction_rpn d)))
          ∙ run_rpn-disjunction d [] []
          ∙ single (disjunction_value evaluate is_zero d))
    where
      single : (o : Option Value) → goes_on [] [] o ≡ outcome o
      single none = refl
      single (some v) = refl
