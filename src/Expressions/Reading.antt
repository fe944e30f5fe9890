-- ===== src/Expressions/Reading.antt =====
-- From the text of a logical expression to its value (evaluateLogicalExpression of
-- src/expression/variable_evaluator.go).
use atom_engine.Base.{
  ◌≡◌, refl, sym, ap, subst, ◌∙◌, Bool, Option, none, some, List, [], ◌∷◌, ◌++◌, String,
}
use mathlib.Core.List.{append_assoc, append-nil, reverse, reverse-append}
use atom_engine.Token.{Value}
use atom_engine.Expressions.{
  Chars, LogicToken, tokenized, tokenized_as, and_operator, or_operator, not_operator, left_paren,
  right_paren, add_tokens, codes, tokenize_logical_expression,
}
use atom_engine.Expressions.Grammar.{
  Disjunction, conjunction, or, Conjunction, negation, and, Negation, leaf, negate, paren,
  disjunction_tokens, conjunction_tokens, negation_tokens, disjunction_value,
}
use atom_engine.Expressions.Text.{
  BeginsVisibly, HasOperands, ConjunctionHasOperands, NegationHasOperands, disjunction_text,
  conjunction_text, negation_text,
}
use atom_engine.Expressions.Rounds.{
  tokens_of, tokens_of-and, tokens_of-left_paren, tokens_of-not, tokens_of-or,
  tokens_of-right_paren,
}
use atom_engine.Expressions.Words.{Ends, tokens_of-operand, trim_space-visible}
use atom_engine.Expressions.Logic.{evaluate_logical_expression, evaluate_tokenized, to_result}
use atom_engine.Expressions.Meaning.{evaluate_tokens-meaning, outcome}

add_tokens-append :
    (xs ys : List LogicToken) (o : Option (List LogicToken))
    → add_tokens xs (add_tokens ys o) ≡ add_tokens (xs ++ ys) o
add_tokens-append xs ys none = refl
add_tokens-append xs ys (some ts) = ap some (sym (append_assoc xs ys ts))

mutual
  unfolding disjunction_text disjunction_tokens HasOperands

  tokens_of-disjunction :
      (d : Disjunction) (rest : Chars)
      → HasOperands d
      → Ends rest
      → tokens_of (disjunction_text d ++ rest) ≡ add_tokens (disjunction_tokens d) (tokens_of rest)
  tokens_of-disjunction (conjunction c) rest h ends = tokens_of-conjunction c rest h ends
  tokens_of-disjunction (or d c) rest (h, k) ends =
      ap tokens_of (append_assoc (disjunction_text d) (codes " or " ++ conjunction_text c) rest)
      ∙ tokens_of-disjunction d (codes " or " ++ (conjunction_text c ++ rest)) h refl
      ∙ ap (add_tokens (disjunction_tokens d)) (
          tokens_of-or (conjunction_text c ++ rest)
          ∙ ap (add_tokens (or_operator ∷ [])) (tokens_of-conjunction c rest k ends)
          ∙ add_tokens-append (or_operator ∷ []) (conjunction_tokens c) (tokens_of rest))
      ∙ add_tokens-append (disjunction_tokens d) (or_operator ∷ conjunction_tokens c)
          (tokens_of rest)

  tokens_of-conjunction :
      (c : Conjunction) (rest : Chars)
      → ConjunctionHasOperands c
      → Ends rest
      → tokens_of (conjunction_text c ++ rest) ≡ add_tokens (conjunction_tokens c) (tokens_of rest)
  tokens_of-conjunction (negation n) rest h ends = tokens_of-negation n rest h ends
  tokens_of-conjunction (and c n) rest (h, k) ends =
      ap tokens_of (append_assoc (conjunction_text c) (codes " and " ++ negation_text n) rest)
      ∙ tokens_of-conjunction c (codes " and " ++ (negation_text n ++ rest)) h refl
      ∙ ap (add_tokens (conjunction_tokens c)) (
          tokens_of-and (negation_text n ++ rest)
          ∙ ap (add_tokens (and_operator ∷ [])) (tokens_of-negation n rest k ends)
          ∙ add_tokens-append (and_operator ∷ []) (negation_tokens n) (tokens_of rest))
      ∙ add_tokens-append (conjunction_tokens c) (and_operator ∷ negation_tokens n) (tokens_of rest)

  tokens_of-negation :
      (n : Negation) (rest : Chars)
      → NegationHasOperands n
      → Ends rest
      → tokens_of (negation_text n ++ rest) ≡ add_tokens (negation_tokens n) (tokens_of rest)
  tokens_of-negation (leaf s) rest h ends = tokens_of-operand s rest h ends
  tokens_of-negation (negate n) rest h ends =
      tokens_of-not (negation_text n ++ rest)
      ∙ ap (add_tokens (not_operator ∷ [])) (tokens_of-negation n rest h ends)
      ∙ add_tokens-append (not_operator ∷ []) (negation_tokens n) (tokens_of rest)
  tokens_of-negation (paren d) rest h ends =
      ap (λ s. tokens_of (codes "(" ++ s)) (append_assoc (disjunction_text d) (codes ")") rest)
      ∙ tokens_of-left_paren (disjunction_text d ++ (codes ")" ++ rest))
      ∙ ap (add_tokens (left_paren ∷ [])) (
          tokens_of-disjunction d (codes ")" ++ rest) h refl
          ∙ ap (add_tokens (disjunction_tokens d)) (tokens_of-right_paren rest)
          ∙ add_tokens-append (disjunction_tokens d) (right_paren ∷ []) (tokens_of rest))
      ∙ add_tokens-append (left_paren ∷ []) (disjunction_tokens d ++ (right_paren ∷ []))
          (tokens_of rest)

BeginsVisibly-append : (s t : Chars) → BeginsVisibly s → BeginsVisibly (s ++ t)
BeginsVisibly-append [] t h = absurd h
BeginsVisibly-append (c ∷ s) t h = h

reverse-BeginsVisibly : (s t : Chars) → BeginsVisibly (reverse t) → BeginsVisibly (reverse (s ++ t))
reverse-BeginsVisibly s t h =
    subst BeginsVisibly (sym (reverse-append s t)) (BeginsVisibly-append (reverse t) (reverse s) h)

-- No space stands around an expression, and it has a token.
mutual
  unfolding disjunction_text HasOperands

  disjunction_begins : (d : Disjunction) → HasOperands d → BeginsVisibly (disjunction_text d)
  disjunction_begins (conjunction c) h = conjunction_begins c h
  disjunction_begins (or d c) (h, k) =
      BeginsVisibly-append (disjunction_text d) _ (disjunction_begins d h)

  conjunction_begins :
      (c : Conjunction) → ConjunctionHasOperands c → BeginsVisibly (conjunction_text c)
  conjunction_begins (negation n) h = negation_begins n h
  conjunction_begins (and c n) (h, k) =
      BeginsVisibly-append (conjunction_text c) _ (conjunction_begins c h)

  negation_begins : (n : Negation) → NegationHasOperands n → BeginsVisibly (negation_text n)
  negation_begins (leaf s) h = h.begins
  negation_begins (negate n) h = refl
  negation_begins (paren d) h = refl

mutual
  unfolding disjunction_text HasOperands

  disjunction_ends :
      (d : Disjunction) → HasOperands d → BeginsVisibly (reverse (disjunction_text d))
  disjunction_ends (conjunction c) h = conjunction_ends c h
  disjunction_ends (or d c) (h, k) =
      reverse-BeginsVisibly (disjunction_text d) (codes " or " ++ conjunction_text c)
        (reverse-BeginsVisibly (codes " or ") (conjunction_text c) (conjunction_ends c k))

  conjunction_ends :
      (c : Conjunction) → ConjunctionHasOperands c → BeginsVisibly (reverse (conjunction_text c))
  conjunction_ends (negation n) h = negation_ends n h
  conjunction_ends (and c n) (h, k) =
      reverse-BeginsVisibly (conjunction_text c) (codes " and " ++ negation_text n)
        (reverse-BeginsVisibly (codes " and ") (negation_text n) (negation_ends n k))

  negation_ends : (n : Negation) → NegationHasOperands n → BeginsVisibly (reverse (negation_text n))
  negation_ends (leaf s) h = h.ends
  negation_ends (negate n) h =
      reverse-BeginsVisibly (codes "not ") (negation_text n) (negation_ends n h)
  negation_ends (paren d) h =
      reverse-BeginsVisibly (codes "(" ++ disjunction_text d) (codes ")") refl

abbrev IsNonempty : List LogicToken → Type 0
IsNonempty ts = tokenized_as (some ts) ≡ tokenized ts

IsNonempty-append : (xs ys : List LogicToken) → IsNonempty xs → IsNonempty (xs ++ ys)
IsNonempty-append [] ys h = cc
IsNonempty-append (x ∷ xs) ys h = refl

mutual
  unfolding disjunction_tokens

  disjunction-IsNonempty : (d : Disjunction) → IsNonempty (disjunction_tokens d)
  disjunction-IsNonempty (conjunction c) = conjunction-IsNonempty c
  disjunction-IsNonempty (or d c) =
      IsNonempty-append (disjunction_tokens d) _ (disjunction-IsNonempty d)

  conjunction-IsNonempty : (c : Conjunction) → IsNonempty (conjunction_tokens c)
  conjunction-IsNonempty (negation n) = negation-IsNonempty n
  conjunction-IsNonempty (and c n) =
      IsNonempty-append (conjunction_tokens c) _ (conjunction-IsNonempty c)

  negation-IsNonempty : (n : Negation) → IsNonempty (negation_tokens n)
  negation-IsNonempty (leaf s) = refl
  negation-IsNonempty (negate n) = refl
  negation-IsNonempty (paren d) = refl

-- The tokens of a written expression are those that it is written with, where every operand is a text
-- that holds no operator and no parenthesis and has no space around it.
pub tokenize_logical_expression-text :
    (d : Disjunction)
    → HasOperands d
    → tokenize_logical_expression (disjunction_text d) ≡ tokenized (disjunction_tokens d)
unfolding tokenize_logical_expression tokens_of
tokenize_logical_expression-text d h =
    let text = disjunction_text d in
    ap (λ s. tokenized_as (tokens_of s))
      (trim_space-visible text (disjunction_begins d h) (disjunction_ends d h)
        ∙ sym (append-nil text))
    ∙ ap tokenized_as
        (tokens_of-disjunction d [] h refl ∙ ap some (append-nil (disjunction_tokens d)))
    ∙ disjunction-IsNonempty d

-- A written expression comes to what it means, by a grammar in which `not` binds more strongly than
-- `and`, and `and` more strongly than `or`, with operators that know null, and null taken for false
-- at the end. Every operand is evaluated, and where one fails, so does the whole. Every operand is a
-- text that holds no operator and no parenthesis and has no space around it.
pub evaluate_logical_expression-meaning :
    (evaluate : Chars → Option Value) (is_zero : String → Bool) (d : Disjunction)
    → HasOperands d
    → evaluate_logical_expression evaluate is_zero (disjunction_text d)
      ≡ to_result evaluate is_zero (outcome (disjunction_value evaluate is_zero d))
unfolding evaluate_logical_expression
evaluate_logical_expression-meaning evaluate is_zero d h =
    ap (evaluate_tokenized evaluate is_zero) (tokenize_logical_expression-text d h)
    ∙ evaluate_tokens-meaning evaluate is_zero d
