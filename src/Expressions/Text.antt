-- ===== src/Expressions/Text.antt =====
-- The text of a logical expression, and which texts can stand for its operands.
use atom_engine.Base.{◌≡◌, false, [], ◌∷◌, ◌++◌, ◌==◌}
use mathlib.Core.List.{reverse}
use atom_engine.Expressions.{Chars, codes, has_prefix, is_space}
use atom_engine.Expressions.Grammar.{
  Disjunction, conjunction, or, Conjunction, negation, and, Negation, leaf, negate, paren,
}

unfoldable mutual
  pub disjunction_text : Disjunction → Chars
  disjunction_text (conjunction c) = conjunction_text c
  disjunction_text (or d c) = disjunction_text d ++ (codes " or " ++ conjunction_text c)

  pub conjunction_text : Conjunction → Chars
  conjunction_text (negation n) = negation_text n
  conjunction_text (and c n) = conjunction_text c ++ (codes " and " ++ negation_text n)

  pub negation_text : Negation → Chars
  negation_text (leaf s) = s
  negation_text (negate n) = codes "not " ++ negation_text n
  negation_text (paren d) = codes "(" ++ (disjunction_text d ++ codes ")")

abbrev pub BeginsVisibly : Chars → Type 0
BeginsVisibly [] = ⊥
BeginsVisibly (c ∷ s) = is_space c ≡ false

-- No parenthesis, and no ` and ` or ` or `, also where a space is put behind the text.
abbrev pub HasNoOperator : Chars → Type 0
HasNoOperator [] = Unit
HasNoOperator (c ∷ s) =
    (c == 40 ≡ false)
    × (c == 41 ≡ false)
    × (has_prefix ((c ∷ s) ++ codes " ") (codes " and ") ≡ false)
    × (has_prefix ((c ∷ s) ++ codes " ") (codes " or ") ≡ false)
    × HasNoOperator s

-- A text with no space around it that neither is nor begins with a word of the language.
pub record IsOperand (s : Chars) : Type 0 where
  pub begins : BeginsVisibly s
  pub ends : BeginsVisibly (reverse s)
  pub plain : HasNoOperator s
  pub not_not : has_prefix (s ++ codes " ") (codes "not ") ≡ false
  pub not_and : has_prefix (s ++ codes " ") (codes "and ") ≡ false
  pub not_or : has_prefix (s ++ codes " ") (codes "or ") ≡ false

-- All operands are such texts.
unfoldable mutual
  pub HasOperands : Disjunction → Type 0
  HasOperands (conjunction c) = ConjunctionHasOperands c
  HasOperands (or d c) = HasOperands d × ConjunctionHasOperands c

  pub ConjunctionHasOperands : Conjunction → Type 0
  ConjunctionHasOperands (negation n) = NegationHasOperands n
  ConjunctionHasOperands (and c n) = ConjunctionHasOperands c × NegationHasOperands n

  pub NegationHasOperands : Negation → Type 0
  NegationHasOperands (leaf s) = IsOperand s
  NegationHasOperands (negate n) = NegationHasOperands n
  NegationHasOperands (paren d) = HasOperands d
