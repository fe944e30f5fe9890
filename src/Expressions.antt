-- ===== src/Expressions.antt =====
-- Logical expressions of FEEL (src/expression/variable_evaluator.go): the tokens and the tokenizer.
-- A text is the list of its code points; the source walks the bytes, and all that it looks for is
-- ASCII. The children turn the tokens into postfix notation and evaluate that.
pub mod Examples
pub mod Grammar
pub mod Logic
pub mod Meaning
pub mod Postfix
pub mod Reading
pub mod Rounds
pub mod Rpn
pub mod ShuntingYard
pub mod Termination
pub mod Text
pub mod Words
use Prim.Native.Char.{code}
use Prim.Native.String
use atom_engine.Base.{
  ℕ, zero, suc, ◌+◌, ◌-◌, String, Bool, true, false, not, ◌&&◌, ◌||◌, Option, none, some, List, [],
  ◌∷◌, ◌++◌, ◌==◌, leb, drop, length, if◌then◌else◌,
}
use mathlib.Core.List.{reverse}

abbrev pub Chars : Type 0
Chars = List ℕ

abbrev pub codes : String → Chars
codes String.[] = []
codes (String.◌∷◌ c s) = code c ∷ codes s

-- The texts of the operators are fixed by their kinds.
pub data LogicToken : Type 0 where
  operand : Chars → LogicToken
  and_operator or_operator not_operator left_paren right_paren : LogicToken

-- `strings.HasPrefix`.
abbrev pub has_prefix : Chars → Chars → Bool
has_prefix s [] = true
has_prefix [] (p ∷ prefix) = false
has_prefix (c ∷ s) (p ∷ prefix) = c == p && has_prefix s prefix

-- `unicode.IsSpace`.
abbrev pub is_space : ℕ → Bool
is_space c =
    leb 9 c && leb c 13
    || c == 32
    || c == 0x85
    || c == 0xA0
    || c == 0x1680
    || leb 0x2000 c && leb c 0x200A
    || c == 0x2028
    || c == 0x2029
    || c == 0x202F
    || c == 0x205F
    || c == 0x3000

unfoldable pub trim_left : Chars → Chars
trim_left [] = []
trim_left (c ∷ s) = if is_space c then trim_left s else c ∷ s

-- `strings.TrimSpace`.
unfoldable pub trim_space : Chars → Chars
unfolding trim_left
trim_space s = reverse (trim_left (reverse (trim_left s)))

unfoldable pub skip_spaces : Chars → Chars
skip_spaces [] = []
skip_spaces (c ∷ s) = if c == 32 then skip_spaces s else c ∷ s

abbrev pub depth_after : ℕ → ℕ → ℕ
depth_after depth c = if c == 40 then depth + 1 else if c == 41 then depth - 1 else depth

-- A closing parenthesis that the operand has not opened, or an operator outside of parentheses.
abbrev pub ends_operand : ℕ → Chars → Bool
ends_operand depth [] = true
ends_operand depth (c ∷ s) =
    depth == 0
    && (c == 41 || has_prefix (c ∷ s) (codes " and ") || has_prefix (c ∷ s) (codes " or "))

-- The operand, and what comes after it.
unfoldable pub scan_operand : ℕ → Chars → Chars × Chars
scan_operand depth [] = ([], [])
scan_operand depth (c ∷ s) =
    let later = scan_operand (depth_after depth c) s in
    if ends_operand depth (c ∷ s) then ([], c ∷ s) else (c ∷ later.0, later.1)

abbrev pub operand_tokens : Chars → List LogicToken
operand_tokens [] = []
operand_tokens (c ∷ s) = operand (c ∷ s) ∷ []

-- One round of the outer loop at what is left, which does not begin with a space: the tokens that it
-- adds, and what is left after it.
unfoldable pub next_token : Chars → List LogicToken × Chars
unfolding scan_operand trim_space
next_token s =
    if has_prefix s (codes "(")
    then (left_paren ∷ [], drop 1 s)
    else if has_prefix s (codes ")")
    then (right_paren ∷ [], drop 1 s)
    else if has_prefix s (codes "not ") || has_prefix s (codes "not(")
    then (not_operator ∷ [], drop 3 s)
    else if has_prefix s (codes "and ")
    then (and_operator ∷ [], drop 3 s)
    else if has_prefix s (codes "or ")
    then (or_operator ∷ [], drop 2 s)
    else let (taken, rest) = scan_operand 0 s in (operand_tokens (trim_space taken), rest)

abbrev pub add_tokens : List LogicToken → Option (List LogicToken) → Option (List LogicToken)
add_tokens ts none = none
add_tokens ts (some later) = some (ts ++ later)

-- The outer loop on fuel, which bounds its rounds; `none` means that the fuel has run out.
unfoldable pub tokenize_loop : ℕ → Chars → Option (List LogicToken)
unfolding next_token skip_spaces
tokenize_loop zero s = none
tokenize_loop (suc fuel) s = elim (skip_spaces s) [
  | [] ↦ some []
  | c ∷ r ↦ add_tokens (next_token (c ∷ r)).0 (tokenize_loop fuel (next_token (c ∷ r)).1)
]

pub data Tokenized : Type 0 where
  no_fuel empty_expression : Tokenized
  tokenized : List LogicToken → Tokenized

abbrev pub tokenized_as : Option (List LogicToken) → Tokenized
tokenized_as none = no_fuel
tokenized_as (some []) = empty_expression
tokenized_as (some (t ∷ ts)) = tokenized (t ∷ ts)

-- Each round takes a character, and the last one ends the loop.
unfoldable pub tokenize_logical_expression : Chars → Tokenized
unfolding tokenize_loop
tokenize_logical_expression expr =
    let trimmed = trim_space expr in tokenized_as (tokenize_loop (suc (length trimmed)) trimmed)
