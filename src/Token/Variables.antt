-- ===== src/Token/Variables.antt =====
-- Variables, execution context and the lists of ids of a token (src/core/models/token.go).
use atom_engine.Base.{
  ℕ, suc, ◌+◌, ◌-◌, ◌≡◌, refl, String, true, false, Option, none, some, List, [], ◌∷◌, ◌++◌, Dict,
  lookup, or_else, lookup-insert, lookup-insert_self, lookup-remove_self, lookup-merge, arith,
  str_eq, eq_iff, if◌then◌else◌,
}
use atom_engine.Token.{
  Token, Value, set_variable, get_variable, set_variables, remove_first, add_child_token,
  remove_child_token, set_timer_callback, clear_timer_callback, is_from_timer_callback, clone,
}

-- `SetVariables` gives each key of the new map the new value, and leaves every other variable.
pub get_variable-set_variables :
    (now : ℕ) (key : String) (variables : Dict Value) (t : Token)
    → get_variable key (set_variables now variables t)
      ≡ or_else (lookup key variables) (get_variable key t)
unfolding get_variable set_variables
get_variable-set_variables now key variables t = lookup-merge key variables t.variables

pub get_variable-set_variable :
    (now : ℕ) (key j : String) (value : Value) (t : Token)
    → get_variable j (set_variable now key value t)
      ≡ (if str_eq key j then some value else get_variable j t)
unfolding get_variable set_variable
get_variable-set_variable now key j value t = lookup-insert key j value t.variables

or_else-none {ℓ} : {V : Type ℓ} (o : Option V) → or_else o none ≡ o
or_else-none none = refl
or_else-none (some v) = refl

-- A clone reads every variable as the original does.
pub get_variable-clone :
    (fresh : String) (now : ℕ) (key : String) (t : Token)
    → get_variable key (clone fresh now t) ≡ get_variable key t
unfolding get_variable clone lookup
get_variable-clone fresh now key t =
    rw (lookup-merge key t.variables []) (or_else-none (lookup key t.variables))

-- The timer callback mark is seen once it is set, and is gone once it is cleared.
pub timer_callback_mark :
    (now later : ℕ) (t : Token)
    → (is_from_timer_callback (set_timer_callback now t) ≡ true)
      × (is_from_timer_callback (clear_timer_callback later t) ≡ false)
unfolding is_from_timer_callback set_timer_callback clear_timer_callback
timer_callback_mark now later t = (simp lookup-insert_self, simp lookup-remove_self)

-- How often an id stands in a list.
abbrev pub occurrences : String → List String → ℕ
occurrences id [] = 0
occurrences id (x ∷ xs) = if str_eq x id then suc (occurrences id xs) else occurrences id xs

pub occurrences-remove_first :
    (id j : String) (xs : List String)
    → occurrences j (remove_first id xs)
      ≡ (if str_eq id j then occurrences j xs - 1 else occurrences j xs)
unfolding remove_first
occurrences-remove_first id j [] = ground arith
occurrences-remove_first id j (x ∷ xs) =
    ground (arith, eq_iff x id, eq_iff x j, eq_iff id j, occurrences-remove_first id j xs)

occurrences-snoc :
    (id j : String) (xs : List String)
    → occurrences j (xs ++ id ∷ [])
      ≡ (if str_eq id j then occurrences j xs + 1 else occurrences j xs)
occurrences-snoc id j [] = ground arith
occurrences-snoc id j (x ∷ xs) = ground (arith, occurrences-snoc id j xs)

-- Adding a child token and removing it again leaves every id as often in the list as before, also
-- when the same id was there already.
pub remove_child_token-add_child_token :
    (now later : ℕ) (id j : String) (t : Token)
    → occurrences j (remove_child_token later id (add_child_token now id t)).child_token_ids
      ≡ occurrences j t.child_token_ids
unfolding remove_child_token add_child_token
remove_child_token-add_child_token now later id j t = ground (
  arith,
  occurrences-remove_first id j (t.child_token_ids ++ id ∷ []),
  occurrences-snoc id j t.child_token_ids,
)
