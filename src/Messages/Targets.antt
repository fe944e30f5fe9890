-- ===== src/Messages/Targets.antt =====
-- Which subscription and which token a message is for (PublishMessage, isIntermediateCatchEvent and
-- findWaitingToken of src/messages/correlation_manager.go).
use Prim.Native.String.{len, slice, ◌++◌ as str_append, String as Text, [] as empty, ◌∷◌ as cons}
use Prim.Native.Char.{code}
use atom_engine.Base.{
  String, Bool, true, false, not, ◌&&◌, ◌||◌, Option, none, some, List, [], ◌∷◌, str_eq, ◌==◌,
  if◌then◌else◌,
}
use atom_engine.Token.{Token, TokenState}
use atom_engine.Engine.{tokens_where, is_in_state}
use atom_engine.Messages.{Messages, Subscription}

-- `strings.Trim(s, "\"")`.
abbrev pub is_quote : Text → Bool
is_quote empty = false
is_quote (cons c rest) = code c == 34

unfoldable pub drop_quotes : Text → Text
drop_quotes empty = empty
drop_quotes (cons c rest) = if code c == 34 then drop_quotes rest else cons c rest

unfoldable pub reversed : Text → Text → Text
reversed empty done = done
reversed (cons c rest) done = reversed rest (cons c done)

unfoldable pub trim_quotes : Text → Text
unfolding drop_quotes reversed
trim_quotes s = reversed (drop_quotes (reversed (drop_quotes s) empty)) empty

-- The key of a subscription: after an equals sign stands a literal, which may be quoted.
unfoldable pub evaluated_key : String → String
unfolding trim_quotes
evaluated_key key =
    let literal = slice key 1 (len key) in
    if str_eq (slice key 0 1) "="
    then (if is_quote literal && is_quote (reversed literal empty)
        then trim_quotes literal
        else literal)
    else key

abbrev pub is_target : String → String → Subscription → Bool
is_target name key sub =
    str_eq sub.message_name name
    && sub.is_active
    && (str_eq key ""
        || str_eq sub.correlation_key ""
        || str_eq (evaluated_key sub.correlation_key) key)

-- The loop over the subscriptions.
unfoldable pub find_target : String → String → List Subscription → Option Subscription
unfolding evaluated_key
find_target name key [] = none
find_target name key (sub ∷ rest) =
    if is_target name key sub then some sub else find_target name key rest

unfoldable pub has_token_at : String → List Token → Bool
has_token_at element_id [] = false
has_token_at element_id (t ∷ rest) =
    if str_eq t.current_element_id element_id then true else has_token_at element_id rest

unfoldable pub waiting_tokens : Messages → Option (List Token)
unfolding tokens_where
waiting_tokens s =
    if s.token_read_fails
    then none
    else some (tokens_where (is_in_state TokenState.waiting) s.tokens)

unfoldable pub is_intermediate_catch_event : String → Messages → Bool
unfolding waiting_tokens has_token_at
is_intermediate_catch_event element_id s = elim (waiting_tokens s) [
  | none ↦ not (str_eq (slice element_id 0 6) "Start_")
  | some tokens ↦ has_token_at element_id tokens
]

abbrev pub message_wait : String → String
message_wait name = str_append "message:" name

unfoldable pub first_waiting : String → String → List Token → Option Token
first_waiting element_id name [] = none
first_waiting element_id name (t ∷ rest) =
    if str_eq t.current_element_id element_id && str_eq t.waiting_for (message_wait name)
    then some t
    else first_waiting element_id name rest

-- The error of the read is `none`.
unfoldable pub find_waiting_token : String → String → Messages → Option (Option Token)
unfolding waiting_tokens first_waiting
find_waiting_token element_id name s = elim (waiting_tokens s) [
  | none ↦ none
  | some tokens ↦ some (first_waiting element_id name tokens)
]
