-- ===== src/Messages/Buffer.antt =====
-- The buffer of the messages without a subscription (src/messages/buffer_manager.go).
use atom_engine.Base.{
  ℕ, ◌+◌, String, Bool, not, ◌&&◌, ◌||◌, Option, none, some, List, [], ◌∷◌, length, take, drop, ltb,
  str_eq, select, if◌then◌else◌,
}
use atom_engine.Messages.{
  BufferedMessage, Messages, Subscription, delete_buffered, is_expired, list_buffered,
}
use atom_engine.Messages.Correlation.{Env, Request, publish_message}

-- One turn of `CleanupExpiredMessages`, with the number of the deleted messages.
unfoldable pub cleanup_message : ℕ → BufferedMessage → Messages → Messages × ℕ
cleanup_message now m s =
    if is_expired now m
    then elim (delete_buffered m.id s) [ none ↦ (s, 0) | some s' ↦ (s', 1) ]
    else (s, 0)

unfoldable pub cleanup_messages : ℕ → List BufferedMessage → Messages → Messages × ℕ
unfolding cleanup_message
cleanup_messages now [] s = (s, 0)
cleanup_messages now (m ∷ rest) s =
    let (s', n) = cleanup_message now m s in
    let (s'', cleaned) = cleanup_messages now rest s' in (s'', n + cleaned)

-- `none` is the error of the list.
unfoldable pub cleanup_expired_messages : ℕ → Messages → Messages × Option ℕ
unfolding cleanup_messages
cleanup_expired_messages now s = elim (list_buffered "" 1000 s) [
  | none ↦ (s, none)
  | some messages ↦ let (s', cleaned) = cleanup_messages now messages s in (s', some cleaned)
]

-- Offset and limit of `ListBufferedMessages`; a limit below 1 acts as 0 does.
unfoldable pub page : ℕ → ℕ → List BufferedMessage → List BufferedMessage
page limit offset messages =
    if ltb 0 limit then take limit (drop offset messages) else drop offset messages

unfoldable pub list_buffered_messages : String → ℕ → ℕ → Messages → Option (List BufferedMessage)
unfolding page
list_buffered_messages tenant_id limit offset s = elim (list_buffered tenant_id 1000 s) [
  | none ↦ none
  | some messages ↦ some (page limit offset messages)
]

unfoldable pub get_buffered_messages_by_name :
    ℕ → String → String → Messages → Option (List BufferedMessage)
get_buffered_messages_by_name now tenant_id name s = elim (list_buffered tenant_id 1000 s) [
  | none ↦ none
  | some messages ↦ some (select (λ m. str_eq m.name name && not (is_expired now m)) messages)
]

unfoldable pub get_buffered_messages_by_correlation_key :
    ℕ → String → String → Messages → Option (List BufferedMessage)
get_buffered_messages_by_correlation_key now tenant_id key s =
    elim (list_buffered tenant_id 1000 s) [
      | none ↦ none
      | some messages ↦
          some (select (λ m. str_eq m.correlation_key key && not (is_expired now m)) messages)
    ]

-- The three tests of the loop of `ProcessBufferedMessages`.
abbrev pub is_wanted : ℕ → Subscription → BufferedMessage → Bool
is_wanted now sub m =
    str_eq m.name sub.message_name
    && (str_eq sub.correlation_key "" || str_eq m.correlation_key sub.correlation_key)
    && not (is_expired now m)

abbrev pub republished : BufferedMessage → Request
republished m = record {
  tenant_id = m.tenant_id;
  name = m.name;
  correlation_key = m.correlation_key;
  element_id = m.element_id;
  variables = m.variables;
  ttl = none;
}

-- A message that is published again goes from the buffer; one that cannot be published stays.
unfoldable pub process_message : Env → BufferedMessage → Messages → Messages × ℕ
process_message e m s =
    let (s', result) = publish_message e (republished m) s in
    elim result [
      | none ↦ (s', 0)
      | some _ ↦ elim (delete_buffered m.id s') [ none ↦ (s', 0) | some s'' ↦ (s'', 1) ]
    ]

-- The loop; each message that is published has ids of its own.
unfoldable pub process_messages :
    (ℕ → Env) → ℕ → Subscription → List BufferedMessage → Messages → Messages × ℕ
unfolding process_message
process_messages env now sub [] s = (s, 0)
process_messages env now sub (m ∷ rest) s =
    let (s', n) = if is_wanted now sub m then process_message (env (length rest)) m s else (s, 0) in
    let (s'', processed) = process_messages env now sub rest s' in (s'', n + processed)

-- The correlation manager is there. `none` is the error of the list.
unfoldable pub process_buffered_messages :
    (ℕ → Env) → ℕ → Subscription → Messages → Messages × Option ℕ
unfolding process_messages
process_buffered_messages env now sub s = elim (list_buffered sub.tenant_id 1000 s) [
  | none ↦ (s, none)
  | some messages ↦
      let (s', processed) = process_messages env now sub messages s in (s', some processed)
]
