-- ===== src/Messages/Expiry.antt =====
-- The clean-up of the buffer (CleanupExpiredMessages of src/messages/buffer_manager.go).
use atom_engine.Base.{
  ℕ, suc, ◌≤◌, ◌≡◌, refl, sym, ap, ◌∙◌, inl, inr, String, Bool, true, false, not, Option, none,
  some, [], ◌∷◌, Dict, lookup, remove, lookup-remove, IsDict, passing_value, length, take, take_all,
  str_eq, eq_iff, Bool-cases, arith, if◌then◌else◌,
}
use atom_engine.Messages.{
  BufferedMessage, Messages, delete_buffered, is_expired, list_buffered, messages_of,
}
use atom_engine.Messages.Buffer.{cleanup_expired_messages, cleanup_message, cleanup_messages}

-- Every message stands under its own id.
abbrev pub IsFiled : Dict BufferedMessage → Type 0
IsFiled [] = Unit
IsFiled ((k, m) ∷ d) = (m.id ≡ k) × IsFiled d

abbrev is_fresh : ℕ → BufferedMessage → Bool
is_fresh now m = not (is_expired now m)

-- What one turn leaves.
record Cleans (now : ℕ) (m : BufferedMessage) (s s' : Messages) : Type 0 where
  deletes : s'.delete_buffered_fails ≡ false
  entry :
      (k : String)
      → lookup k s'.buffered ≡ (
          if is_expired now m
          then (if str_eq m.id k then none else lookup k s.buffered)
          else lookup k s.buffered)

cleanup_message-Cleans :
    (now : ℕ) (m : BufferedMessage) (s : Messages)
    → s.delete_buffered_fails ≡ false
    → Cleans now m s (cleanup_message now m s).0
unfolding cleanup_message delete_buffered
cleanup_message-Cleans now m s works = elim (Bool-cases (is_expired now m)) [
  | inl late ↦ record {
    deletes = simp (cleanup_message, late, works);
    entry = λ k. simp (cleanup_message, late, delete-works, lookup-remove);
  }
  | inr fresh ↦ record {
    deletes = simp (cleanup_message, fresh, works);
    entry = λ k. simp (cleanup_message, fresh);
  }
]
  where
    delete-works : delete_buffered m.id s ≡ some (record s { buffered = remove m.id s.buffered })
    delete-works = simp (delete_buffered, works)

entry_after : ℕ → Option BufferedMessage → Option BufferedMessage → Option BufferedMessage
entry_after now none kept = kept
entry_after now (some m) kept = if is_expired now m then none else kept

cleanup_messages-entries :
    (now : ℕ) (d : Dict BufferedMessage) (s : Messages) (k : String)
    → s.delete_buffered_fails ≡ false
    → IsDict d
    → IsFiled d
    → lookup k (cleanup_messages now (messages_of "" d) s).0.buffered
      ≡ entry_after now (lookup k d) (lookup k s.buffered)
unfolding cleanup_messages messages_of lookup entry_after
cleanup_messages-entries now [] s k works u filed = refl
cleanup_messages-entries now ((j, m) ∷ d) s k works (fresh, u) (own, filed) =
    let next = (cleanup_message now m s).0 in
    let c = cleanup_message-Cleans now m s works in
    let gone : str_eq j k ≡ true → lookup k d ≡ none =
      λ y. ap (λ i. lookup i d) (sym ((eq_iff j k).0 y)) ∙ fresh in
    let key : str_eq m.id k ≡ str_eq j k = ap (λ i. str_eq i k) own in
    cleanup_messages-entries now d next k c.deletes u filed ∙ elim (Bool-cases (str_eq j k)) [
      | inl same ↦ rw (gone same) (rw same (c.entry k ∙ rw (key ∙ same) refl))
      | inr other ↦
          rw other (ap (entry_after now (lookup k d)) (c.entry k ∙ rw (key ∙ other) (ground arith)))
    ]

entry_after-fresh :
    (now : ℕ) (o : Option BufferedMessage) → entry_after now o o ≡ passing_value (is_fresh now) o
unfolding entry_after
entry_after-fresh now none = refl
entry_after-fresh now (some m) = ground arith

length-messages_of : (d : Dict BufferedMessage) → length (messages_of "" d) ≡ length d
unfolding messages_of
length-messages_of [] = refl
length-messages_of ((k, m) ∷ d) = ap suc (length-messages_of d)

-- Where the database works, the clean-up of the buffer deletes exactly the expired messages, and
-- leaves every other message as it is. At most a thousand messages are buffered, each once and under
-- its own id.
pub cleanup_expired_messages-fresh :
    (now : ℕ) (s : Messages)
    → s.list_buffered_fails ≡ false
    → s.delete_buffered_fails ≡ false
    → length s.buffered ≤ 1000
    → IsDict s.buffered
    → IsFiled s.buffered
    → (k : String)
    → lookup k (cleanup_expired_messages now s).0.buffered
      ≡ passing_value (λ m. not (is_expired now m)) (lookup k s.buffered)
unfolding cleanup_expired_messages list_buffered
cleanup_expired_messages-fresh now s lists deletes few u filed k =
    let all : take 1000 (messages_of "" s.buffered) ≡ messages_of "" s.buffered =
      take_all 1000 (messages_of "" s.buffered) (omega (arith, length-messages_of s.buffered)) in
    let direct : (cleanup_expired_messages now s).0
        ≡ (cleanup_messages now (messages_of "" s.buffered) s).0 =
      simp (cleanup_expired_messages, list_buffered, lists, all) in
    ap (λ o. lookup k o.buffered) direct
    ∙ cleanup_messages-entries now s.buffered s k deletes u filed
    ∙ entry_after-fresh now (lookup k s.buffered)
