-- ===== src/Messages/Uniqueness.antt =====
-- One subscription for each event of a process (CreateSubscription of
-- src/messages/subscription_manager.go).
use mathlib.Core.Option.{some-injective}
use atom_engine.Base.{
  ◌≡◌, sym, subst, ◌⊎◌, ◌∙◌, inl, inr, String, Bool, true, false, none, some, [], ◌∷◌, Dict, lookup,
  insert, lookup-insert, str_eq, eq_iff, Bool-cases, Option-cases, arith,
}
use atom_engine.Messages.{Messages, Subscription, save_subscription}
use atom_engine.Messages.Subscriptions.{create_subscription, first_same_event, is_same_event}

abbrev pub same_event : Subscription → Subscription → Bool
same_event a b = is_same_event a.tenant_id a.process_definition_key a.start_event_id b

-- Two subscriptions for one event of one process stand under one key.
unfoldable pub IsUnique : Dict Subscription → Type 0
IsUnique d =
    (j k : String) (a b : Subscription)
    → lookup j d ≡ some a
    → lookup k d ≡ some b
    → same_event a b ≡ true
    → j ≡ k

first_same_event-none :
    (sub : Subscription) (d : Dict Subscription) (k : String) (b : Subscription)
    → first_same_event sub.tenant_id sub.process_definition_key sub.start_event_id d ≡ none
    → lookup k d ≡ some b
    → same_event sub b ≡ false
unfolding first_same_event lookup
first_same_event-none sub [] k b n e = absurd (ground arith)
first_same_event-none sub ((j, s) ∷ d) k b n e = ground (arith, first_same_event-none sub d k b)

same_event-sym : (a b : Subscription) → same_event a b ≡ true → same_event b a ≡ true
same_event-sym a b h = ground (
  arith,
  eq_iff b.tenant_id a.tenant_id,
  eq_iff a.tenant_id b.tenant_id,
  eq_iff b.process_definition_key a.process_definition_key,
  eq_iff a.process_definition_key b.process_definition_key,
  eq_iff b.start_event_id a.start_event_id,
  eq_iff a.start_event_id b.start_event_id,
)

IsUnique-insert :
    (sub : Subscription) (d : Dict Subscription)
    → first_same_event sub.tenant_id sub.process_definition_key sub.start_event_id d ≡ none
    → IsUnique d
    → IsUnique (insert sub.id sub d)
unfolding IsUnique
IsUnique-insert sub d n u j k a b ej ek h =
    let clash : (k' : String) (b' : Subscription)
        → lookup k' d ≡ some b'
        → same_event sub b' ≡ true
        → j ≡ k =
      λ k' b' e y. absurd (ground (arith, y, first_same_event-none sub d k' b' n e)) in
    elim (Bool-cases (str_eq sub.id j)) [
      | inl y ↦ elim (Bool-cases (str_eq sub.id k)) [
        | inl z ↦ sym ((eq_iff sub.id j).0 y) ∙ (eq_iff sub.id k).0 z
        | inr m ↦ clash k b (rw m at rw lookup-insert at ek) (
            subst (λ c. same_event c b ≡ true)
              (sym (some-injective _ _ (rw y at rw lookup-insert at ej))) h)
      ]
      | inr x ↦ elim (Bool-cases (str_eq sub.id k)) [
        | inl z ↦ clash j a (rw x at rw lookup-insert at ej) (
            same_event-sym a sub (
              subst (λ c. same_event a c ≡ true)
                (sym (some-injective _ _ (rw z at rw lookup-insert at ek))) h))
        | inr m ↦ u j k a b (rw x at rw lookup-insert at ej) (rw m at rw lookup-insert at ek) h
      ]
    ]

created :
    (sub : Subscription) (s : Messages)
    → ((create_subscription sub s).0.subscriptions ≡ s.subscriptions)
      ⊎ ((first_same_event sub.tenant_id sub.process_definition_key sub.start_event_id
              s.subscriptions
            ≡ none)
          × ((create_subscription sub s).0.subscriptions ≡ insert sub.id sub s.subscriptions))
unfolding create_subscription save_subscription
created sub s =
    elim (Option-cases (
      first_same_event sub.tenant_id sub.process_definition_key sub.start_event_id
        s.subscriptions)) [ inl n ↦ ground (arith, n) | inr (t, f) ↦ ground (arith, f) ]

-- Creating a subscription keeps it so that each event of a process has at most one subscription,
-- whichever calls to the database fail.
pub create_subscription-IsUnique :
    (sub : Subscription) (s : Messages)
    → IsUnique s.subscriptions
    → IsUnique (create_subscription sub s).0.subscriptions
create_subscription-IsUnique sub s u = elim (created sub s) [
  | inl same ↦ subst IsUnique (sym same) u
  | inr (n, same) ↦ subst IsUnique (sym same) (IsUnique-insert sub s.subscriptions n u)
]
