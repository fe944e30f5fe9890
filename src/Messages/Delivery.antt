-- ===== src/Messages/Delivery.antt =====
-- What becomes of a published message (PublishMessage of src/messages/correlation_manager.go).
use atom_engine.Base.{
  ◌≡◌, ◌⊎◌, refl, sym, ap, subst, ◌∙◌, inl, inr, String, true, false, Option, none, some, [], ◌∷◌,
  ◌++◌, lookup, insert, take, lookup-insert_self, Bool-cases, Option-cases, arith, Bool, List, ◌&&◌,
  str_eq, eq_iff, All,
}
use atom_engine.Token.{Token, TokenState}
use atom_engine.Engine.{tokens_where, is_in_state}
use atom_engine.Messages.{
  Callback, CorrelationResult, Messages, Subscription, list_subscriptions, subscriptions_of,
  save_buffered, save_result, delete_subscription_record,
}
use atom_engine.Messages.Targets.{
  find_target, has_token_at, message_wait, is_intermediate_catch_event, find_waiting_token,
  waiting_tokens, first_waiting,
}
use atom_engine.Messages.Correlation.{
  Env, Request, buffer_message, callback_of, correlate, correlate_start, correlate_token,
  keep_result, message_of, new_result, publish_message, send, without_subscription,
}

-- The subscription that a message is for.
abbrev pub target_of : Request → Messages → Option Subscription
target_of r s =
    find_target r.name r.correlation_key (take 100 (subscriptions_of r.tenant_id s.subscriptions))

-- What a step keeps of the buffer and of the callbacks.
record Keeps (s s' : Messages) : Type 0 where
  buffer : s'.buffered ≡ s.buffered
  sent : s'.sent ≡ s.sent

keep_result-Keeps : (result : CorrelationResult) (s : Messages) → Keeps s (keep_result result s).0
unfolding keep_result save_result
keep_result-Keeps result s = ground arith

without_subscription-Keeps : (id : String) (s : Messages) → Keeps s (without_subscription id s)
unfolding delete_subscription_record
without_subscription-Keeps id s = ground arith

abbrev pub IsIn : Token → List Token → Type 0
IsIn t [] = ⊥
IsIn t (u ∷ ts) = (u ≡ t) ⊎ IsIn t ts

abbrev pub is_at : Subscription → Token → Bool
is_at sub t = str_eq t.current_element_id sub.start_event_id

has_token_at-none :
    (element_id : String) (ts : List Token)
    → has_token_at element_id ts ≡ false
    → All (λ t. str_eq t.current_element_id element_id ≡ false) ts
unfolding has_token_at
has_token_at-none element_id [] none_at = tt
has_token_at-none element_id (t ∷ ts) none_at =
    elim (Bool-cases (str_eq t.current_element_id element_id)) [
      | inl y ↦ absurd (ground (arith, y, none_at))
      | inr n ↦ (n, has_token_at-none element_id ts (ground (arith, n, none_at)))
    ]

has_token_at-some :
    (element_id : String) (ts : List Token)
    → has_token_at element_id ts ≡ true
    → (t : Token) × IsIn t ts × (str_eq t.current_element_id element_id ≡ true)
unfolding has_token_at
has_token_at-some element_id [] at = absurd (ground (arith, at))
has_token_at-some element_id (t ∷ ts) at =
    elim (Bool-cases (str_eq t.current_element_id element_id)) [
      | inl y ↦ (t, inl refl, y)
      | inr n ↦
          let (u, member, y) = has_token_at-some element_id ts (ground (arith, n, at)) in
          (u, inr member, y)
    ]

first_waiting-none :
    (element_id name : String) (ts : List Token)
    → first_waiting element_id name ts ≡ none
    → All
        (λ t.
          (str_eq t.current_element_id element_id && str_eq t.waiting_for (message_wait name))
          ≡ false)
        ts
unfolding first_waiting
first_waiting-none element_id name [] w = tt
first_waiting-none element_id name (t ∷ ts) w =
    elim (Bool-cases
      (str_eq t.current_element_id element_id && str_eq t.waiting_for (message_wait name))) [
        | inl y ↦ absurd (ground (arith, y, w))
        | inr n ↦ (n, first_waiting-none element_id name ts (ground (arith, n, w)))
      ]

first_waiting-some :
    (element_id name : String) (ts : List Token) (t : Token)
    → first_waiting element_id name ts ≡ some t
    → IsIn t ts
      × (str_eq t.current_element_id element_id ≡ true)
      × (t.waiting_for ≡ message_wait name)
unfolding first_waiting
first_waiting-some element_id name [] t w = absurd (ground (arith, w))
first_waiting-some element_id name (u ∷ ts) t w =
    elim (Bool-cases
      (str_eq u.current_element_id element_id && str_eq u.waiting_for (message_wait name))) [
        | inl y ↦
            let same : u ≡ t = ground (arith, y, w) in
            subst
              (λ v.
                IsIn v (u ∷ ts)
                × (str_eq v.current_element_id element_id ≡ true)
                × (v.waiting_for ≡ message_wait name))
              same
              (
                inl refl,
                ground (arith, y),
                (eq_iff u.waiting_for (message_wait name)).0 (ground (arith, y)),
              )
        | inr n ↦
            let (member, at, waits) =
              first_waiting-some element_id name ts t (ground (arith, n, w)) in
            (inr member, at, waits)
      ]

module _ (e : Env) (r : Request) (s : Messages) where
  send-open :
      (c : Callback)
      → s.has_channel ≡ true
      → s.channel_full ≡ false
      → send c s ≡ record s { sent = s.sent ++ c ∷ [] }
  unfolding send
  send-open c channel room = simp (channel, room)

  -- One callback for the subscription, and the buffer as it was.
  abbrev pub Delivered : Subscription → String → Option String → Messages → Type 0
  Delivered sub instance token s' =
      (s'.sent ≡ s.sent ++ callback_of e r instance sub token ∷ []) × (s'.buffered ≡ s.buffered)

  correlate_start-Delivered :
      (sub : Subscription)
      → s.has_channel ≡ true
      → s.channel_full ≡ false
      → Delivered sub e.instance_id none (correlate_start e r sub s).0
  unfolding correlate_start
  correlate_start-Delivered sub channel room =
      let c = callback_of e r e.instance_id sub none in
      let k = keep_result-Keeps _ (send c s) in
      (
        k.sent ∙ ap (λ o. o.sent) (send-open c channel room),
        k.buffer ∙ ap (λ o. o.buffered) (send-open c channel room),
      )

  correlate_token-Delivered :
      (sub : Subscription) (t : Token)
      → s.has_channel ≡ true
      → s.channel_full ≡ false
      → Delivered sub t.process_instance_id (some t.token_id) (correlate_token e r sub t s).0
  unfolding correlate_token
  correlate_token-Delivered sub t channel room =
      let c = callback_of e r t.process_instance_id sub (some t.token_id) in
      let d = without_subscription-Keeps sub.id (send c s) in
      let k = keep_result-Keeps _ (without_subscription sub.id (send c s)) in
      (
        k.sent ∙ d.sent ∙ ap (λ o. o.sent) (send-open c channel room),
        k.buffer ∙ d.buffer ∙ ap (λ o. o.buffered) (send-open c channel room),
      )

  -- The tokens in the store that wait.
  abbrev pub waiting : List Token
  waiting = tokens_where (is_in_state TokenState.waiting) s.tokens

  -- A process is started where no token waits at the element of the subscription.
  abbrev pub Starts : Subscription → Messages × Option CorrelationResult → Type 0
  Starts sub o = All (λ t. is_at sub t ≡ false) waiting × Delivered sub e.instance_id none o.0

  -- A token that waits there for this message gets the callback.
  abbrev pub Resumes : Subscription → Messages × Option CorrelationResult → Type 0
  Resumes sub o =
      (t : Token) × IsIn t waiting
      × (is_at sub t ≡ true)
      × (t.waiting_for ≡ message_wait r.name)
      × Delivered sub t.process_instance_id (some t.token_id) o.0

  -- A token waits there, and none for this message: nothing is sent and nothing kept.
  abbrev pub Drops : Subscription → Messages × Option CorrelationResult → Type 0
  Drops sub o =
      ((t : Token) × IsIn t waiting × (is_at sub t ≡ true))
      × All (λ t. (is_at sub t && str_eq t.waiting_for (message_wait r.name)) ≡ false) waiting
      × (o ≡ (s, some (new_result e r)))

  abbrev pub Fate : Messages × Option CorrelationResult → Type 0
  Fate o =
      ((target_of r s ≡ none)
        × (lookup e.message_id o.0.buffered ≡ some (message_of e r))
        × (o.0.sent ≡ s.sent))
      ⊎ ((sub : Subscription) × (target_of r s ≡ some sub)
          × (Starts sub o ⊎ Resumes sub o ⊎ Drops sub o))

  list_subscriptions-works :
      s.list_subscriptions_fails ≡ false
      → list_subscriptions r.tenant_id 100 s
        ≡ some (take 100 (subscriptions_of r.tenant_id s.subscriptions))
  unfolding list_subscriptions
  list_subscriptions-works works = simp works

  save_buffered-works :
      s.save_buffered_fails ≡ false
      → save_buffered (message_of e r) s
        ≡ some (record s { buffered = insert e.message_id (message_of e r) s.buffered })
  unfolding save_buffered
  save_buffered-works works = simp works

  buffer_message-Fate :
      s.save_buffered_fails ≡ false → target_of r s ≡ none → Fate (buffer_message e r s)
  unfolding buffer_message
  buffer_message-Fate saves n =
      let s' : Messages = record s { buffered = insert e.message_id (message_of e r) s.buffered } in
      let k = keep_result-Keeps (new_result e r) s' in
      let direct : buffer_message e r s ≡ keep_result (new_result e r) s' =
        simp (buffer_message, save_buffered-works saves) in
      subst Fate (sym direct) (
        inl (
          n,
          ap (lookup e.message_id) k.buffer
              ∙ lookup-insert_self e.message_id (message_of e r) s.buffered,
          k.sent,
        ))

  find_waiting_token-works :
      (element_id : String)
      → s.token_read_fails ≡ false
      → find_waiting_token element_id r.name s
        ≡ some (
            first_waiting element_id r.name
              (tokens_where (is_in_state TokenState.waiting) s.tokens))
  unfolding find_waiting_token waiting_tokens
  find_waiting_token-works element_id works = simp (find_waiting_token, waiting_tokens, works)

  is_intermediate_catch_event-works :
      (element_id : String)
      → s.token_read_fails ≡ false
      → is_intermediate_catch_event element_id s ≡ has_token_at element_id waiting
  unfolding is_intermediate_catch_event waiting_tokens
  is_intermediate_catch_event-works element_id works =
      simp (is_intermediate_catch_event, waiting_tokens, works)

  correlate_catch-Fate :
      (sub : Subscription)
      → (t : Token) × IsIn t waiting × (is_at sub t ≡ true)
      → is_intermediate_catch_event sub.start_event_id s ≡ true
      → s.token_read_fails ≡ false
      → s.has_channel ≡ true
      → s.channel_full ≡ false
      → Resumes sub (correlate e r sub s) ⊎ Drops sub (correlate e r sub s)
  unfolding correlate
  correlate_catch-Fate sub someone catch reads channel room =
      after (first_waiting sub.start_event_id r.name waiting) refl
    where
      after :
          (o : Option Token)
          → first_waiting sub.start_event_id r.name waiting ≡ o
          → Resumes sub (correlate e r sub s) ⊎ Drops sub (correlate e r sub s)
      after none w =
          let found = find_waiting_token-works sub.start_event_id reads ∙ ap some w in
          inr (
            someone,
            first_waiting-none sub.start_event_id r.name waiting w,
            simp (correlate, catch, found),
          )
      after (some t) w =
          let found = find_waiting_token-works sub.start_event_id reads ∙ ap some w in
          let direct : correlate e r sub s ≡ correlate_token e r sub t s =
            simp (correlate, catch, found) in
          let (member, at, waits) = first_waiting-some sub.start_event_id r.name waiting t w in
          inl (
            t,
            member,
            at,
            waits,
            subst (λ o. Delivered sub t.process_instance_id (some t.token_id) o.0) (sym direct)
                (correlate_token-Delivered sub t channel room),
          )

  correlate-Fate :
      (sub : Subscription)
      → s.token_read_fails ≡ false
      → s.has_channel ≡ true
      → s.channel_full ≡ false
      → Starts sub (correlate e r sub s)
        ⊎ Resumes sub (correlate e r sub s)
        ⊎ Drops sub (correlate e r sub s)
  unfolding correlate
  correlate-Fate sub reads channel room =
      let catches = is_intermediate_catch_event-works sub.start_event_id reads in
      elim (Bool-cases (has_token_at sub.start_event_id waiting)) [
        | inr start ↦
            let direct : correlate e r sub s ≡ correlate_start e r sub s =
              simp (correlate, catches ∙ start) in
            inl (
              has_token_at-none sub.start_event_id waiting start,
              subst (λ o. Delivered sub e.instance_id none o.0) (sym direct)
                  (correlate_start-Delivered sub channel room),
            )
        | inl catch ↦ inr (
            correlate_catch-Fate sub (has_token_at-some sub.start_event_id waiting catch)
              (catches ∙ catch) reads channel room)
      ]

  -- Where the reads and the save of the message work and the channel has room, a message without a
  -- subscription is in the buffer afterwards, and no callback is sent. One with a subscription leaves
  -- the buffer as it is: where no token waits at the element of the subscription, exactly one
  -- callback is sent, which starts a process; where one waits there for this message, exactly one is
  -- sent, to such a token; and where tokens wait there but none for this message, the call reports
  -- success and changes nothing.
  pub publish_message-Fate :
      s.list_subscriptions_fails ≡ false
      → s.save_buffered_fails ≡ false
      → s.token_read_fails ≡ false
      → s.has_channel ≡ true
      → s.channel_full ≡ false
      → Fate (publish_message e r s)
  unfolding publish_message
  publish_message-Fate lists saves reads channel room = elim (Option-cases (target_of r s)) [
    | inl n ↦
        let direct : publish_message e r s ≡ buffer_message e r s =
          simp (publish_message, list_subscriptions-works lists, n) in
        subst Fate (sym direct) (buffer_message-Fate saves n)
    | inr (sub, f) ↦
        let direct : publish_message e r s ≡ correlate e r sub s =
          simp (publish_message, list_subscriptions-works lists, f) in
        inr (
          sub,
          f,
          subst (λ o. Starts sub o ⊎ Resumes sub o ⊎ Drops sub o) (sym direct)
              (correlate-Fate sub reads channel room),
        )
  ]
