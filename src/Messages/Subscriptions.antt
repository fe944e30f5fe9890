-- ===== src/Messages/Subscriptions.antt =====
-- The subscriptions to messages (src/messages/subscription_manager.go).
use atom_engine.Base.{
  ℕ, String, Bool, true, false, ◌&&◌, Option, none, some, List, [], ◌∷◌, Dict, str_eq,
  if◌then◌else◌,
}
use atom_engine.Messages.{
  Messages, Subscription, delete_subscription_record, list_subscriptions, save_subscription,
}

-- `GetProcessMessageSubscription`: the first that has the tenant, the process and the event.
abbrev pub is_same_event : String → String → String → Subscription → Bool
is_same_event tenant_id process_key event_id s =
    str_eq s.tenant_id tenant_id
    && str_eq s.process_definition_key process_key
    && str_eq s.start_event_id event_id

unfoldable pub first_same_event : String → String → String → Dict Subscription → Option Subscription
first_same_event tenant_id process_key event_id [] = none
first_same_event tenant_id process_key event_id ((_, s) ∷ rest) =
    if is_same_event tenant_id process_key event_id s
    then some s
    else first_same_event tenant_id process_key event_id rest

pub data Error : Type 0 where
  list_failed already_exists not_found save_failed delete_failed : Error

-- The error, or `none` where the call succeeds.
unfoldable pub create_subscription : Subscription → Messages → Messages × Option Error
unfolding first_same_event
create_subscription sub s =
    if s.list_subscriptions_fails
    then (s, some list_failed)
    else elim (first_same_event sub.tenant_id sub.process_definition_key sub.start_event_id
        s.subscriptions) [
          | some _ ↦ (s, some already_exists)
          | none ↦ elim (save_subscription sub s) [
            | none ↦ (s, some save_failed)
            | some s' ↦ (s', none)
          ]
        ]

unfoldable pub find_by_id : String → List Subscription → Option Subscription
find_by_id id [] = none
find_by_id id (sub ∷ rest) = if str_eq sub.id id then some sub else find_by_id id rest

-- `none` is the error of the list.
unfoldable pub get_subscription_by_id : String → Messages → Option (Option Subscription)
unfolding find_by_id
get_subscription_by_id id s = elim (list_subscriptions "" 1000 s) [
  | none ↦ none
  | some subs ↦ some (find_by_id id subs)
]

unfoldable pub delete_subscription : String → Messages → Messages × Option Error
unfolding get_subscription_by_id
delete_subscription id s = elim (get_subscription_by_id id s) [
  | none ↦ (s, some list_failed)
  | some none ↦ (s, some not_found)
  | some (some _) ↦ elim (delete_subscription_record id s) [
    | none ↦ (s, some delete_failed)
    | some s' ↦ (s', none)
  ]
]

unfoldable pub update_subscription : Subscription → Messages → Messages × Option Error
unfolding get_subscription_by_id
update_subscription sub s = elim (get_subscription_by_id sub.id s) [
  | none ↦ (s, some list_failed)
  | some none ↦ (s, some not_found)
  | some (some _) ↦ elim (save_subscription sub s) [
    | none ↦ (s, some save_failed)
    | some s' ↦ (s', none)
  ]
]

abbrev same_flag : Bool → Bool → Bool
same_flag true b = b
same_flag false true = false
same_flag false false = true

-- One function for `ActivateSubscription` and `DeactivateSubscription`, which differ in the flag.
unfoldable pub set_active : Bool → ℕ → String → Messages → Messages × Option Error
unfolding get_subscription_by_id
set_active flag now id s = elim (get_subscription_by_id id s) [
  | none ↦ (s, some list_failed)
  | some none ↦ (s, some not_found)
  | some (some sub) ↦
      if same_flag sub.is_active flag
      then (s, none)
      else elim (save_subscription (record sub { is_active = flag; updated_at = now }) s) [
        | none ↦ (s, some save_failed)
        | some s' ↦ (s', none)
      ]
]
