-- ===== src/Messages.antt =====
-- Messages (src/messages): their records (src/core/models/message.go) and their storage
-- (src/storage/storage_message.go). The children hold the three managers.

pub mod Buffer
pub mod Correlation
pub mod Delivery
pub mod Examples
pub mod Expiry
pub mod Subscriptions
pub mod Targets
pub mod Uniqueness
use atom_engine.Base.{
  ℕ, String, Bool, true, false, ◌&&◌, ◌||◌, Option, none, some, List, [], ◌∷◌, ◌++◌, Dict, lookup,
  insert, remove, take, ltb, str_eq, if◌then◌else◌,
}
use atom_engine.Token.{Token, Value}

pub record Subscription : Type 0 where
  pub id : String
  pub tenant_id : String
  pub process_definition_key : String
  pub process_version : ℕ
  pub start_event_id : String
  pub message_name : String
  pub message_ref : String
  pub correlation_key : String
  pub is_active : Bool
  pub created_at : ℕ
  pub updated_at : ℕ

pub record BufferedMessage : Type 0 where
  pub id : String
  pub tenant_id : String
  pub name : String
  pub correlation_key : String
  pub variables : Dict Value
  pub published_at : ℕ
  pub buffered_at : ℕ
  pub expires_at : Option ℕ
  pub reason : String
  pub element_id : String

pub record CorrelationResult : Type 0 where
  pub id : String
  pub message_id : String
  pub tenant_id : String
  pub message_name : String
  pub correlation_key : String
  pub process_instance_id : String
  pub variables : Dict Value
  pub created_at : ℕ
  pub instance_created : Bool
  pub error_message : String

-- What is sent to the engine when a message is correlated; `none` is an object without a token.
pub record Callback : Type 0 where
  pub message_id : String
  pub message_name : String
  pub correlation_key : String
  pub process_instance_id : String
  pub subscription_id : String
  pub variables : Dict Value
  pub correlated_at : ℕ
  pub token_id : Option String

-- The records under the prefixes of the storage, the tokens of the engine, and which calls to the
-- database fail. `sent` is what the channel of the callbacks was given, the oldest first.
pub record Messages : Type 0 where
  pub subscriptions : Dict Subscription
  pub buffered : Dict BufferedMessage
  pub results : Dict CorrelationResult
  pub tokens : Dict Token
  pub list_subscriptions_fails : Bool
  pub save_subscription_fails : Bool
  pub delete_subscription_fails : Bool
  pub list_buffered_fails : Bool
  pub save_buffered_fails : Bool
  pub delete_buffered_fails : Bool
  pub save_result_fails : Bool
  pub token_read_fails : Bool
  pub has_channel : Bool
  pub channel_full : Bool
  pub sent : List Callback

unfoldable pub is_expired : ℕ → BufferedMessage → Bool
is_expired now m = elim m.expires_at [ none ↦ false | some end ↦ ltb end now ]

abbrev pub is_of_tenant : String → String → Bool
is_of_tenant wanted tenant_id = str_eq wanted "" || str_eq tenant_id wanted

-- The loops of the lists, without an offset.
unfoldable pub subscriptions_of : String → Dict Subscription → List Subscription
subscriptions_of tenant_id [] = []
subscriptions_of tenant_id ((_, s) ∷ rest) =
    if is_of_tenant tenant_id s.tenant_id
    then s ∷ subscriptions_of tenant_id rest
    else subscriptions_of tenant_id rest

unfoldable pub messages_of : String → Dict BufferedMessage → List BufferedMessage
messages_of tenant_id [] = []
messages_of tenant_id ((_, m) ∷ rest) =
    if is_of_tenant tenant_id m.tenant_id
    then m ∷ messages_of tenant_id rest
    else messages_of tenant_id rest

-- A list that fails is `none`. The limits of the source are positive.
unfoldable pub list_subscriptions : String → ℕ → Messages → Option (List Subscription)
unfolding subscriptions_of
list_subscriptions tenant_id limit s =
    if s.list_subscriptions_fails
    then none
    else some (take limit (subscriptions_of tenant_id s.subscriptions))

unfoldable pub list_buffered : String → ℕ → Messages → Option (List BufferedMessage)
unfolding messages_of
list_buffered tenant_id limit s =
    if s.list_buffered_fails then none else some (take limit (messages_of tenant_id s.buffered))

-- A write that fails is `none`.
unfoldable pub save_subscription : Subscription → Messages → Option Messages
save_subscription sub s =
    if s.save_subscription_fails
    then none
    else some (record s { subscriptions = insert sub.id sub s.subscriptions })

unfoldable pub delete_subscription_record : String → Messages → Option Messages
delete_subscription_record id s =
    if s.delete_subscription_fails
    then none
    else some (record s { subscriptions = remove id s.subscriptions })

unfoldable pub save_buffered : BufferedMessage → Messages → Option Messages
save_buffered m s =
    if s.save_buffered_fails then none else some (record s { buffered = insert m.id m s.buffered })

unfoldable pub delete_buffered : String → Messages → Option Messages
delete_buffered id s =
    if s.delete_buffered_fails then none else some (record s { buffered = remove id s.buffered })

unfoldable pub save_result : CorrelationResult → Messages → Option Messages
save_result r s =
    if s.save_result_fails then none else some (record s { results = insert r.id r s.results })
