-- ===== src/Messages/Examples.antt =====
-- Messages, subscriptions and a waiting token.
use atom_engine.Base.{
  ◌≡◌, refl, true, false, not, none, some, [], ◌∷◌, lookup, passing_value, arith, eq_iff,
}
use atom_engine.Token.{Token, new_token, set_waiting_for}
use atom_engine.Messages.{BufferedMessage, Messages, Subscription, is_expired}
use atom_engine.Messages.Correlation.{Env, Request, publish_message}
use atom_engine.Messages.Buffer.{cleanup_expired_messages}
use atom_engine.Messages.Subscriptions.{create_subscription}
use atom_engine.Messages.Delivery.{Fate, publish_message-Fate}
use atom_engine.Messages.Expiry.{cleanup_expired_messages-fresh}
use atom_engine.Messages.Uniqueness.{IsUnique, create_subscription-IsUnique}

abbrev waiting_token : Token
unfolding new_token set_waiting_for
waiting_token = set_waiting_for 11 "message:paid" (new_token "t1" 10 "i" "order" "wait")

abbrev paid : Subscription
paid = record {
  id = "s1";
  tenant_id = "";
  process_definition_key = "order";
  process_version = 1;
  start_event_id = "wait";
  message_name = "paid";
  message_ref = "";
  correlation_key = "";
  is_active = true;
  created_at = 1;
  updated_at = 1;
}

abbrev old_message : BufferedMessage
old_message = record {
  id = "m0";
  tenant_id = "";
  name = "sent";
  correlation_key = "";
  variables = [];
  published_at = 1;
  buffered_at = 1;
  expires_at = some 5;
  reason = "";
  element_id = "";
}

abbrev messages : Messages
messages = record {
  subscriptions = ("s1", paid) ∷ [];
  buffered = ("m0", old_message) ∷ [];
  results = [];
  tokens = ("t1", waiting_token) ∷ [];
  list_subscriptions_fails = false;
  save_subscription_fails = false;
  delete_subscription_fails = false;
  list_buffered_fails = false;
  save_buffered_fails = false;
  delete_buffered_fails = false;
  save_result_fails = false;
  token_read_fails = false;
  has_channel = true;
  channel_full = false;
  sent = [];
}

abbrev env : Env
env = record { message_id = "m1"; result_id = "r1"; instance_id = "i2"; now = 20 }

abbrev payment : Request
payment = record {
  tenant_id = "";
  name = "paid";
  correlation_key = "order-7";
  element_id = "";
  variables = [];
  ttl = none;
}

publish_message-Fate_example : Fate env payment messages (publish_message env payment messages)
publish_message-Fate_example = publish_message-Fate env payment messages refl refl refl refl refl

cleanup_expired_messages-fresh_example :
    lookup "m0" (cleanup_expired_messages 20 messages).0.buffered
    ≡ passing_value (λ m. not (is_expired 20 m)) (some old_message)
unfolding lookup
cleanup_expired_messages-fresh_example =
    cleanup_expired_messages-fresh 20 messages refl refl (ground arith) (refl, tt) (refl, tt) "m0"

abbrev shipped : Subscription
shipped = record paid { id = "s2"; start_event_id = "ship"; message_name = "shipped" }

messages-IsUnique : IsUnique messages.subscriptions
unfolding IsUnique lookup
messages-IsUnique j k a b e f h = ground (arith, eq_iff "s1" j, eq_iff "s1" k)

create_subscription-IsUnique_example :
    IsUnique (create_subscription shipped messages).0.subscriptions
create_subscription-IsUnique_example =
    create_subscription-IsUnique shipped messages messages-IsUnique
