-- ===== src/Messages/Correlation.antt =====
-- The correlation of a message with a subscription (PublishMessage and CorrelateMessage of
-- src/messages/correlation_manager.go). One call reads the clock once; the text of an error is cut short.
use atom_engine.Base.{
  ℕ, ◌+◌, String, true, false, Option, none, some, [], ◌∷◌, ◌++◌, Dict, if◌then◌else◌,
}
use atom_engine.Token.{Token, Value}
use atom_engine.Messages.{
  BufferedMessage, Callback, CorrelationResult, Messages, Subscription, delete_subscription_record,
  list_subscriptions, save_buffered, save_result,
}
use atom_engine.Messages.Targets.{find_target, is_intermediate_catch_event, find_waiting_token}

pub record Request : Type 0 where
  pub tenant_id : String
  pub name : String
  pub correlation_key : String
  pub element_id : String
  pub variables : Dict Value
  pub ttl : Option ℕ

-- What `GenerateID` gives to the message, the result and a new instance, and the time.
pub record Env : Type 0 where
  pub message_id : String
  pub result_id : String
  pub instance_id : String
  pub now : ℕ

abbrev pub new_result : Env → Request → CorrelationResult
new_result e r = record {
  id = e.result_id;
  message_id = e.message_id;
  tenant_id = r.tenant_id;
  message_name = r.name;
  correlation_key = r.correlation_key;
  process_instance_id = "";
  variables = r.variables;
  created_at = e.now;
  instance_created = false;
  error_message = "";
}

abbrev pub callback_of : Env → Request → String → Subscription → Option String → Callback
callback_of e r instance_id sub token_id = record {
  message_id = e.message_id;
  message_name = r.name;
  correlation_key = r.correlation_key;
  process_instance_id = instance_id;
  subscription_id = sub.id;
  variables = r.variables;
  correlated_at = e.now;
  token_id = token_id;
}

-- A callback for a full channel is dropped.
unfoldable pub send : Callback → Messages → Messages
send c s =
    if s.has_channel
    then (if s.channel_full then s else record s { sent = s.sent ++ c ∷ [] })
    else s

abbrev pub message_of : Env → Request → BufferedMessage
message_of e r = record {
  id = e.message_id;
  tenant_id = r.tenant_id;
  name = r.name;
  correlation_key = r.correlation_key;
  variables = r.variables;
  published_at = e.now;
  buffered_at = e.now;
  expires_at = elim r.ttl [ none ↦ none | some ttl ↦ some (e.now + ttl) ];
  reason = "No active subscription found";
  element_id = r.element_id;
}

-- A failed save of the result is logged.
unfoldable pub keep_result : CorrelationResult → Messages → Messages × Option CorrelationResult
keep_result result s = elim (save_result result s) [
  | none ↦ (s, some result)
  | some s' ↦ (s', some result)
]

unfoldable pub buffer_message : Env → Request → Messages → Messages × Option CorrelationResult
unfolding keep_result
buffer_message e r s = elim (save_buffered (message_of e r) s) [
  | none ↦ keep_result (record (new_result e r) { error_message = "failed to buffer message" }) s
  | some s' ↦ keep_result (new_result e r) s'
]

-- A subscription that cannot be deleted stays.
abbrev pub without_subscription : String → Messages → Messages
without_subscription id s = elim (delete_subscription_record id s) [ none ↦ s | some s' ↦ s' ]

unfoldable pub correlate_token :
    Env → Request → Subscription → Token → Messages → Messages × Option CorrelationResult
unfolding keep_result send
correlate_token e r sub t s =
    keep_result (record (new_result e r) { process_instance_id = t.process_instance_id })
      (without_subscription sub.id
        (send (callback_of e r t.process_instance_id sub (some t.token_id)) s))

unfoldable pub correlate_start :
    Env → Request → Subscription → Messages → Messages × Option CorrelationResult
unfolding keep_result send
correlate_start e r sub s =
    keep_result
      (record (new_result e r) { process_instance_id = e.instance_id; instance_created = true })
      (send (callback_of e r e.instance_id sub none) s)

-- From the target on; `none` is the error of the call.
unfoldable pub correlate :
    Env → Request → Subscription → Messages → Messages × Option CorrelationResult
unfolding is_intermediate_catch_event find_waiting_token correlate_token correlate_start
correlate e r sub s =
    if is_intermediate_catch_event sub.start_event_id s
    then elim (find_waiting_token sub.start_event_id r.name s) [
      | none ↦ (s, none)
      | some none ↦ (s, some (new_result e r))
      | some (some t) ↦ correlate_token e r sub t s
    ]
    else correlate_start e r sub s

unfoldable pub publish_message : Env → Request → Messages → Messages × Option CorrelationResult
unfolding find_target correlate buffer_message
publish_message e r s = elim (list_subscriptions r.tenant_id 100 s) [
  | none ↦ (s, none)
  | some subs ↦ elim (find_target r.name r.correlation_key subs) [
    | none ↦ buffer_message e r s
    | some sub ↦ correlate e r sub s
  ]
]

-- The result of a correlation with a given instance is only saved; `none` is the error of the save.
unfoldable pub correlate_message :
    Env → String → Request → Messages → Messages × Option CorrelationResult
correlate_message e process_instance_id r s =
    let result : CorrelationResult = record (new_result e r) {
      id = e.message_id;
      process_instance_id = process_instance_id;
    } in
    elim (save_result result s) [ none ↦ (s, none) | some s' ↦ (s', some result) ]
