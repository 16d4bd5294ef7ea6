-- ===== src/Mqtt/Access.antt =====
-- Which client may publish to a topic, subscribe to it and get its messages, from
-- mqtt/mqtt.handlers.ts.
pub mod Laws
pub mod Reach
use nexusflow_backend.Prelude.{
  ℕ, Bool, true, false, not, ◌&&◌, ◌||◌, String, List, [], ◌∷◌, Option, none, some, is_empty, any,
  ◌===◌, ◌==◌, if◌then◌else◌, has_char,
}
use nexusflow_backend.Mqtt.Topics.{
  normalize_mac_address, is_devices_topic, is_esp_topic, extract_devices_topic_mac,
  extract_esp_topic_mac, devices_mac, segments,
}

-- What the handlers keep of a client on its connection. A flag that is not set is false, a missing
-- list or id is empty.
pub record Client : Type 0 where
  pub id : String
  pub device_mac : Option String
  pub device_id : Option String
  pub device_name : Option String
  pub owner_id : Option String
  pub owner_username : Option String
  pub linked_flow_id : Option String
  pub is_esp : Bool
  pub is_user_client : Bool
  pub authorized_device_macs : List String
  pub user_id : Option String
  pub mqtt_username : Option String
  pub connected_at : Option ℕ

-- `topicMac === normalizedClientMac`
abbrev pub is_mac_of : String → Option String → Bool
is_mac_of client_mac none = false
is_mac_of client_mac (some mac) = mac === normalize_mac_address client_mac

-- `topicMac && authorizedDeviceMacs.includes(topicMac)`
abbrev pub is_among : List String → Option String → Bool
is_among macs none = false
is_among macs (some mac) = not (is_empty mac) && any (λ m. m === mac) macs

-- `isAuthorizedForDevicesTopic`, which is `isAuthorizedDevicesSubscriptionFilter` too: a filter is
-- cut in the same way.
unfoldable pub is_authorized_for_devices_topic : String → String → Bool
is_authorized_for_devices_topic client_mac topic =
    is_mac_of client_mac (extract_devices_topic_mac topic)

unfoldable pub is_authorized_devices_subscription_filter : String → String → Bool
is_authorized_devices_subscription_filter client_mac filter =
    is_mac_of client_mac (devices_mac (segments filter))

-- `isUserAuthorizedForDevicesTopic` and `isUserAuthorizedDevicesSubscriptionFilter`
unfoldable pub is_user_authorized_for_devices_topic : Client → String → Bool
is_user_authorized_for_devices_topic client topic =
    is_among client.authorized_device_macs (extract_devices_topic_mac topic)

-- `isAuthorizedForEspTopic` and `isAuthorizedEspSubscriptionFilter`
unfoldable pub is_authorized_for_esp_topic : String → String → Bool
is_authorized_for_esp_topic client_mac topic = is_mac_of client_mac (extract_esp_topic_mac topic)

-- `isUserAuthorizedForEspTopic` and `isUserAuthorizedEspSubscriptionFilter`
unfoldable pub is_user_authorized_for_esp_topic : Client → String → Bool
is_user_authorized_for_esp_topic client topic =
    is_among client.authorized_device_macs (extract_esp_topic_mac topic)

-- `clientMac && check(clientMac, topic)`
abbrev pub with_mac : (String → Bool) → Option String → Bool
with_mac check none = false
with_mac check (some mac) = not (is_empty mac) && check mac

-- The two ways past a guard: as an ESP, and as a client of a user.
abbrev pub passes : (String → Bool) → Bool → Client → Bool
passes esp_check user_check client =
    client.is_esp && with_mac esp_check client.device_mac || client.is_user_client && user_check

abbrev pub passes_devices : Client → String → Bool
passes_devices client topic =
    passes (λ mac. is_authorized_for_devices_topic mac topic)
      (is_user_authorized_for_devices_topic client topic) client

abbrev pub passes_devices_filter : Client → String → Bool
passes_devices_filter client topic =
    passes (λ mac. is_authorized_devices_subscription_filter mac topic)
      (is_user_authorized_for_devices_topic client topic) client

abbrev pub passes_esp : Client → String → Bool
passes_esp client topic =
    passes (λ mac. is_authorized_for_esp_topic mac topic)
      (is_user_authorized_for_esp_topic client topic) client

-- What `done` gets: no error, or that of a topic that is not the client's.
pub data PublishAnswer : Type 0 where
  published unauthorized_topic : PublishAnswer

-- `onAuthorizePublish`
unfoldable pub on_authorize_publish : Client → String → PublishAnswer
on_authorize_publish client topic =
    if is_devices_topic topic
    then if passes_devices client topic then published else unauthorized_topic
    else if is_esp_topic topic
    then if passes_esp client topic then published else unauthorized_topic
    else published

pub record Subscription : Type 0 where
  pub topic : String
  pub qos : ℕ

-- `topic.includes('#') || topic.includes('+')`
abbrev pub has_wildcard : String → Bool
has_wildcard topic = has_char b'#' topic || has_char b'+' topic

-- `onAuthorizeSubscribe`: the subscription that is granted, if it is.
unfoldable pub on_authorize_subscribe : Client → Subscription → Option Subscription
on_authorize_subscribe client sub =
    let topic = sub.topic in
    if is_esp_topic topic && has_wildcard topic
    then if passes_esp client topic then some sub else none
    else if is_devices_topic topic && has_wildcard topic
    then if passes_devices_filter client topic then some sub else none
    else if has_wildcard topic
    then some sub
    else if is_devices_topic topic
    then if passes_devices_filter client topic then some sub else none
    else if is_esp_topic topic
    then if passes_esp client topic then some sub else none
    else some sub

-- `onAuthorizeForward`: the packet, or nothing where it is held back.
unfoldable pub on_authorize_forward : Client → String → Option String
on_authorize_forward client topic =
    if is_devices_topic topic
    then if passes_devices client topic then some topic else none
    else if is_esp_topic topic
    then if passes_esp client topic then some topic else none
    else some topic
