-- ===== src/Tests/Mqtt.antt =====
-- The theorems on topics and sessions of MQTT, at a device and two clients that log in as it.
use nexusflow_backend.Prelude.{
  subst, ◌||◌, ◌≡◌, ◌≢◌, refl, ap, inl, ◌⊎◌, true, false, Bool, String, [], ◌∷◌, none, some,
  some-injective, trim, is_empty, split, has_char, ◌===◌, to_upper_case,
}
use nexusflow_backend.Platform.Memory.{memory, holding}
use nexusflow_backend.Flows.Schemas.{
  build_input_topic, build_output_topic, normalize_flow_topic_scope,
}
use nexusflow_backend.Mqtt.Topics.{
  TopicParts, normalize_mac_address, is_mac_address, is_devices_topic, is_esp_topic, segments,
  extract_devices_topic_mac, get_input_topic_parts, get_output_topic_parts,
  build_function_error_topic, build_function_debug_topic,
}
use nexusflow_backend.Mqtt.Topics.Laws.{IsName, topic_parts_of_built}
use nexusflow_backend.Mqtt.Access.{
  Client, published, on_authorize_publish, is_authorized_for_devices_topic,
}
use nexusflow_backend.Mqtt.Access.Laws.{Names}
use nexusflow_backend.Mqtt.Access.Reach.{IsAddress, IsOpen, function_topics_reach_own}
use nexusflow_backend.Mqtt.Accounts.{Device, authenticate_by_mac_and_password}
use nexusflow_backend.Mqtt.Sessions.{
  Limits, AuthAnswer, accepted, rejected, Mqtt, authenticate_device, on_authenticate,
}
use nexusflow_backend.Mqtt.Broker.{is_client_connected, reserve_esp_session}
use nexusflow_backend.Mqtt.Broker.Memory.{in_memory}
use nexusflow_backend.Mqtt.Sessions.Owners.{authenticated_client_reaches_own, AsDevice, AsUser}
use nexusflow_backend.Mqtt.Sessions.Exclusive.{device_has_one_session}

abbrev mac : String
mac = "AA:BB:CC:00:11:22"

abbrev device : Device
device = record {
  mac_address = mac;
  mqtt_pass = some "secret";
  name = some "lamp";
  owner_id = none;
  active_flow_id = none;
  status = "active";
  created_at = 1;
}

abbrev newcomer : String → Client
newcomer id = record {
  id = id;
  device_mac = none;
  device_id = none;
  device_name = none;
  owner_id = none;
  owner_username = none;
  linked_flow_id = none;
  is_esp = false;
  is_user_client = false;
  authorized_device_macs = [];
  user_id = none;
  mqtt_username = none;
  connected_at = none;
}

abbrev limits : Limits
limits = record { max_user_mqtt_sessions = 5; max_owner_online_devices = 5 }

abbrev broker : Mqtt in_memory
broker = record {
  devices = holding (device ∷ []);
  users = holding [];
  sessions = λ key. none;
  clients = [];
}

abbrev fits : String → String → Bool
fits password hash = password === hash

abbrev login : AuthAnswer × Mqtt in_memory
login = on_authenticate fits in_memory limits 7 (newcomer mac) "" "secret" broker

abbrev let_in : Client
let_in = record (newcomer mac) {
  device_mac = some mac;
  device_id = some "1";
  device_name = some "lamp";
  is_esp = true;
  connected_at = some 7;
}

lets_in : login ≡ (accepted let_in, login.1)
unfolding on_authenticate authenticate_device authenticate_by_mac_and_password reserve_esp_session
    trim is_empty is_mac_address normalize_mac_address to_upper_case
lets_in = refl

publishes : on_authorize_publish let_in "/devices/aa:bb:cc:00:11:22/state" ≡ published
unfolding on_authorize_publish is_devices_topic is_esp_topic is_authorized_for_devices_topic
    extract_devices_topic_mac segments split is_empty normalize_mac_address to_upper_case trim
publishes = refl

protected :
    (is_devices_topic "/devices/aa:bb:cc:00:11:22/state"
      || is_esp_topic "/devices/aa:bb:cc:00:11:22/state")
    ≡ true
unfolding is_devices_topic is_esp_topic
protected = refl

authenticated_client_reaches_own_example :
    (m : String) × Names "/devices/aa:bb:cc:00:11:22/state" m
    × (AsDevice fits broker.devices (trim mac) (trim "secret") m
        ⊎ AsUser fits broker.devices broker.users (trim "") (trim "secret") m)
authenticated_client_reaches_own_example =
    authenticated_client_reaches_own fits in_memory limits 7 (newcomer mac) let_in "" "secret"
      "/devices/aa:bb:cc:00:11:22/state" broker login.1 lets_in protected (inl publishes)

-- The broker holds the client now. The other client spells the address in small letters.
abbrev busy : Mqtt in_memory
busy = record login.1 { clients = let_in ∷ [] }

abbrev small : String
small = "aa:bb:cc:00:11:22"

is_mac : is_mac_address (trim mac) ≡ true
unfolding is_mac_address trim
is_mac = refl

is_small_mac : is_mac_address (trim small) ≡ true
unfolding is_mac_address trim
is_small_mac = refl

same_mac : normalize_mac_address (trim small) ≡ normalize_mac_address (trim mac)
unfolding normalize_mac_address trim to_upper_case
same_mac = refl

connected : is_client_connected busy.clients (trim mac) ≡ true
unfolding is_client_connected normalize_mac_address trim to_upper_case
connected = refl

differs : trim mac ≢ trim small
unfolding trim
differs e = absurd (by_test (ap (λ s. s === trim small) e))
  where
    by_test : (trim mac === trim small) ≡ (trim small === trim small) → ⊥
    by_test h = cc

device_has_one_session_example :
    (reason : String) × (on_authenticate fits in_memory limits 9 (newcomer small) "" "secret" busy
      ≡ (rejected reason, busy))
device_has_one_session_example =
    device_has_one_session in_memory fits limits 7 9 (newcomer mac) let_in (newcomer small) ""
      "secret" "" "secret" broker login.1 busy lets_in is_mac refl connected is_small_mac same_mac
      differs

node-IsName : IsName "n1"
unfolding is_empty has_char
node-IsName = record { not_empty = refl; no_slash = refl }

flow-IsName : (f : String) → normalize_flow_topic_scope (some " f7 ") ≡ some f → IsName f
unfolding normalize_flow_topic_scope trim is_empty has_char
flow-IsName f h =
    subst IsName (some-injective "f7" f h) (record { not_empty = refl; no_slash = refl })

topic_parts_of_built_example :
    let parts : TopicParts = record {
      flow_id = normalize_flow_topic_scope (some " f7 ");
      node_id = "n1";
    } in
    (get_input_topic_parts (build_input_topic "n1" (some " f7 ")) ≡ some parts)
    × (get_output_topic_parts (build_output_topic "n1" (some " f7 ")) ≡ some parts)
topic_parts_of_built_example = topic_parts_of_built "n1" (some " f7 ") node-IsName flow-IsName

mac-IsAddress : IsAddress mac
unfolding is_empty has_char normalize_mac_address trim to_upper_case
mac-IsAddress = record {
  name = record { not_empty = refl; no_slash = refl };
  no_plus = refl;
  no_hash = refl;
  normal = refl;
}

function_topics_reach_own_example :
    IsOpen let_in (build_function_error_topic mac "n1")
    × IsOpen let_in (build_function_debug_topic mac "n1")
function_topics_reach_own_example =
    function_topics_reach_own let_in mac "n1" mac-IsAddress
      (inl (refl, mac, refl, mac-IsAddress.normal))
