-- ===== src/Mqtt/Topics.antt =====
-- The topics of MQTT messages and the devices they name, from mqtt/mqtt.handlers.ts.
pub mod Laws
use text.Mathlib.Text.{starts_with}
use Prim.Native.Char.{code}
use nexusflow_backend.Prelude.{
  ℕ, zero, suc, Bool, true, false, not, ◌&&◌, ◌||◌, String, List, [], ◌∷◌, Option, none, some,
  is_empty, is_some, ◌===◌, ◌==◌, ◌⧺◌, leb, if◌then◌else◌, select, split, trim, to_upper_case,
  behind,
}

-- `normalizeMacAddress`
unfoldable pub normalize_mac_address : String → String
normalize_mac_address value = to_upper_case (trim value)

is_hex : ℕ → Bool
is_hex c = leb b'0' c && leb c b'9' || leb b'A' c && leb c b'F' || leb b'a' c && leb c b'f'

-- Pairs of hexadecimal digits, with a colon between any two of them.
hex_pairs : ℕ → String → Bool
hex_pairs zero (String.◌∷◌ a (String.◌∷◌ b String.[])) = is_hex (code a) && is_hex (code b)
hex_pairs (suc n) (String.◌∷◌ a (String.◌∷◌ b (String.◌∷◌ c s))) =
    let rest = hex_pairs n s in is_hex (code a) && is_hex (code b) && code c == b':' && rest
hex_pairs n s = false

-- `isMacAddress`
unfoldable pub is_mac_address : String → Bool
unfolding is_hex hex_pairs
is_mac_address value = hex_pairs 5 (trim value)

-- `isDevicesTopic`
unfoldable pub is_devices_topic : String → Bool
is_devices_topic topic = starts_with topic "/devices" || starts_with topic "devices/"

-- `isEspTopic`
unfoldable pub is_esp_topic : String → Bool
is_esp_topic topic = starts_with topic "esp/"

-- `topic.split('/').filter(Boolean)`
unfoldable pub segments : String → List String
segments topic = select (λ s. not (is_empty s)) (split b'/' topic)

abbrev pub devices_mac : List String → Option String
devices_mac [] = none
devices_mac (kind ∷ []) = none
devices_mac (kind ∷ mac ∷ rest) =
    if not (kind === "devices")
    then none
    else if mac === "+" || mac === "#"
    then none
    else some (normalize_mac_address mac)

-- `extractDevicesTopicMac`
unfoldable pub extract_devices_topic_mac : String → Option String
extract_devices_topic_mac topic = devices_mac (segments topic)

abbrev pub esp_mac : List String → Option String
esp_mac [] = none
esp_mac (kind ∷ []) = none
esp_mac (kind ∷ mac ∷ rest) =
    if not (kind === "esp")
    then none
    else if not (is_mac_address mac)
    then none
    else some (normalize_mac_address mac)

-- `extractEspTopicMac`
unfoldable pub extract_esp_topic_mac : String → Option String
extract_esp_topic_mac topic = esp_mac (segments topic)

-- The flow and the node that a topic names.
pub record TopicParts : Type 0 where
  pub flow_id : Option String
  pub node_id : String

-- The parts behind the prefix, none of them empty: `[^/]+` or `[^/]+/[^/]+`, up to the end.
abbrev pub topic_parts : List String → Option TopicParts
topic_parts (node ∷ []) =
    if is_empty node then none else some (record { flow_id = none; node_id = node })
topic_parts (flow ∷ node ∷ []) =
    if is_empty flow || is_empty node
    then none
    else some (record { flow_id = some flow; node_id = node })
topic_parts parts = none

abbrev pub parts_behind : Option String → Option TopicParts
parts_behind none = none
parts_behind (some rest) = topic_parts (split b'/' rest)

-- `getInputTopicParts`
unfoldable pub get_input_topic_parts : String → Option TopicParts
get_input_topic_parts topic = parts_behind (behind "logic/input/" topic)

-- `getOutputTopicParts`
unfoldable pub get_output_topic_parts : String → Option TopicParts
get_output_topic_parts topic = parts_behind (behind "nexusflow/output/" topic)

-- `isInputTopic`
unfoldable pub is_input_topic : String → Bool
is_input_topic topic = is_some (get_input_topic_parts topic)

-- `isOutputTopic`
unfoldable pub is_output_topic : String → Bool
is_output_topic topic = is_some (get_output_topic_parts topic)

-- `buildFunctionErrorTopic`
unfoldable pub build_function_error_topic : String → String → String
build_function_error_topic device_mac node_id =
    "/devices/" ⧺ normalize_mac_address device_mac ⧺ "/logic/error/" ⧺ node_id

-- `buildFunctionDebugTopic`
unfoldable pub build_function_debug_topic : String → String → String
build_function_debug_topic device_mac node_id =
    "/devices/" ⧺ normalize_mac_address device_mac ⧺ "/logic/debug/" ⧺ node_id
