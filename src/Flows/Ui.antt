-- ===== src/Flows/Ui.antt =====
-- The items of the user interface of a flow: `buildUiFromNodes` of flow-builder.service.ts, with
-- `UiItem` of src/flows/schemas. The state is how many random numbers were drawn.
pub mod Laws
use nexusflow_backend.Prelude.{
  ℕ, Bool, true, false, not, ◌||◌, ◌&&◌, String, List, [], ◌∷◌, ◌++◌, Option, none, some, is_some,
  ◌===◌, ◌⧺◌, any, if◌then◌else◌, Number, is_empty,
}
use nexusflow_backend.Action.{
  bad_request, bad_node, Result, ok, err, Action, pure, throw, throw_if, ◌>>=◌, ◌>>◌,
}
use nexusflow_backend.Platform.{Platform}
use nexusflow_backend.Flows.Schemas.{
  Node, Edge, variable, alias_or_name, build_input_topic, build_output_topic,
}
use nexusflow_backend.Flows.Values.{to_optional_number, to_boolean}
use nexusflow_backend.Flows.Setup.State.{is_kind}
use nexusflow_backend.Flows.Setup.Gpio.{is_module}
use nexusflow_backend.Flows.Setup.Sensors.{generate_task_name, is_ultrasonic}
use nexusflow_backend.Flows.Setup.Build.{is_digital_sensor, is_analog_sensor}
use nexusflow_backend.Flows.Logic.Steps.{is_function_module}
use nexusflow_backend.Flows.Logic.Channels.{normalize_mqtt_channel}

pub data ModuleType : Type 0 where
  input output other : ModuleType

pub record UiItem : Type 0 where
  pub module_id : String
  pub node_id : String
  pub module_name : String
  pub alias : Option String
  pub task_name : Option String
  pub topic : Option String
  pub response_topic : Option String
  pub channel : Option String
  pub module_type : ModuleType
  pub pin : Option Number
  pub digital_pin : Option Number
  pub analog_pin : Option Number
  pub trigger_pin : Option Number
  pub echo_pin : Option Number
  pub is_digital : Option Bool
  pub is_analog : Option Bool
  pub is_floating : Option Bool
  pub is_connected : Option Bool

abbrev bare_item : Node → ModuleType → UiItem
bare_item node module_type = record {
  module_id = node.content.module_id;
  node_id = node.id;
  module_name = node.content.name;
  alias = node.content.alias;
  task_name = none;
  topic = none;
  response_topic = none;
  channel = none;
  module_type = module_type;
  pin = none;
  digital_pin = none;
  analog_pin = none;
  trigger_pin = none;
  echo_pin = none;
  is_digital = none;
  is_analog = none;
  is_floating = none;
  is_connected = none;
}

-- `connectedOutputIds.has(id)`
abbrev pub is_target : List Edge → String → Bool
is_target edges id = any (λ (e : Edge). e.target === id) edges

abbrev given_flow : Option String → Option String
given_flow none = none
given_flow (some id) = if is_empty id then none else some id

abbrev mqtt_in_topic : Option String → String → String
mqtt_in_topic none node_id = "nexusflow/ui/mqtt-in/" ⧺ node_id
mqtt_in_topic (some flow_id) node_id = "nexusflow/ui/mqtt-in/" ⧺ flow_id ⧺ "/" ⧺ node_id

abbrev pub with_item : Option UiItem → List UiItem → List UiItem
with_item none items = items
with_item (some item) items = item ∷ items

module _ ⦃p : Platform⦄ (random : ℕ → ℕ) (edges : List Edge) (flow_id : Option String) where
  -- `generateTaskName`, counting what it draws.
  abbrev task_name_for : Node → Option Number → Action ℕ String
  task_name_for node pin draws =
      let (name, drawn) = generate_task_name random node.content.module_id pin draws in
      (ok name, drawn)

  mqtt_in_item : Node → UiItem
  mqtt_in_item node = record (bare_item node input) {
    topic = some (mqtt_in_topic (given_flow flow_id) node.id);
    channel = some (normalize_mqtt_channel (variable "channel" node));
  }

  output_item : Node → Number → UiItem
  output_item node pin = record (bare_item node output) {
    pin = some pin;
    response_topic = some (build_output_topic node.id flow_id);
    is_floating = some (not (is_target edges node.id));
    is_connected = some (is_target edges node.id);
  }

  abbrev output_with : Node → Option Number → Option UiItem
  output_with node none = none
  output_with node (some pin) = some (output_item node pin)

  abbrev missing_pin : {A : Type 0} → Node → Action ℕ A
  missing_pin node = throw (
      bad_node node.id ("Missing pin configuration for " ⧺ alias_or_name node)
        "NODE_PIN_CONFIGURATION_MISSING")

  -- A gas, a rain or a soil sensor.
  analog_sensor_item : Node → Action ℕ (Option UiItem)
  analog_sensor_item node =
      let uses_digital = to_boolean (variable "isDigital" node) in
      let uses_analog = to_boolean (variable "isAnalog" node) in
      let digital = to_optional_number (variable "digitalPin" node) in
      let analog = to_optional_number (variable "analogPin" node) in
      let pin = if uses_digital then digital else analog in
      if uses_digital && not (is_some digital) || uses_analog && not (is_some analog)
      then missing_pin node
      else task_name_for node pin >>= (λ name. pure (
          some (record (bare_item node input) {
            task_name = some name;
            topic = some (build_input_topic node.id flow_id);
            pin = pin;
            digital_pin = digital;
            analog_pin = analog;
            is_digital = some uses_digital;
            is_analog = some uses_analog;
          })))

  abbrev input_with : Node → Option Number → Action ℕ (Option UiItem)
  input_with node none = missing_pin node
  input_with node (some pin) = pure (
      some (record (bare_item node input) {
        pin = some pin;
        topic = some (build_input_topic node.id flow_id);
      }))

  -- A DHT, a PIR or an ultrasonic sensor.
  digital_sensor_item : Node → Action ℕ (Option UiItem)
  digital_sensor_item node =
      let pin = to_optional_number (variable "pinNumber" node) in
      let trigger = to_optional_number (variable "triggerPin" node) in
      let echo = to_optional_number (variable "echoPin" node) in
      let task_pin = if is_ultrasonic node then trigger else pin in
      if is_ultrasonic node && (not (is_some trigger) || not (is_some echo))
      then throw (
          bad_node node.id ("Missing trigger/echo pin configuration for " ⧺ alias_or_name node)
            "ULTRASONIC_TRIGGER_ECHO_MISSING")
      else if not (is_ultrasonic node) && not (is_some pin)
      then missing_pin node
      else task_name_for node task_pin >>= (λ name. pure (
          some (record (bare_item node input) {
            task_name = some name;
            topic = some (build_input_topic node.id flow_id);
            pin = task_pin;
            trigger_pin = trigger;
            echo_pin = echo;
          })))

  -- One round of the loop: the item of a node, if it has one.
  unfoldable pub ui_item : Node → Action ℕ (Option UiItem)
  unfolding mqtt_in_item output_item analog_sensor_item digital_sensor_item
  ui_item node =
      if is_function_module node.content.module_id
      then pure none
      else if is_module "mqtt-out" node
      then pure none
      else if is_module "mqtt-in" node
      then pure (some (mqtt_in_item node))
      else if is_kind "ESP32-gpio-output" node
      then pure (output_with node (to_optional_number (variable "pinNumber" node)))
      else if is_analog_sensor node
      then analog_sensor_item node
      else if is_kind "ESP32-gpio-input" node
      then input_with node (to_optional_number (variable "pinNumber" node))
      else if is_digital_sensor node
      then digital_sensor_item node
      else pure (
          some (record (bare_item node input) { topic = some (build_input_topic node.id flow_id) }))

  unfoldable pub ui_items : List Node → Action ℕ (List UiItem)
  ui_items [] = pure []
  ui_items (n ∷ ns) = do item ← ui_item n; rest ← ui_items ns; pure (with_item item rest)

  -- `buildUiFromNodes`
  unfoldable pub build_ui_from_nodes : List Node → Action ℕ (List UiItem)
  build_ui_from_nodes [] = throw (bad_request "Flow must contain at least one node")
  build_ui_from_nodes (n ∷ ns) = ui_items (n ∷ ns)
