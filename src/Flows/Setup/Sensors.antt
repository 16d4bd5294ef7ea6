-- ===== src/Flows/Setup/Sensors.antt =====
-- The nodes for sensors with tasks of their own, from `buildSetupFromNodes` of
-- flow-builder.service.ts. `random` gives the numbers that `randomInt` draws, one after the other.
use nexusflow_backend.Prelude.{
  ℕ, suc, Bool, false, not, ◌||◌, ◌&&◌, String, List, Option, none, some, is_some, ◌===◌, ◌⧺◌,
  if◌then◌else◌, Number, whole, same, before,
}
use nexusflow_backend.Action.{bad_node, ok, Action, pure, throw_if, lift, ◌>>=◌, ◌>>◌}
use nexusflow_backend.Platform.{Platform}
use nexusflow_backend.Flows.Schemas.{Node, variable, alias_or_name, build_input_topic}
use nexusflow_backend.Flows.Registry.{analog_pins, gpio_input_pins, gpio_io_pins}
use nexusflow_backend.Flows.Values.{BuilderConfig, resolve_interval, to_boolean}
use nexusflow_backend.Flows.Setup.State.{
  SensorTask, Building, is_kind, push_sensor, ensure_integer_pin, assert_allowed_pin,
}
use nexusflow_backend.Flows.Setup.Gpio.{is_module}

abbrev is_given_pin : Option Number → Bool
is_given_pin none = false
is_given_pin (some pin) = not (same pin (whole 0))

abbrev pub is_ultrasonic : Node → Bool
is_ultrasonic = is_kind "Ultrasonic-Sensor"

abbrev pub sensor_type : Node → String
sensor_type node =
    if is_ultrasonic node then "ULTRA" else if is_kind "DHT-Sensor" node then "DHT" else "PIR"

abbrev pub only_if : Bool → Option Number → Option Number
only_if used pin = if used then pin else none

module _ ⦃p : Platform⦄ where
  abbrev pub claim : Node → Option Number → List ℕ → String → String → Action Building (Unit {0})
  claim node none allowed field_name code = pure tt
  claim node (some pin) allowed field_name code =
      assert_allowed_pin node pin allowed field_name code

  -- A sensor has the pins that its kind wants, by now.
  unfoldable pub claim_sensor_pins :
      Node → Option Number → Option Number → Option Number → Action Building (Unit {0})
  claim_sensor_pins node pin trigger echo =
      if is_ultrasonic node
      then (do
        claim node trigger gpio_io_pins "trigger pin" "ULTRASONIC_TRIGGER_PIN_INVALID"
        claim node echo gpio_input_pins "echo pin" "ULTRASONIC_ECHO_PIN_INVALID")
      else claim node pin gpio_input_pins "input pin" "NODE_INPUT_PIN_INVALID"

  -- An ultrasonic sensor needs a trigger and an echo, any other a pin.
  unfoldable pub wanted_pins :
      Node
      → Option Number
      → Option Number
      → Option Number
      → Action Building (Option Number × Option Number × Option Number)
  wanted_pins node pin trigger echo = do
    throw_if (is_ultrasonic node && (not (is_some trigger) || not (is_some echo))) (
        bad_node node.id ("Missing trigger/echo pin configuration for " ⧺ alias_or_name node)
          "ULTRASONIC_TRIGGER_ECHO_MISSING")
    throw_if (not (is_ultrasonic node) && not (is_some pin)) (
        bad_node node.id ("Missing pin configuration for  " ⧺ alias_or_name node)
          "NODE_PIN_CONFIGURATION_MISSING")
    pure (pin, trigger, echo)

  -- The pins of a node for a sensor: its own, the trigger and the echo.
  unfoldable pub sensor_pins :
      Node → Action Building (Option Number × Option Number × Option Number)
  sensor_pins node = do
    pin ←
        lift
          (ensure_integer_pin node (variable "pinNumber" node) "pinNumber" "NODE_PIN_NOT_INTEGER")
    trigger ← lift (
        ensure_integer_pin node (variable "triggerPin" node) "triggerPin"
          "NODE_TRIGGER_PIN_NOT_INTEGER")
    echo ←
        lift
          (ensure_integer_pin node (variable "echoPin" node) "echoPin" "NODE_ECHO_PIN_NOT_INTEGER")
    wanted_pins node pin trigger echo

  -- A digital pin or an analog one must be there to use.
  unfoldable pub usable_pins :
      Node → Option Number → Option Number → Action Building (Option Number × Option Number)
  usable_pins node digital analog = do
    throw_if
        (not (
          to_boolean (variable "isDigital" node) && is_some digital
          || to_boolean (variable "isAnalog" node) && is_some analog))
        (bad_node node.id ("Missing pin configuration for " ⧺ alias_or_name node)
          "NODE_PIN_CONFIGURATION_MISSING")
    pure (digital, analog)

  -- The pins of such a node, the digital and the analog one.
  unfoldable pub analog_sensor_pins : Node → Action Building (Option Number × Option Number)
  analog_sensor_pins node = do
    analog ← lift (
        ensure_integer_pin node (variable "analogPin" node) "analogPin"
          "NODE_ANALOG_PIN_NOT_INTEGER")
    digital ← lift (
        ensure_integer_pin node (variable "digitalPin" node) "digitalPin"
          "NODE_DIGITAL_PIN_NOT_INTEGER")
    usable_pins node digital analog

  unfoldable pub claim_analog_pins :
      Node → Option Number → Option Number → Action Building (Unit {0})
  claim_analog_pins node digital analog = do
    claim node (only_if (to_boolean (variable "isDigital" node)) digital) gpio_input_pins
        "digital pin" "NODE_DIGITAL_PIN_INVALID"
    claim node (only_if (to_boolean (variable "isAnalog" node)) analog) analog_pins "analog pin"
        "NODE_ANALOG_PIN_INVALID"

  module _ (config : BuilderConfig) (flow_id : Option String) where
    -- The task of a sensor with digital pins.
    unfoldable pub digital_task :
        Node → Option Number → Option Number → Option Number → String → SensorTask
    digital_task node pin trigger echo task_name =
        let kind = sensor_type node in
        let is_dht = kind === "DHT" in
        let is_ultra = kind === "ULTRA" in
        record {
          task_name = task_name;
          interval_ms = resolve_interval config (variable "intervalMs" node) (
              if kind === "PIR"
              then config.default_pir_interval_ms
              else config.default_sensor_interval_ms);
          topic = build_input_topic node.id flow_id;
          pin = if is_ultra then none else pin;
          kind = if is_dht then some (if is_module "DHT-Sensor-11" node then 11 else 22) else none;
          trigger_pin = if is_ultra then trigger else none;
          echo_pin = if is_ultra then echo else none;
          digital_pin = none;
          analog_pin = none;
          use_digital = none;
          use_analog = none;
        }

    unfoldable pub analog_task : Node → Option Number → Option Number → String → SensorTask
    analog_task node digital analog task_name = record {
      task_name = task_name;
      interval_ms =
          resolve_interval config (variable "intervalMs" node) config.default_sensor_interval_ms;
      topic = build_input_topic node.id flow_id;
      pin = none;
      kind = none;
      trigger_pin = none;
      echo_pin = none;
      digital_pin = digital;
      analog_pin = analog;
      use_digital = some (to_boolean (variable "isDigital" node));
      use_analog = some (to_boolean (variable "isAnalog" node));
    }

  module _ (random : ℕ → ℕ) where
    abbrev pin_or_random : Option Number → ℕ → Number
    pin_or_random none draw = whole (random draw)
    pin_or_random (some pin) draw = if same pin (whole 0) then whole (random draw) else pin

    -- `generateTaskName`, and how many numbers were drawn after it.
    unfoldable pub generate_task_name : String → Option Number → ℕ → String × ℕ
    generate_task_name module_id pin draws = (
      before b'-' module_id ⧺ "_" ⧺ p.show_number (pin_or_random pin draws),
      if is_given_pin pin then draws else suc draws,
    )

    unfoldable pub push_task :
        String → String → Option Number → (String → SensorTask) → Action Building (Unit {0})
    unfolding generate_task_name
    push_task kind module_id pin task s =
        let (name, draws) = generate_task_name module_id pin s.draws in
        (
          ok tt,
          record s { sensors_task = push_sensor kind (task name) s.sensors_task; draws = draws },
        )

    module _ (config : BuilderConfig) (flow_id : Option String) where
      -- A node for a DHT, a PIR or an ultrasonic sensor.
      unfoldable pub setup_digital_sensor : Node → Action Building (Unit {0})
      setup_digital_sensor node = do
        pins ← sensor_pins node
        claim_sensor_pins node pins.0 pins.1 pins.2
        push_task (sensor_type node) node.content.module_id
            (if is_ultrasonic node then pins.1 else pins.0)
            (digital_task config flow_id node pins.0 pins.1 pins.2)

      -- A node for a gas, a rain or a soil sensor, which has a digital pin, an analog one or both.
      unfoldable pub setup_analog_sensor : Node → Action Building (Unit {0})
      setup_analog_sensor node = do
        pins ← analog_sensor_pins node
        claim_analog_pins node pins.0 pins.1
        push_task (before b'-' node.content.module_id) node.content.module_id
            (if to_boolean (variable "isDigital" node) then pins.0 else pins.1)
            (analog_task config flow_id node pins.0 pins.1)
