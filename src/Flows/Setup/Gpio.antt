-- ===== src/Flows/Setup/Gpio.antt =====
-- The nodes for the pins of the board, from `buildSetupFromNodes` of flow-builder.service.ts.
use nexusflow_backend.Prelude.{
  ℕ, Bool, true, false, ◌||◌, String, [], ◌∷◌, ◌++◌, Option, none, some, get_or, ◌===◌, ◌⧺◌,
  if◌then◌else◌, Number, whole, same, trunc, clamp, least,
}
use nexusflow_backend.Value.{number}
use nexusflow_backend.Action.{bad_node, Action, pure, throw, lift, writes, ◌>>=◌, ◌>>◌}
use nexusflow_backend.Platform.{Platform}
use nexusflow_backend.Flows.Schemas.{
  Node, variable, alias_or_name, build_input_topic, build_output_topic,
}
use nexusflow_backend.Flows.Registry.{
  ModuleDefinition, PinMode, mode_number, set_dac, set_up_servo, analog_write, set_pin_mode,
  get_pin_value, analog_read, pwm_read, dac_read, read_servo_angle, analog_pins, gpio_input_pins,
  dac_pins, gpio_io_pins,
}
use nexusflow_backend.Flows.Values.{BuilderConfig, to_optional_number, resolve_interval}
use nexusflow_backend.Flows.Setup.State.{
  SetupItem, Building, is_kind, put_item, ensure_integer_pin, assert_allowed_pin,
}

-- `node.data.moduleId === id`
abbrev pub is_module : String → Node → Bool
is_module id node = node.content.module_id === id

-- `SETUP_CMD_BY_MODULE_ID[moduleId] ?? CMD_MAP['SET_PIN_MODE']`
unfoldable pub setup_command : Node → ℕ
setup_command node =
    if is_module "ESP32-gpio-output-dac" node
    then set_dac
    else if is_module "ESP32-gpio-output-servo" node
    then set_up_servo
    else if is_module "ESP32-gpio-output-pwm" node
    then analog_write
    else set_pin_mode

abbrev pub place_item : SetupItem → Building → Building
place_item item s = record s { setup_pins = put_item item s.setup_pins }

module _ ⦃p : Platform⦄ where
  -- The first value of an output: a level, a byte or an angle.
  unfoldable pub initial_value : Node → Option Number
  unfolding to_optional_number
  initial_value node =
      if is_module "ESP32-gpio-output" node || is_module "ESP32-gpio-output-led" node
      then some (
          if same (get_or (to_optional_number (variable "initialState" node)) (whole 0)) (whole 1)
          then whole 1
          else whole 0)
      else if is_module "ESP32-gpio-output-pwm" node || is_module "ESP32-gpio-output-dac" node
      then some (
          clamp (whole 0) (whole 255)
            (trunc (get_or (to_optional_number (variable "initialValue" node)) (whole 0))))
      else if is_module "ESP32-gpio-output-servo" node
      then some (
          clamp (whole 0) (whole 180)
            (trunc (get_or (to_optional_number (variable "initialAngle" node)) (whole 0))))
      else none

  unfoldable pub setup_item : Node → Number → PinMode → SetupItem
  unfolding setup_command initial_value
  setup_item node pin mode = record {
    cmd = setup_command node;
    pin = pin;
    mode = mode_number mode;
    value = initial_value node;
  }

  -- The pin must be one that its kind of node may have. One of these cases always applies.
  unfoldable pub claim_gpio_pin : Node → Number → Action Building (Unit {0})
  claim_gpio_pin node pin =
      if is_kind "ESP32-gpio-input-analog" node
      then assert_allowed_pin node pin analog_pins "analog pin" "NODE_ANALOG_PIN_INVALID"
      else if is_kind "ESP32-gpio-input" node
      then assert_allowed_pin node pin gpio_input_pins "input pin" "NODE_INPUT_PIN_INVALID"
      else if is_kind "ESP32-gpio-output-dac" node
      then assert_allowed_pin node pin dac_pins "dac pin" "NODE_DAC_PIN_INVALID"
      else if is_kind "ESP32-gpio-output" node
      then assert_allowed_pin node pin gpio_io_pins "output pin" "NODE_OUTPUT_PIN_INVALID"
      else pure tt

  -- The interval of a task of several nodes: the first that is given, then the least.
  unfoldable pub merge_interval :
      BuilderConfig → Number → Bool → Option Number → Number × Bool → Number × Bool
  merge_interval config fallback overridden none kept = kept
  merge_interval config fallback false (some given) kept =
      (resolve_interval config (number given) fallback, true)
  merge_interval config fallback true (some given) kept =
      (least kept.0 (resolve_interval config (number given) fallback), true)

  abbrev unsupported : {A : Type 0} → Node → Action Building A
  unsupported node =
      throw (bad_node node.id ("Unsupported module " ⧺ alias_or_name node) "MODULE_UNSUPPORTED")

  -- The command that reads an input.
  unfoldable pub input_command : Node → Option ℕ
  input_command node =
      if is_module "ESP32-gpio-input" node || is_module "ESP32-gpio-input-pullup" node
      then some get_pin_value
      else if is_module "ESP32-gpio-input-analog" node
      then some analog_read
      else none

  -- The command that reads an output back.
  unfoldable pub output_command : Node → Option ℕ
  output_command node =
      if is_module "ESP32-gpio-output" node || is_module "ESP32-gpio-output-led" node
      then some get_pin_value
      else if is_module "ESP32-gpio-output-pwm" node
      then some pwm_read
      else if is_module "ESP32-gpio-output-dac" node
      then some dac_read
      else if is_module "ESP32-gpio-output-servo" node
      then some read_servo_angle
      else none

  module _ (config : BuilderConfig) (flow_id : Option String) where
    unfoldable pub with_input_interval : Node → Building → Building
    with_input_interval node s =
        let (interval, overridden) =
          merge_interval config config.default_gpio_interval_ms s.has_gpio_override
            (to_optional_number (variable "intervalMs" node))
            (s.gpio_task.interval_ms, s.has_gpio_override) in
        record s {
          gpio_task = record (s.gpio_task) { interval_ms = interval };
          has_gpio_override = overridden;
        }

    unfoldable pub with_output_interval : Node → Building → Building
    with_output_interval node s =
        let (interval, overridden) =
          merge_interval config config.default_gpio_output_interval_ms s.has_output_override
            (to_optional_number (variable "intervalMs" node))
            (s.output_task.interval_ms, s.has_output_override) in
        record s {
          output_task = record (s.output_task) { interval_ms = interval };
          has_output_override = overridden;
        }

    abbrev pub push_input : Node → Number → ℕ → Building → Building
    push_input node pin cmd s = record s {
      gpio_task = record (s.gpio_task) {
        commands =
            s.gpio_task.commands
            ++ record { cmd = cmd; pin = pin; topic = build_input_topic node.id flow_id } ∷ [];
      };
    }

    abbrev pub push_output : Node → Number → ℕ → Building → Building
    push_output node pin cmd s = record s {
      output_task = record (s.output_task) {
        commands =
            s.output_task.commands
            ++ record { cmd = cmd; pin = pin; topic = build_output_topic node.id flow_id } ∷ [];
      };
    }

    -- The task command of an input or an output.
    unfoldable pub push_gpio_command : Node → Number → Action Building (Unit {0})
    push_gpio_command node pin =
        if is_kind "ESP32-gpio-input" node
        then (elim (input_command node) [
          | none ↦ unsupported node
          | some cmd ↦ writes (λ s. push_input node pin cmd (with_input_interval node s))
        ])
        else if is_kind "ESP32-gpio-output" node
        then (elim (output_command node) [
          | none ↦ unsupported node
          | some cmd ↦ writes (λ s. push_output node pin cmd (with_output_interval node s))
        ])
        else pure tt

    unfoldable pub setup_gpio_pin : Node → Number → PinMode → Action Building (Unit {0})
    setup_gpio_pin node pin mode = do
      claim_gpio_pin node pin
      writes (place_item (setup_item node pin mode))
      push_gpio_command node pin

    abbrev missing_configuration : Node → Action Building (Unit {0})
    missing_configuration node = throw (
        bad_node node.id ("Missing configuration for node " ⧺ alias_or_name node)
          "NODE_CONFIGURATION_MISSING")

    abbrev pub gpio_with : Node → Option PinMode → Option Number → Action Building (Unit {0})
    gpio_with node none pin = missing_configuration node
    gpio_with node (some mode) none = missing_configuration node
    gpio_with node (some mode) (some pin) = setup_gpio_pin node pin mode

    unfoldable pub setup_gpio_node : Node → ModuleDefinition → Action Building (Unit {0})
    setup_gpio_node node definition = do
      pin ←
          lift
            (ensure_integer_pin node (variable "pinNumber" node) "pinNumber" "NODE_PIN_NOT_INTEGER")
      gpio_with node definition.pin_mode pin
