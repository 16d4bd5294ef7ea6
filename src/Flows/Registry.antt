-- ===== src/Flows/Registry.antt =====
-- The modules that a node may have, src/flows/module-registry.ts, and the pins of the board and the
-- numbers of its commands, from flow-builder.service.ts.
use nexusflow_backend.Prelude.{
  ℕ, Bool, String, List, [], ◌∷◌, Option, none, some, Number, whole, same, any, not, select, find,
  ◌===◌, ◌&&◌, ◌==◌,
}

pub data PinMode : Type 0 where
  input output input_pullup analog pwm dac servo : PinMode

-- `ModuleDefinition`. No definition of the table has a `type`.
pub record ModuleDefinition : Type 0 where
  pub id : String
  pub name : String
  pub ports : String
  pub pin_mode : Option PinMode

abbrev a_module : String → String → String → Option PinMode → ModuleDefinition
a_module id name ports pin_mode = record {
  id = id;
  name = name;
  ports = ports;
  pin_mode = pin_mode;
}

-- `MODULE_DEFINITIONS`
unfoldable pub module_definitions : List ModuleDefinition
module_definitions =
    a_module "logic-function" "Function" "both" none
    ∷ a_module "mqtt-in" "Flow Bridge In" "source" none
    ∷ a_module "mqtt-out" "Flow Bridge Out" "target" none
    ∷ a_module "ESP32-gpio-input" "Digital Input" "source" (some input)
    ∷ a_module "ESP32-gpio-input-pullup" "Digital Input (Pullup)" "source" (some input_pullup)
    ∷ a_module "ESP32-gpio-input-analog" "Analog Input" "source" (some analog)
    ∷ a_module "ESP32-gpio-output" "Digital Output" "target" (some output)
    ∷ a_module "ESP32-gpio-output-pwm" "PWM Output" "target" (some pwm)
    ∷ a_module "ESP32-gpio-output-dac" "DAC Output" "target" (some dac)
    ∷ a_module "ESP32-gpio-output-servo" "Servo Output" "target" (some servo)
    ∷ a_module "ESP32-gpio-output-led" "LED" "target" (some output)
    ∷ a_module "DHT-Sensor-11" "DHT11" "source" none
    ∷ a_module "DHT-Sensor-22" "DHT22" "source" none
    ∷ a_module "PIR-Sensor" "PIR Sensor" "source" none
    ∷ a_module "MQ2-Sensor" "MQ2 Sensor" "source" none
    ∷ a_module "Rain-Sensor" "Rain Sensor" "source" none
    ∷ a_module "Soil-Sensor" "Soil Sensor" "source" none
    ∷ a_module "Ultrasonic-Sensor" "Ultrasonic" "source" none
    ∷ []

-- `MODULE_DEFINITION_BY_ID.get`
unfoldable pub module_definition_by_id : String → Option ModuleDefinition
unfolding module_definitions
module_definition_by_id id = find (λ d. d.id === id) module_definitions

abbrev pub pin_mode_name : PinMode → String
pin_mode_name input = "INPUT"
pin_mode_name output = "OUTPUT"
pin_mode_name input_pullup = "INPUT_PULLUP"
pin_mode_name analog = "ANALOG"
pin_mode_name pwm = "PWM"
pin_mode_name dac = "DAC"
pin_mode_name servo = "SERVO"

-- `MODE_MAP`
abbrev pub mode_number : PinMode → ℕ
mode_number input = 1
mode_number output = 3
mode_number input_pullup = 5
mode_number analog = 1
mode_number pwm = 3
mode_number dac = 3
mode_number servo = 0

-- `CMD_MAP`
abbrev pub set_dac : ℕ
set_dac = 0x09

abbrev pub set_pin_mode : ℕ
set_pin_mode = 0x10

abbrev pub set_pin_value : ℕ
set_pin_value = 0x11

abbrev pub get_pin_value : ℕ
get_pin_value = 0x12

abbrev pub analog_read : ℕ
analog_read = 0x20

abbrev pub analog_write : ℕ
analog_write = 0x21

abbrev pub pwm_read : ℕ
pwm_read = 0x22

abbrev pub dac_write : ℕ
dac_write = 0x24

abbrev pub dac_read : ℕ
dac_read = 0x25

abbrev pub set_up_servo : ℕ
set_up_servo = 0x40

abbrev pub read_servo_angle : ℕ
read_servo_angle = 0x41

abbrev pub write_servo_angle : ℕ
write_servo_angle = 0x42

abbrev pub valid_pins : List ℕ
valid_pins =
    0 ∷ 1 ∷ 2 ∷ 3 ∷ 4 ∷ 5 ∷ 12 ∷ 13 ∷ 14 ∷ 15 ∷ 16 ∷ 17 ∷ 18 ∷ 19 ∷ 21 ∷ 22 ∷ 23 ∷ 25 ∷ 26 ∷ 27 ∷ 32
    ∷ 33 ∷ 34 ∷ 35 ∷ 36 ∷ 39 ∷ []

abbrev pub reserved_pins : List ℕ
reserved_pins = 0 ∷ 1 ∷ 2 ∷ 3 ∷ 6 ∷ 7 ∷ 8 ∷ 9 ∷ 10 ∷ 11 ∷ 12 ∷ 15 ∷ 16 ∷ []

abbrev pub input_only_pins : List ℕ
input_only_pins = 34 ∷ 35 ∷ 36 ∷ 39 ∷ []

abbrev pub analog_pins : List ℕ
analog_pins = 32 ∷ 33 ∷ 34 ∷ 35 ∷ 36 ∷ 39 ∷ []

abbrev pub dac_pins : List ℕ
dac_pins = 25 ∷ 26 ∷ []

abbrev pub includes : List ℕ → ℕ → Bool
includes pins pin = any (λ p. p == pin) pins

-- `GPIO_INPUT_PINS`
abbrev pub gpio_input_pins : List ℕ
gpio_input_pins = select (λ pin. not (includes reserved_pins pin)) valid_pins

-- `GPIO_IO_PINS`
abbrev pub gpio_io_pins : List ℕ
gpio_io_pins =
    select (λ pin. not (includes reserved_pins pin) && not (includes input_only_pins pin))
      valid_pins

-- `pins.has(pin)`, for a number that need not be a whole one.
unfoldable pub has_pin : List ℕ → Number → Bool
has_pin pins pin = any (λ p. same (whole p) pin) pins
