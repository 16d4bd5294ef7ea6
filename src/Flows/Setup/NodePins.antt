-- ===== src/Flows/Setup/NodePins.antt =====
-- The pins that one node claims, by its kind.
use nexusflow_backend.Prelude.{
  ℕ, true, String, List, [], ◌∷◌, ◌++◌, Option, none, some, ◌≡◌, subst, arith, Number,
  if◌then◌else◌, Bool-cases, inl, inr,
}
use nexusflow_backend.Value.{Value}
use nexusflow_backend.Action.{ok, Action, lift, writes, ◌>>=◌, ◌>>◌}
use nexusflow_backend.Action.Laws.{>>=-ok, >>-ok}
use nexusflow_backend.Platform.{Platform}
use nexusflow_backend.Flows.Schemas.{Node, variable}
use nexusflow_backend.Flows.Registry.{
  PinMode, ModuleDefinition, has_pin, analog_pins, gpio_input_pins, gpio_io_pins, dac_pins,
}
use nexusflow_backend.Flows.Values.{BuilderConfig, to_optional_number}
use nexusflow_backend.Flows.Setup.State.{Building, SensorTask, is_kind, ensure_integer_pin}
use nexusflow_backend.Flows.Setup.Gpio.{
  claim_gpio_pin, push_gpio_command, setup_gpio_pin, setup_gpio_node, setup_item, place_item,
  gpio_with, with_input_interval, with_output_interval,
}
use nexusflow_backend.Flows.Setup.Sensors.{
  claim, wanted_pins, usable_pins, sensor_pins, claim_sensor_pins, push_task, analog_sensor_pins,
}
use nexusflow_backend.Flows.Setup.Build.{is_gpio_node}
use nexusflow_backend.Flows.Setup.Pins.{
  IsUsable, analog-IsUsable, gpio_input-IsUsable, dac-IsUsable, gpio_io-IsUsable,
}
use nexusflow_backend.Flows.Setup.Claims.{
  one, Claims, Claims-none, Claims-then, Claims-kept, pin_of, pin_number, ensured, Claims-assert,
}

module _ ⦃p : Platform⦄ where
  pub claim_gpio_pin-Claims :
      (node : Node) (pin : Number) (s s' : Building) {u : Unit {0}}
      → is_gpio_node node ≡ true
      → claim_gpio_pin node pin s ≡ (ok u, s')
      → Claims (pin ∷ []) s s'
  unfolding claim_gpio_pin
  claim_gpio_pin-Claims node pin s s' {u} gpio h =
      elim (Bool-cases (is_kind "ESP32-gpio-input-analog" node)) [
        | inl analog ↦
            Claims-assert node pin analog_pins "analog pin" "NODE_ANALOG_PIN_INVALID" s s'
              (analog-IsUsable pin) (rw analog at h)
        | inr no_analog ↦ elim (Bool-cases (is_kind "ESP32-gpio-input" node)) [
          | inl input ↦
              Claims-assert node pin gpio_input_pins "input pin" "NODE_INPUT_PIN_INVALID" s s'
                (gpio_input-IsUsable pin) (rw (no_analog, input) at h)
          | inr no_input ↦ elim (Bool-cases (is_kind "ESP32-gpio-output-dac" node)) [
            | inl dac ↦
                Claims-assert node pin dac_pins "dac pin" "NODE_DAC_PIN_INVALID" s s'
                  (dac-IsUsable pin) (rw (no_analog, no_input, dac) at h)
            | inr no_dac ↦
                let output : is_kind "ESP32-gpio-output" node ≡ true = ground arith in
                Claims-assert node pin gpio_io_pins "output pin" "NODE_OUTPUT_PIN_INVALID" s s'
                  (gpio_io-IsUsable pin) (rw (no_analog, no_input, no_dac, output) at h)
          ]
        ]
      ]

  -- A command takes no pin.
  push_gpio_command-taken :
      (config : BuilderConfig) (flow_id : Option String) (node : Node) (pin : Number)
      (s s' : Building) {u : Unit {0}}
      → push_gpio_command config flow_id node pin s ≡ (ok u, s')
      → s'.taken_pins ≡ s.taken_pins
  unfolding push_gpio_command with_input_interval with_output_interval
  push_gpio_command-taken config flow_id node pin s s' h = ground arith

  setup_gpio_pin-Claims :
      (config : BuilderConfig) (flow_id : Option String) (node : Node) (pin : Number)
      (mode : PinMode) (s s' : Building) {u : Unit {0}}
      → is_gpio_node node ≡ true
      → setup_gpio_pin config flow_id node pin mode s ≡ (ok u, s')
      → Claims (pin ∷ []) s s'
  unfolding setup_gpio_pin
  setup_gpio_pin-Claims config flow_id node pin mode s s' {u} gpio h =
      let place = writes (place_item (setup_item node pin mode)) in
      let (v, s1, claimed, h1) =
        >>-ok (claim_gpio_pin node pin) (place >> push_gpio_command config flow_id node pin) s s'
          h in
      Claims-kept (claim_gpio_pin-Claims node pin s s1 {u = v} gpio claimed) (
        push_gpio_command-taken config flow_id node pin (place_item (setup_item node pin mode) s1)
          s' {u = u} h1)

  gpio_with-Claims :
      (config : BuilderConfig) (flow_id : Option String) (node : Node) (mode : Option PinMode)
      (pin : Option Number) (s s' : Building) {u : Unit {0}}
      → is_gpio_node node ≡ true
      → gpio_with config flow_id node mode pin s ≡ (ok u, s')
      → Claims (one pin) s s'
  gpio_with-Claims config flow_id node none pin s s' gpio h = absurd (cc)
  gpio_with-Claims config flow_id node (some mode) none s s' gpio h = absurd (cc)
  gpio_with-Claims config flow_id node (some mode) (some pin) s s' {u} gpio h =
      setup_gpio_pin-Claims config flow_id node pin mode s s' {u = u} gpio h

  pub setup_gpio_node-Claims :
      (config : BuilderConfig) (flow_id : Option String) (node : Node) (d : ModuleDefinition)
      (s s' : Building) {u : Unit {0}}
      → is_gpio_node node ≡ true
      → setup_gpio_node config flow_id node d s ≡ (ok u, s')
      → Claims (pin_number node) s s'
  unfolding setup_gpio_node
  setup_gpio_node-Claims config flow_id node d s s' {u} gpio h =
      let (o, s1, named, h1) =
        >>=-ok
          (lift (
            ensure_integer_pin node (variable "pinNumber" node) "pinNumber" "NODE_PIN_NOT_INTEGER"))
          (gpio_with config flow_id node d.pin_mode) s s' h in
      let kept : s1 ≡ s = ground arith in
      let is_o : o ≡ pin_of "pinNumber" node =
        ensured node (variable "pinNumber" node) "pinNumber" "NODE_PIN_NOT_INTEGER" o
          (ground arith) in
      subst (λ pin. Claims (one pin) s s') is_o
        (gpio_with-Claims config flow_id node d.pin_mode o s s' {u = u} gpio (rw kept at h1))

  pub claim-Claims :
      (node : Node) (pin : Option Number) (allowed : List ℕ) (field_name code : String)
      (s s' : Building) {u : Unit {0}}
      → ((n : Number) → has_pin allowed n ≡ true → IsUsable n)
      → claim node pin allowed field_name code s ≡ (ok u, s')
      → Claims (one pin) s s'
  claim-Claims node none allowed field_name code s s' fits h = Claims-none s s' (ground arith)
  claim-Claims node (some pin) allowed field_name code s s' {u} fits h =
      Claims-assert node pin allowed field_name code s s' {u = u} (fits pin) h

  wanted_pins_ok :
      (node : Node) (pin trigger echo : Option Number)
      (pins : Option Number × Option Number × Option Number) (s s' : Building)
      → wanted_pins node pin trigger echo s ≡ (ok pins, s')
      → (pins ≡ (pin, trigger, echo)) × (s' ≡ s)
  unfolding wanted_pins
  wanted_pins_ok node pin trigger echo pins s s' h = ground arith

  usable_pins_ok :
      (node : Node) (digital analog : Option Number) (pins : Option Number × Option Number)
      (s s' : Building)
      → usable_pins node digital analog s ≡ (ok pins, s')
      → (pins ≡ (digital, analog)) × (s' ≡ s)
  unfolding usable_pins
  usable_pins_ok node digital analog pins s s' h = ground arith

  -- After a pin was read, the rest goes on with what the variable names.
  named_pin :
      {B : Type 0} (node : Node) (value : Value) (field_name code : String)
      (f : Option Number → Action Building B) (s s' : Building) {b : B}
      → (lift (ensure_integer_pin node value field_name code) >>= f) s ≡ (ok b, s')
      → f (to_optional_number value) s ≡ (ok b, s')
  named_pin node value field_name code f s s' {b} h =
      let (o, s1, read, rest) =
        >>=-ok (lift (ensure_integer_pin node value field_name code)) f s s' h in
      let kept : s1 ≡ s = ground arith in
      let named : o ≡ to_optional_number value =
        ensured node value field_name code o (ground arith) in
      subst (λ x. f x s ≡ (ok b, s')) named (rw kept at rest)

  pub sensor_pins_ok :
      (node : Node) (pins : Option Number × Option Number × Option Number) (s s' : Building)
      → sensor_pins node s ≡ (ok pins, s')
      → (pins ≡ (pin_of "pinNumber" node, pin_of "triggerPin" node, pin_of "echoPin" node))
        × (s' ≡ s)
  unfolding sensor_pins
  sensor_pins_ok node pins s s' h =
      let read = λ (name code : String).
        lift {S = Building} (ensure_integer_pin node (variable name node) name code) in
      let trigger_on = λ (pin : Option Number).
        read "triggerPin" "NODE_TRIGGER_PIN_NOT_INTEGER" >>= (λ trigger.
          read "echoPin" "NODE_ECHO_PIN_NOT_INTEGER" >>= wanted_pins node pin trigger) in
      let echo_on = λ (trigger : Option Number).
        read "echoPin" "NODE_ECHO_PIN_NOT_INTEGER"
        >>= wanted_pins node (pin_of "pinNumber" node) trigger in
      let h1 =
        named_pin node (variable "pinNumber" node) "pinNumber" "NODE_PIN_NOT_INTEGER" trigger_on s
          s' {b = pins} h in
      let h2 =
        named_pin node (variable "triggerPin" node) "triggerPin" "NODE_TRIGGER_PIN_NOT_INTEGER"
          echo_on s s' {b = pins} h1 in
      let h3 =
        named_pin node (variable "echoPin" node) "echoPin" "NODE_ECHO_PIN_NOT_INTEGER"
          (wanted_pins node (pin_of "pinNumber" node) (pin_of "triggerPin" node)) s s' {b = pins}
          h2 in
      wanted_pins_ok node (pin_of "pinNumber" node) (pin_of "triggerPin" node)
        (pin_of "echoPin" node) pins s s' h3

  pub claim_sensor_pins-Claims :
      (node : Node) (pin trigger echo : Option Number) (s s' : Building) {u : Unit {0}}
      → claim_sensor_pins node pin trigger echo s ≡ (ok u, s')
      → Claims (if is_kind "Ultrasonic-Sensor" node then one trigger ++ one echo else one pin) s s'
  unfolding claim_sensor_pins
  claim_sensor_pins-Claims node pin trigger echo s s' {u} h =
      elim (Bool-cases (is_kind "Ultrasonic-Sensor" node)) [
        | inl ultra ↦
            let (v, s1, first, second) =
              >>-ok (claim node trigger gpio_io_pins "trigger pin" "ULTRASONIC_TRIGGER_PIN_INVALID")
                (claim node echo gpio_input_pins "echo pin" "ULTRASONIC_ECHO_PIN_INVALID") s s'
                (rw ultra at h) in
            rw ultra (
              Claims-then
                (claim-Claims node trigger gpio_io_pins "trigger pin"
                  "ULTRASONIC_TRIGGER_PIN_INVALID" s s1 {u = v} gpio_io-IsUsable first)
                (claim-Claims node echo gpio_input_pins "echo pin" "ULTRASONIC_ECHO_PIN_INVALID" s1
                  s' {u = u} gpio_input-IsUsable second))
        | inr other ↦ rw other (
            claim-Claims node pin gpio_input_pins "input pin" "NODE_INPUT_PIN_INVALID" s s' {u = u}
              gpio_input-IsUsable (rw other at h))
      ]

  pub analog_sensor_pins_ok :
      (node : Node) (pins : Option Number × Option Number) (s s' : Building)
      → analog_sensor_pins node s ≡ (ok pins, s')
      → (pins ≡ (pin_of "digitalPin" node, pin_of "analogPin" node)) × (s' ≡ s)
  unfolding analog_sensor_pins
  analog_sensor_pins_ok node pins s s' h =
      let digital_on = λ (analog : Option Number).
        lift {S = Building} (
          ensure_integer_pin node (variable "digitalPin" node) "digitalPin"
            "NODE_DIGITAL_PIN_NOT_INTEGER")
        >>= (λ digital. usable_pins node digital analog) in
      let h1 =
        named_pin node (variable "analogPin" node) "analogPin" "NODE_ANALOG_PIN_NOT_INTEGER"
          digital_on s s' {b = pins} h in
      let h2 =
        named_pin node (variable "digitalPin" node) "digitalPin" "NODE_DIGITAL_PIN_NOT_INTEGER"
          (λ digital. usable_pins node digital (pin_of "analogPin" node)) s s' {b = pins} h1 in
      usable_pins_ok node (pin_of "digitalPin" node) (pin_of "analogPin" node) pins s s' h2

  module _ (random : ℕ → ℕ) where
    pub push_task-taken :
        (kind module_id : String) (pin : Option Number) (task : String → SensorTask)
        (s s' : Building) {u : Unit {0}}
        → push_task random kind module_id pin task s ≡ (ok u, s')
        → s'.taken_pins ≡ s.taken_pins
    unfolding push_task
    push_task-taken kind module_id pin task s s' h = ground arith
