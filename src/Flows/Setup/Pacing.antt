-- ===== src/Flows/Setup/Pacing.antt =====
-- What the pins of the board add to a setup keeps its tasks at an interval of the settings.
use nexusflow_backend.Prelude.{
  ℕ, String, List, [], ◌∷◌, Option, none, some, any, same, All, All-append, Number, Bool-cases,
  Option-cases, inl, inr, ◌===◌,
}
use nexusflow_backend.Action.{Action, ◌>>◌, writes}
use nexusflow_backend.Action.Laws.{Keeps, Keeps-pure, Keeps->>}
use nexusflow_backend.Platform.{Platform}
use nexusflow_backend.Flows.Schemas.{Node, variable}
use nexusflow_backend.Flows.Registry.{
  has_pin, PinMode, analog_pins, gpio_input_pins, gpio_io_pins, dac_pins,
}
use nexusflow_backend.Flows.Values.{BuilderConfig, to_optional_number}
use nexusflow_backend.Flows.Setup.State.{
  Building, SensorTask, DeviceTask, gpio, gpio_output, sensors, push_sensor, is_kind,
  assert_allowed_pin,
}
use nexusflow_backend.Flows.Setup.Gpio.{
  with_input_interval, with_output_interval, claim_gpio_pin, push_gpio_command, input_command,
  output_command, setup_gpio_pin, gpio_with, place_item, setup_item, push_input, push_output,
}
use nexusflow_backend.Flows.Setup.Intervals.{IsSensible, Paced, merge_interval-Paced}

module _ (config : BuilderConfig) where
  abbrev pub Runs : SensorTask → Type 0
  Runs task = Paced config task.interval_ms

  abbrev pub AllRun : List (String × List SensorTask) → Type 0
  AllRun = All {A = String × List SensorTask} (λ entry. All Runs entry.1)

  -- The interval of a task, or of each task of the sensors.
  abbrev pub IsPaced : DeviceTask → Type 0
  IsPaced (gpio task) = Paced config task.interval_ms
  IsPaced (gpio_output task) = Paced config task.interval_ms
  IsPaced (sensors tasks) = AllRun tasks

  pub record Pace (s : Building) : Type 0 where
    pub inputs : Paced config s.gpio_task.interval_ms
    pub outputs : Paced config s.output_task.interval_ms
    pub tasks : AllRun s.sensors_task

  pub push_sensor-AllRun :
      (kind : String) (task : SensorTask) (tasks : List (String × List SensorTask))
      → Runs task
      → AllRun tasks
      → AllRun (push_sensor kind task tasks)
  unfolding push_sensor
  push_sensor-AllRun kind task [] h k = ((h, tt), tt)
  push_sensor-AllRun kind task ((key, ts) ∷ rest) h k = elim (Bool-cases (key === kind)) [
    | inl here ↦ rw here (All-append Runs ts (task ∷ []) k.0 (h, tt), k.1)
    | inr there ↦ rw there (k.0, push_sensor-AllRun kind task rest h k.1)
  ]

  abbrev pub Kept : {A : Type 0} → Action Building A → Type 0
  Kept = Keeps Pace

module _ (config : BuilderConfig) (sensible : IsSensible config) where
  pub default_inputs : Paced config config.default_gpio_interval_ms
  default_inputs = rw (sensible.least_is, sensible.most_is) sensible.inputs

  pub default_outputs : Paced config config.default_gpio_output_interval_ms
  default_outputs = rw (sensible.least_is, sensible.most_is) sensible.outputs

  pub default_sensor : Paced config config.default_sensor_interval_ms
  default_sensor = rw (sensible.least_is, sensible.most_is) sensible.sensor

  pub default_motion : Paced config config.default_pir_interval_ms
  default_motion = rw (sensible.least_is, sensible.most_is) sensible.motion

module _ ⦃p : Platform⦄ (random : ℕ → ℕ) (config : BuilderConfig) (flow_id : Option String)
    (sensible : IsSensible config) where
  pub assert_allowed_pin-Kept :
      (node : Node) (pin : Number) (allowed : List ℕ) (field_name code : String)
      → Kept config (assert_allowed_pin node pin allowed field_name code)
  unfolding assert_allowed_pin
  assert_allowed_pin-Kept node pin allowed field_name code = record {
    keeps = λ s i. elim (Bool-cases (has_pin allowed pin)) [
      | inr other ↦ rw other i
      | inl fits ↦ elim (Bool-cases (any (same pin) s.taken_pins)) [
        | inl taken ↦ rw (fits, taken) i
        | inr new ↦
            rw (fits, new) (record { inputs = i.inputs; outputs = i.outputs; tasks = i.tasks })
      ]
    ];
  }

  claim_gpio_pin-Kept : (node : Node) (pin : Number) → Kept config (claim_gpio_pin node pin)
  unfolding claim_gpio_pin
  claim_gpio_pin-Kept node pin = elim (Bool-cases (is_kind "ESP32-gpio-input-analog" node)) [
    | inl analog ↦
        rw analog
          (assert_allowed_pin-Kept node pin analog_pins "analog pin" "NODE_ANALOG_PIN_INVALID")
    | inr no_analog ↦ elim (Bool-cases (is_kind "ESP32-gpio-input" node)) [
      | inl input ↦
          rw (no_analog, input)
            (assert_allowed_pin-Kept node pin gpio_input_pins "input pin" "NODE_INPUT_PIN_INVALID")
      | inr no_input ↦ elim (Bool-cases (is_kind "ESP32-gpio-output-dac" node)) [
        | inl dac ↦
            rw (no_analog, no_input, dac)
              (assert_allowed_pin-Kept node pin dac_pins "dac pin" "NODE_DAC_PIN_INVALID")
        | inr no_dac ↦ elim (Bool-cases (is_kind "ESP32-gpio-output" node)) [
          | inl output ↦
              rw (no_analog, no_input, no_dac, output)
                (assert_allowed_pin-Kept node pin gpio_io_pins "output pin"
                  "NODE_OUTPUT_PIN_INVALID")
          | inr no_output ↦ rw (no_analog, no_input, no_dac, no_output) (Keeps-pure tt)
        ]
      ]
    ]
  ]

  push_input-Pace :
      (node : Node) (pin : Number) (cmd : ℕ) (s : Building)
      → Pace config s
      → Pace config
          (push_input config flow_id node pin cmd (with_input_interval config flow_id node s))
  unfolding with_input_interval
  push_input-Pace node pin cmd s i = record {
    inputs =
        merge_interval-Paced config sensible config.default_gpio_interval_ms s.has_gpio_override
          (to_optional_number (variable "intervalMs" node))
          (s.gpio_task.interval_ms, s.has_gpio_override) (default_inputs config sensible) i.inputs;
    outputs = i.outputs;
    tasks = i.tasks;
  }

  push_output-Pace :
      (node : Node) (pin : Number) (cmd : ℕ) (s : Building)
      → Pace config s
      → Pace config
          (push_output config flow_id node pin cmd (with_output_interval config flow_id node s))
  unfolding with_output_interval
  push_output-Pace node pin cmd s i = record {
    inputs = i.inputs;
    outputs =
        merge_interval-Paced config sensible config.default_gpio_output_interval_ms
          s.has_output_override (to_optional_number (variable "intervalMs" node))
          (s.output_task.interval_ms, s.has_output_override) (default_outputs config sensible)
          i.outputs;
    tasks = i.tasks;
  }

  push_gpio_command-Kept :
      (node : Node) (pin : Number) → Kept config (push_gpio_command config flow_id node pin)
  unfolding push_gpio_command
  push_gpio_command-Kept node pin = elim (Bool-cases (is_kind "ESP32-gpio-input" node)) [
    | inl input ↦ elim (Option-cases (input_command node)) [
      | inl unknown ↦ rw (push_gpio_command, input, unknown) (record { keeps = λ s i. i })
      | inr (cmd, known) ↦
          rw (push_gpio_command, input, known) (record { keeps = push_input-Pace node pin cmd })
    ]
    | inr no_input ↦ elim (Bool-cases (is_kind "ESP32-gpio-output" node)) [
      | inl output ↦ elim (Option-cases (output_command node)) [
        | inl unknown ↦
            rw (push_gpio_command, no_input, output, unknown) (record { keeps = λ s i. i })
        | inr (cmd, known) ↦
            rw (push_gpio_command, no_input, output, known)
              (record { keeps = push_output-Pace node pin cmd })
      ]
      | inr no_output ↦ rw (push_gpio_command, no_input, no_output) (Keeps-pure tt)
    ]
  ]

  pub gpio_with-Kept :
      (node : Node) (mode : Option PinMode) (pin : Option Number)
      → Kept config (gpio_with config flow_id node mode pin)
  unfolding setup_gpio_pin
  gpio_with-Kept node none pin = record { keeps = λ s i. i }
  gpio_with-Kept node (some mode) none = record { keeps = λ s i. i }
  gpio_with-Kept node (some mode) (some pin) =
      let item = setup_item node pin mode in
      Keeps->> (claim_gpio_pin node pin)
        (writes (place_item item) >> push_gpio_command config flow_id node pin)
        (claim_gpio_pin-Kept node pin)
        (Keeps->> (writes (place_item item)) (push_gpio_command config flow_id node pin)
          (record {
            keeps = λ s i. record { inputs = i.inputs; outputs = i.outputs; tasks = i.tasks };
          })
          (push_gpio_command-Kept node pin))
