-- ===== src/Flows/Setup/Tasks.antt =====
-- Every task of a setup runs at an interval of the settings.
use nexusflow_backend.Prelude.{
  ℕ, Bool, true, false, String, List, [], ◌∷◌, ◌++◌, Option, none, some, ◌≡◌, subst, sym, arith,
  All, All-append, Number, Bool-cases, inl, inr, before, ◌===◌,
}
use nexusflow_backend.Action.{ok, Action, ◌>>=◌, ◌>>◌, lift}
use nexusflow_backend.Action.Laws.{Keeps-lift, Keeps-pure, Keeps-or_throw, Keeps->>=, Keeps->>}
use nexusflow_backend.Platform.{Platform}
use nexusflow_backend.Flows.Schemas.{Node, variable}
use nexusflow_backend.Flows.Registry.{analog_pins, gpio_input_pins, gpio_io_pins}
use nexusflow_backend.Flows.Structure.{get_validated_module_definition}
use nexusflow_backend.Flows.Values.{BuilderConfig, to_boolean}
use nexusflow_backend.Flows.Setup.State.{
  Building, GpioCommand, GpioTask, SensorTask, DeviceTask, gpio, gpio_output, SetupObject, start,
  is_kind, ensure_integer_pin,
}
use nexusflow_backend.Flows.Setup.Gpio.{setup_gpio_node, gpio_with}
use nexusflow_backend.Flows.Setup.Sensors.{
  claim, only_if, sensor_type, sensor_pins, wanted_pins, claim_sensor_pins, push_task,
  setup_digital_sensor, digital_task, analog_task, analog_sensor_pins, usable_pins,
  claim_analog_pins, setup_analog_sensor,
}
use nexusflow_backend.Flows.Setup.Build.{
  is_gpio_node, is_digital_sensor, is_analog_sensor, on, finished, some_commands, some_sensors,
  setup_node, setup_nodes, build_setup_from_nodes,
}
use nexusflow_backend.Flows.Setup.Exclusive.{answered}
use nexusflow_backend.Flows.Setup.Intervals.{IsSensible, resolve_interval-Paced}
use nexusflow_backend.Flows.Setup.Pacing.{
  Runs, AllRun, IsPaced, Pace, push_sensor-AllRun, Kept, default_inputs, default_outputs,
  default_sensor, default_motion, assert_allowed_pin-Kept, gpio_with-Kept,
}

module _ ⦃p : Platform⦄ (random : ℕ → ℕ) (config : BuilderConfig) (flow_id : Option String)
    (sensible : IsSensible config) where
  claim-Kept :
      (node : Node) (pin : Option Number) (allowed : List ℕ) (field_name code : String)
      → Kept config (claim node pin allowed field_name code)
  claim-Kept node none allowed field_name code = Keeps-pure tt
  claim-Kept node (some pin) allowed field_name code =
      assert_allowed_pin-Kept random config flow_id sensible node pin allowed field_name code

  push_task-Kept :
      (kind module_id : String) (pin : Option Number) (task : String → SensorTask)
      → ((name : String) → Runs config (task name))
      → Kept config (push_task random kind module_id pin task)
  unfolding push_task
  push_task-Kept kind module_id pin task runs = record {
    keeps = λ s i. record {
      inputs = i.inputs;
      outputs = i.outputs;
      tasks = push_sensor-AllRun config kind (task _) s.sensors_task (runs _) i.tasks;
    };
  }

  digital_task-Runs :
      (node : Node) (pin trigger echo : Option Number) (name : String)
      → Runs config (digital_task config flow_id node pin trigger echo name)
  unfolding digital_task
  digital_task-Runs node pin trigger echo name = elim (Bool-cases (sensor_type node === "PIR")) [
    | inl motion ↦ rw motion (
        resolve_interval-Paced config sensible (variable "intervalMs" node)
          config.default_pir_interval_ms (default_motion config sensible))
    | inr other ↦ rw other (
        resolve_interval-Paced config sensible (variable "intervalMs" node)
          config.default_sensor_interval_ms (default_sensor config sensible))
  ]

  read-Kept :
      {B : Type 0} (node : Node) (name code : String) (f : Option Number → Action Building B)
      → ((pin : Option Number) → Kept config (f pin))
      → Kept config (lift (ensure_integer_pin node (variable name node) name code) >>= f)
  read-Kept node name code f h =
      Keeps->>= (lift (ensure_integer_pin node (variable name node) name code)) f (Keeps-lift _) h

  wanted_pins-Kept :
      (node : Node) (pin trigger echo : Option Number)
      → Kept config (wanted_pins node pin trigger echo)
  unfolding wanted_pins
  wanted_pins-Kept node pin trigger echo = record {
    keeps = λ s i. subst (Pace config) (ground arith) i;
  }

  sensor_pins-Kept : (node : Node) → Kept config (sensor_pins node)
  unfolding sensor_pins
  sensor_pins-Kept node = read-Kept node "pinNumber" "NODE_PIN_NOT_INTEGER" _ λ pin.
      read-Kept node "triggerPin" "NODE_TRIGGER_PIN_NOT_INTEGER" _ λ trigger.
        read-Kept node "echoPin" "NODE_ECHO_PIN_NOT_INTEGER" (wanted_pins node pin trigger)
          (wanted_pins-Kept node pin trigger)

  usable_pins-Kept :
      (node : Node) (digital analog : Option Number) → Kept config (usable_pins node digital analog)
  unfolding usable_pins
  usable_pins-Kept node digital analog = record {
    keeps = λ s i. subst (Pace config) (ground arith) i;
  }

  analog_sensor_pins-Kept : (node : Node) → Kept config (analog_sensor_pins node)
  unfolding analog_sensor_pins
  analog_sensor_pins-Kept node =
      read-Kept node "analogPin" "NODE_ANALOG_PIN_NOT_INTEGER" _ λ analog.
        read-Kept node "digitalPin" "NODE_DIGITAL_PIN_NOT_INTEGER"
          (λ digital. usable_pins node digital analog)
          (λ digital. usable_pins-Kept node digital analog)

  claim_sensor_pins-Kept :
      (node : Node) (pin trigger echo : Option Number)
      → Kept config (claim_sensor_pins node pin trigger echo)
  unfolding claim_sensor_pins
  claim_sensor_pins-Kept node pin trigger echo =
      elim (Bool-cases (is_kind "Ultrasonic-Sensor" node)) [
        | inl ultra ↦ rw ultra (
            Keeps->>
              (claim node trigger gpio_io_pins "trigger pin" "ULTRASONIC_TRIGGER_PIN_INVALID")
              (claim node echo gpio_input_pins "echo pin" "ULTRASONIC_ECHO_PIN_INVALID")
              (claim-Kept node trigger gpio_io_pins "trigger pin" "ULTRASONIC_TRIGGER_PIN_INVALID")
              (claim-Kept node echo gpio_input_pins "echo pin" "ULTRASONIC_ECHO_PIN_INVALID"))
        | inr other ↦
            rw other (claim-Kept node pin gpio_input_pins "input pin" "NODE_INPUT_PIN_INVALID")
      ]

  claim_analog_pins-Kept :
      (node : Node) (digital analog : Option Number)
      → Kept config (claim_analog_pins node digital analog)
  unfolding claim_analog_pins
  claim_analog_pins-Kept node digital analog =
      let used_digital = only_if (to_boolean (variable "isDigital" node)) digital in
      let used_analog = only_if (to_boolean (variable "isAnalog" node)) analog in
      Keeps->> (claim node used_digital gpio_input_pins "digital pin" "NODE_DIGITAL_PIN_INVALID")
        (claim node used_analog analog_pins "analog pin" "NODE_ANALOG_PIN_INVALID")
        (claim-Kept node used_digital gpio_input_pins "digital pin" "NODE_DIGITAL_PIN_INVALID")
        (claim-Kept node used_analog analog_pins "analog pin" "NODE_ANALOG_PIN_INVALID")

  setup_digital_sensor-Kept :
      (node : Node) → Kept config (setup_digital_sensor random config flow_id node)
  unfolding setup_digital_sensor
  setup_digital_sensor-Kept node = Keeps->>= (sensor_pins node) _ (sensor_pins-Kept node) λ pins.
      Keeps->> (claim_sensor_pins node pins.0 pins.1 pins.2) _
        (claim_sensor_pins-Kept node pins.0 pins.1 pins.2)
        (push_task-Kept (sensor_type node) node.content.module_id _
          (digital_task config flow_id node pins.0 pins.1 pins.2)
          (digital_task-Runs node pins.0 pins.1 pins.2))

  setup_analog_sensor-Kept :
      (node : Node) → Kept config (setup_analog_sensor random config flow_id node)
  unfolding setup_analog_sensor analog_task
  setup_analog_sensor-Kept node =
      Keeps->>= (analog_sensor_pins node) _ (analog_sensor_pins-Kept node) λ pins.
        Keeps->> (claim_analog_pins node pins.0 pins.1) _
          (claim_analog_pins-Kept node pins.0 pins.1)
          (push_task-Kept (before b'-' node.content.module_id) node.content.module_id _
            (analog_task config flow_id node pins.0 pins.1)
            (λ _.
              resolve_interval-Paced config sensible (variable "intervalMs" node)
                config.default_sensor_interval_ms (default_sensor config sensible)))

  on-Kept :
      (test : Bool) (action : Action Building (Unit {0}))
      → Kept config action
      → Kept config (on test action)
  on-Kept true action h = h
  on-Kept false action h = Keeps-pure tt

  setup_node-Kept : (node : Node) → Kept config (setup_node random config flow_id node)
  unfolding setup_node get_validated_module_definition setup_gpio_node
  setup_node-Kept node =
      let digital = setup_digital_sensor random config flow_id node in
      let analog = setup_analog_sensor random config flow_id node in
      Keeps->>= (get_validated_module_definition node) _ (Keeps-or_throw _ _) λ d.
        Keeps->> (on (is_gpio_node node) (setup_gpio_node config flow_id node d))
          (on (is_digital_sensor node) digital >> on (is_analog_sensor node) analog)
          (on-Kept (is_gpio_node node) (setup_gpio_node config flow_id node d) (
            read-Kept node "pinNumber" "NODE_PIN_NOT_INTEGER"
              (gpio_with config flow_id node d.pin_mode)
              (gpio_with-Kept random config flow_id sensible node d.pin_mode)))
          (Keeps->> (on (is_digital_sensor node) digital) (on (is_analog_sensor node) analog)
            (on-Kept (is_digital_sensor node) digital (setup_digital_sensor-Kept node))
            (on-Kept (is_analog_sensor node) analog (setup_analog_sensor-Kept node)))

  setup_nodes-Kept : (nodes : List Node) → Kept config (setup_nodes random config flow_id nodes)
  unfolding setup_nodes
  setup_nodes-Kept [] = Keeps-pure tt
  setup_nodes-Kept (n ∷ ns) =
      Keeps->> (setup_node random config flow_id n) (setup_nodes random config flow_id ns)
        (setup_node-Kept n) (setup_nodes-Kept ns)

  some_commands-IsPaced :
      (wrap : GpioTask → DeviceTask) (task : GpioTask) (commands : List GpioCommand)
      → IsPaced config (wrap task)
      → All (IsPaced config) (some_commands wrap task commands)
  some_commands-IsPaced wrap task [] h = tt
  some_commands-IsPaced wrap task (c ∷ cs) h = (h, tt)

  some_sensors-IsPaced :
      (tasks : List (String × List SensorTask))
      → AllRun config tasks
      → All (IsPaced config) (some_sensors tasks)
  some_sensors-IsPaced [] h = tt
  some_sensors-IsPaced (t ∷ ts) h = (h, tt)

  finished-IsPaced : (s : Building) → Pace config s → All (IsPaced config) (finished s).tasks
  unfolding finished
  finished-IsPaced s i =
      All-append (IsPaced config) (some_commands gpio s.gpio_task s.gpio_task.commands)
        (some_commands gpio_output s.output_task s.output_task.commands
          ++ some_sensors s.sensors_task)
        (some_commands-IsPaced gpio s.gpio_task s.gpio_task.commands i.inputs)
        (All-append (IsPaced config)
          (some_commands gpio_output s.output_task s.output_task.commands)
          (some_sensors s.sensors_task)
          (some_commands-IsPaced gpio_output s.output_task s.output_task.commands i.outputs)
          (some_sensors-IsPaced s.sensors_task i.tasks))

  -- Where the settings are finite, the least interval is no longer than the longest and the
  -- default ones lie between them, every task of a setup that the builder accepts has an interval
  -- between the two.
  pub build_setup_from_nodes-IsPaced :
      (nodes : List Node) (setup : SetupObject)
      → build_setup_from_nodes random config flow_id nodes ≡ ok setup
      → All (IsPaced config) setup.tasks
  unfolding build_setup_from_nodes start
  build_setup_from_nodes-IsPaced nodes setup h =
      let (s, ran, same) =
        answered random config flow_id (setup_nodes random config flow_id nodes (start config)) h in
      let begun : Pace config (start config) = record {
        inputs = default_inputs config sensible;
        outputs = default_outputs config sensible;
        tasks = tt;
      } in
      let paced = (setup_nodes-Kept nodes).keeps (start config) begun in
      subst (λ r. All (IsPaced config) r.tasks) (sym same)
        (finished-IsPaced s (subst (λ r. Pace config r.1) ran paced))
