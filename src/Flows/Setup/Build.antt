-- ===== src/Flows/Setup/Build.antt =====
-- `buildSetupFromNodes` of flow-builder.service.ts: the loop over the nodes, and its answer.
use nexusflow_backend.Prelude.{ℕ, Bool, true, false, ◌||◌, String, List, [], ◌∷◌, ◌++◌, Option}
use nexusflow_backend.Action.{Result, ok, err, Action, pure, ◌>>=◌, ◌>>◌}
use nexusflow_backend.Platform.{Platform}
use nexusflow_backend.Flows.Schemas.{Node}
use nexusflow_backend.Flows.Structure.{get_validated_module_definition}
use nexusflow_backend.Flows.Values.{BuilderConfig}
use nexusflow_backend.Flows.Setup.State.{
  GpioTask, GpioCommand, DeviceTask, gpio, gpio_output, sensors, SetupObject, Building, SensorTask,
  start, is_kind,
}
use nexusflow_backend.Flows.Setup.Gpio.{setup_gpio_node}
use nexusflow_backend.Flows.Setup.Sensors.{setup_digital_sensor, setup_analog_sensor}

abbrev pub is_gpio_node : Node → Bool
is_gpio_node node = is_kind "ESP32-gpio-input" node || is_kind "ESP32-gpio-output" node

abbrev pub is_digital_sensor : Node → Bool
is_digital_sensor node =
    is_kind "DHT-Sensor" node || is_kind "PIR-Sensor" node || is_kind "Ultrasonic-Sensor" node

abbrev pub is_analog_sensor : Node → Bool
is_analog_sensor node =
    is_kind "MQ2-Sensor" node || is_kind "Rain-Sensor" node || is_kind "Soil-Sensor" node

abbrev pub on : {S : Type 0} → Bool → Action S (Unit {0}) → Action S (Unit {0})
on true action = action
on false action = pure tt

-- A task with commands, and the tasks of the sensors, if there are any.
abbrev pub some_commands : (GpioTask → DeviceTask) → GpioTask → List GpioCommand → List DeviceTask
some_commands wrap task [] = []
some_commands wrap task (c ∷ cs) = wrap task ∷ []

abbrev pub some_sensors : List (String × List SensorTask) → List DeviceTask
some_sensors [] = []
some_sensors (t ∷ ts) = sensors (t ∷ ts) ∷ []

unfoldable pub finished : Building → SetupObject
finished s = record {
  setup = s.setup_pins;
  tasks =
      some_commands gpio s.gpio_task s.gpio_task.commands
      ++ (some_commands gpio_output s.output_task s.output_task.commands
          ++ some_sensors s.sensors_task);
}

module _ ⦃p : Platform⦄ (random : ℕ → ℕ) (config : BuilderConfig) (flow_id : Option String) where
  -- One round of the loop.
  unfoldable pub setup_node : Node → Action Building (Unit {0})
  setup_node node = do
    definition ← get_validated_module_definition node
    on (is_gpio_node node) (setup_gpio_node config flow_id node definition)
    on (is_digital_sensor node) (setup_digital_sensor random config flow_id node)
    on (is_analog_sensor node) (setup_analog_sensor random config flow_id node)

  unfoldable pub setup_nodes : List Node → Action Building (Unit {0})
  setup_nodes [] = pure tt
  setup_nodes (n ∷ ns) = do setup_node n; setup_nodes ns

  abbrev pub answer : Result (Unit {0}) × Building → Result SetupObject
  answer (ok u, s) = ok (finished s)
  answer (err e, s) = err e

  -- `buildSetupFromNodes`
  unfoldable pub build_setup_from_nodes : List Node → Result SetupObject
  build_setup_from_nodes nodes = answer (setup_nodes nodes (start config))
