-- ===== src/Flows/Setup/State.antt =====
-- The setup of a device and what is built up on the way to it, from flow-builder.service.ts: the
-- types, and the checks of pins.
use package.text.Mathlib.Text.{starts_with}
use nexusflow_backend.Prelude.{
  ℕ, Bool, false, not, String, List, [], ◌∷◌, ◌++◌, Option, none, some, ◌===◌, ◌⧺◌, any,
  if◌then◌else◌, Number, same, less, is_integer,
}
use nexusflow_backend.Value.{Value}
use nexusflow_backend.Action.{bad_node, Result, ok, err, Action}
use nexusflow_backend.Platform.{Platform}
use nexusflow_backend.Flows.Schemas.{Node, get_node_label}
use nexusflow_backend.Flows.Registry.{has_pin}
use nexusflow_backend.Flows.Values.{BuilderConfig, to_optional_number}

pub record SetupItem : Type 0 where
  pub cmd : ℕ
  pub pin : Number
  pub mode : ℕ
  pub value : Option Number

pub record GpioCommand : Type 0 where
  pub cmd : ℕ
  pub pin : Number
  pub topic : String

-- The tasks `GpioTask` and `GpioOutput`.
pub record GpioTask : Type 0 where
  pub task_name : String
  pub interval_ms : Number
  pub commands : List GpioCommand

-- The task of one sensor, with the fields of its kind.
pub record SensorTask : Type 0 where
  pub task_name : String
  pub interval_ms : Number
  pub topic : String
  pub pin : Option Number
  pub kind : Option ℕ
  pub trigger_pin : Option Number
  pub echo_pin : Option Number
  pub digital_pin : Option Number
  pub analog_pin : Option Number
  pub use_digital : Option Bool
  pub use_analog : Option Bool

pub data DeviceTask : Type 0 where
  gpio : GpioTask → DeviceTask
  gpio_output : GpioTask → DeviceTask
  sensors : List (String × List SensorTask) → DeviceTask

pub record SetupObject : Type 0 where
  pub setup : List SetupItem
  pub tasks : List DeviceTask

-- The variables of the method: `setupPins`, whose keys JavaScript holds in ascending order, and
-- `sensorsTask`, whose keys it holds in the order of insertion. `draws` counts the random numbers.
pub record Building : Type 0 where
  pub setup_pins : List SetupItem
  pub taken_pins : List Number
  pub gpio_task : GpioTask
  pub has_gpio_override : Bool
  pub output_task : GpioTask
  pub has_output_override : Bool
  pub sensors_task : List (String × List SensorTask)
  pub draws : ℕ

unfoldable pub start : BuilderConfig → Building
start config = record {
  setup_pins = [];
  taken_pins = [];
  gpio_task = record {
    task_name = "GpioTask";
    interval_ms = config.default_gpio_interval_ms;
    commands = [];
  };
  has_gpio_override = false;
  output_task = record {
    task_name = "GpioOutput";
    interval_ms = config.default_gpio_output_interval_ms;
    commands = [];
  };
  has_output_override = false;
  sensors_task = [];
  draws = 0;
}

-- `node.data.moduleId.startsWith(prefix)`
abbrev pub is_kind : String → Node → Bool
is_kind prefix node = starts_with node.content.module_id prefix

-- `setupPins[pin] = item`
unfoldable pub put_item : SetupItem → List SetupItem → List SetupItem
put_item item [] = item ∷ []
put_item item (x ∷ xs) =
    if same x.pin item.pin
    then item ∷ xs
    else if less item.pin x.pin
    then item ∷ x ∷ xs
    else x ∷ put_item item xs

-- `sensorsTask[kind]`, made where it is missing, with one more task.
unfoldable pub push_sensor :
    String → SensorTask → List (String × List SensorTask) → List (String × List SensorTask)
push_sensor kind task [] = (kind, task ∷ []) ∷ []
push_sensor kind task ((key, tasks) ∷ rest) =
    if key === kind
    then (key, tasks ++ task ∷ []) ∷ rest
    else (key, tasks) ∷ push_sensor kind task rest

module _ ⦃p : Platform⦄ where
  whole_pin : Node → String → String → Number → Result (Option Number)
  whole_pin node field_name code pin =
      if is_integer pin
      then ok (some pin)
      else err (
          bad_node node.id
            ("Invalid "
              ⧺ field_name
              ⧺ " for "
              ⧺ get_node_label node
              ⧺ ". Pin values must be integers.")
            code)

  -- `ensureIntegerPin`
  unfoldable pub ensure_integer_pin : Node → Value → String → String → Result (Option Number)
  unfolding whole_pin to_optional_number
  ensure_integer_pin node value field_name code = elim (to_optional_number value) [
    | none ↦ ok none
    | some pin ↦ whole_pin node field_name code pin
  ]

  -- `assertAllowedPin`
  unfoldable pub assert_allowed_pin :
      Node → Number → List ℕ → String → String → Action Building (Unit {0})
  assert_allowed_pin node pin allowed field_name code s =
      if not (has_pin allowed pin)
      then (
        err (
            bad_node node.id
              ("Invalid "
                ⧺ field_name
                ⧺ " "
                ⧺ p.show_number pin
                ⧺ " for "
                ⧺ get_node_label node
                ⧺ ".")
              code),
        s,
      )
      else if any (same pin) s.taken_pins
      then (
        err (
            bad_node node.id
              ("Pin "
                ⧺ p.show_number pin
                ⧺ " is already used by another node, cannot be assigned to "
                ⧺ get_node_label node
                ⧺ ".")
              "NODE_PIN_ALREADY_USED"),
        s,
      )
      else (ok tt, record s { taken_pins = s.taken_pins ++ pin ∷ [] })
