-- ===== src/Tests/Flows.antt =====
-- The theorems on flows at a flow with a gas sensor, a function and a lamp, and a servo beside them.
use nexusflow_backend.Prelude.{
  ℕ, ◌≡◌, refl, ◌⊎◌, ◌*◌, ◌^◌, less_eq, true, String, List, [], ◌∷◌, Option, none, some, whole,
  trim, before, All, pos, is_empty, to_lower_case, split, is_finite, less, same, trunc, is_integer,
  least, greatest, clamp,
}
use nexusflow_backend.Value.{number, boolean, field, end, property, show_value, show_values}
use nexusflow_backend.Flows.Logic.Steps.{
  append_node_warning, collect_node_warnings, resolve_target_module_type, resolve_output_command,
  build_output_step_from_node, build_input_step, build_function_step_from_node,
}
use nexusflow_backend.Flows.Logic.Channels.{
  channel_name, text_or, normalize_mqtt_channel, parse_target_flow_ids,
}
use nexusflow_backend.Action.{HttpError, Result, ok, err}
use nexusflow_backend.Flows.Logic.Paths.{handles_from}
use nexusflow_backend.Flows.Logic.Programs.{IsProgram, build_logic_commands_ends}
use nexusflow_backend.Flows.Setup.Pins.{NoneSame, IsUsable}
use nexusflow_backend.Flows.Setup.Claims.{pins_of_all}
use nexusflow_backend.Flows.Setup.Exclusive.{build_setup_from_nodes-exclusive}
use nexusflow_backend.Flows.Setup.Intervals.{IsSensible}
use nexusflow_backend.Flows.Setup.Pacing.{IsPaced}
use nexusflow_backend.Flows.Setup.Tasks.{build_setup_from_nodes-IsPaced}
use nexusflow_backend.Flows.Structure.Laws.{IsAccepted, validate_flow_structure_sound}
use nexusflow_backend.Flows.Ui.{UiItem, build_ui_from_nodes, ui_item, ui_items}
use nexusflow_backend.Flows.Ui.Laws.{AreItems, build_ui_from_nodes-AreItems}
use nexusflow_backend.Platform.Memory.{memory}
use nexusflow_backend.Flows.Schemas.{
  Node, NodeData, Edge, IncomingNode, get_node_label, normalize_flow_topic_scope, alias_or_name,
  build_input_topic, build_output_topic,
}
use nexusflow_backend.Flows.Registry.{module_definition_by_id, module_definitions, has_pin}
use nexusflow_backend.Flows.Values.{
  BuilderConfig, to_optional_number, resolve_interval, read_config_number, to_boolean,
}
use nexusflow_backend.Flows.Structure.{
  validate_flow_structure, get_validated_module_definition, validate_and_normalize_module_data,
  validate_module, checked_fields, validate_node, validate_nodes, validate_edge, validate_edges,
  count_up, bump, connection_counts, reject_connected_twice, check_counts,
}
use nexusflow_backend.Flows.Setup.Build.{build_setup_from_nodes, finished, setup_node, setup_nodes}
use nexusflow_backend.Flows.Setup.State.{
  SetupObject, start, put_item, push_sensor, ensure_integer_pin, assert_allowed_pin,
}
use nexusflow_backend.Flows.Logic.Build.{CommandExtraction, build_logic_commands_from_graph}
use nexusflow_backend.Flows.Setup.Gpio.{
  setup_command, initial_value, setup_item, claim_gpio_pin, merge_interval, input_command,
  output_command, with_input_interval, with_output_interval, push_gpio_command, setup_gpio_pin,
  setup_gpio_node,
}
use nexusflow_backend.Flows.Setup.Sensors.{
  claim_sensor_pins, wanted_pins, sensor_pins, usable_pins, analog_sensor_pins, claim_analog_pins,
  digital_task, analog_task, generate_task_name, push_task, setup_digital_sensor,
  setup_analog_sensor,
}

abbrev gas_data : NodeData
gas_data = record {
  name = "MQ2 Sensor";
  module_id = "MQ2-Sensor";
  alias = none;
  pin_mode = none;
  kind = none;
  ports = none;
  variables =
      field "isAnalog" (boolean true)
        (field "analogPin" (number (whole 34)) (field "intervalMs" (number (whole 100)) end));
  warnings = [];
}

abbrev function_data : NodeData
function_data = record gas_data { name = "Function"; module_id = "logic-function"; variables = end }

abbrev lamp_data : NodeData
lamp_data = record gas_data {
  name = "LED";
  module_id = "ESP32-gpio-output-led";
  variables = field "pinNumber" (number (whole 4)) end;
}

abbrev a_node : String → NodeData → Node
a_node id content = record {
  id = id;
  kind = "custom";
  position = (whole 0, whole 0);
  content = content;
  measured = (whole 1, whole 1);
}

abbrev an_incoming : String → NodeData → IncomingNode
an_incoming id content = record {
  id = id;
  kind = "custom";
  position = some (number (whole 0), number (whole 0));
  content = some content;
  measured = some (number (whole 1), number (whole 1));
}

abbrev an_edge : String → String → String → Edge
an_edge id source target = record { id = id; source = source; target = target }

abbrev nodes : List Node
nodes = a_node "gas" gas_data ∷ a_node "code" function_data ∷ a_node "lamp" lamp_data ∷ []

abbrev edges : List Edge
edges = an_edge "e1" "gas" "code" ∷ an_edge "e2" "code" "lamp" ∷ []

abbrev config : BuilderConfig
config = record {
  min_interval_ms = whole 250;
  max_interval_ms = whole 60000;
  default_gpio_interval_ms = whole 1000;
  default_gpio_output_interval_ms = whole 10000;
  default_sensor_interval_ms = whole 5000;
  default_pir_interval_ms = whole 1000;
}

abbrev draw : ℕ → ℕ
draw n = 7

no_problem : String → Option String
no_problem c = none

abbrev setup_in : Result SetupObject → SetupObject
setup_in (ok setup) = setup
setup_in (err e) = record { setup = []; tasks = [] }

abbrev setup : SetupObject
setup = setup_in (build_setup_from_nodes draw config none nodes)

is_set_up : build_setup_from_nodes draw config none nodes ≡ ok setup
unfolding is_empty trim to_lower_case before split is_finite less same less_eq whole trunc
    is_integer least greatest clamp property show_value show_values alias_or_name get_node_label
    normalize_flow_topic_scope build_input_topic build_output_topic module_definitions
    module_definition_by_id has_pin to_optional_number resolve_interval read_config_number
    to_boolean get_validated_module_definition validate_and_normalize_module_data validate_module
    checked_fields validate_node validate_nodes validate_edge validate_edges count_up bump
    connection_counts reject_connected_twice check_counts validate_flow_structure start put_item
    push_sensor ensure_integer_pin assert_allowed_pin setup_command initial_value setup_item
    claim_gpio_pin merge_interval input_command output_command with_input_interval
    with_output_interval push_gpio_command setup_gpio_pin setup_gpio_node claim_sensor_pins
    wanted_pins sensor_pins usable_pins analog_sensor_pins claim_analog_pins digital_task
    analog_task generate_task_name push_task setup_digital_sensor setup_analog_sensor finished
    setup_node setup_nodes build_setup_from_nodes
is_set_up = refl

build_setup_from_nodes-exclusive_example :
    NoneSame (pins_of_all nodes) × All IsUsable (pins_of_all nodes)
build_setup_from_nodes-exclusive_example =
    build_setup_from_nodes-exclusive draw config none nodes setup is_set_up

sensible : IsSensible config
unfolding whole less_eq
sensible = record {
  lo = pos (250 * 2 ^ 1074);
  hi = pos (60000 * 2 ^ 1074);
  least_is = refl;
  most_is = refl;
  ordered = refl;
  inputs = (refl, refl);
  outputs = (refl, refl);
  sensor = (refl, refl);
  motion = (refl, refl);
}

build_setup_from_nodes-IsPaced_example : All (IsPaced config) setup.tasks
build_setup_from_nodes-IsPaced_example =
    build_setup_from_nodes-IsPaced draw config none sensible nodes setup is_set_up

build_logic_commands_ends_example :
    ((e : HttpError) × ((build_logic_commands_from_graph no_problem nodes edges none []).0 ≡ err e))
    ⊎ ((x : CommandExtraction) × ((build_logic_commands_from_graph no_problem nodes edges none []).0
          ≡ ok (some x))
        × All (IsProgram (handles_from 0 nodes) edges) x.flows)
build_logic_commands_ends_example = build_logic_commands_ends no_problem edges none nodes []

abbrev incoming : List IncomingNode
incoming =
    an_incoming "gas" gas_data
    ∷ an_incoming "code" function_data
    ∷ an_incoming "lamp" lamp_data
    ∷ []

abbrev nodes_in : Result (List Node) → List Node
nodes_in (ok ns) = ns
nodes_in (err e) = []

abbrev accepted : List Node
accepted = nodes_in (validate_flow_structure {S = Unit {0}} incoming edges tt).0

is_accepted : validate_flow_structure {S = Unit {0}} incoming edges tt ≡ (ok accepted, tt)
unfolding is_empty trim to_lower_case before split alias_or_name get_node_label
    normalize_flow_topic_scope build_input_topic build_output_topic module_definitions
    module_definition_by_id has_pin get_validated_module_definition
    validate_and_normalize_module_data validate_module checked_fields validate_node validate_nodes
    validate_edge validate_edges count_up bump connection_counts reject_connected_twice check_counts
    validate_flow_structure
is_accepted = refl

validate_flow_structure_sound_example : IsAccepted incoming edges accepted × (tt {0} ≡ tt)
validate_flow_structure_sound_example =
    validate_flow_structure_sound incoming edges accepted tt tt is_accepted

abbrev items_in : Result (List UiItem) → List UiItem
items_in (ok items) = items
items_in (err e) = []

abbrev items : List UiItem
items = items_in (build_ui_from_nodes draw edges none nodes 0).0

is_drawn : build_ui_from_nodes draw edges none nodes 0 ≡ (ok items, 0)
unfolding is_empty trim to_lower_case before split is_finite less same less_eq whole trunc
    is_integer least greatest clamp property show_value show_values alias_or_name get_node_label
    normalize_flow_topic_scope build_input_topic build_output_topic module_definitions
    module_definition_by_id has_pin to_optional_number resolve_interval read_config_number
    to_boolean claim_sensor_pins wanted_pins sensor_pins usable_pins analog_sensor_pins
    claim_analog_pins digital_task analog_task generate_task_name push_task setup_digital_sensor
    setup_analog_sensor append_node_warning collect_node_warnings resolve_target_module_type
    resolve_output_command channel_name text_or normalize_mqtt_channel parse_target_flow_ids
    build_output_step_from_node build_input_step build_function_step_from_node ui_item ui_items
    build_ui_from_nodes
is_drawn = refl

build_ui_from_nodes-AreItems_example : AreItems edges nodes items
build_ui_from_nodes-AreItems_example =
    build_ui_from_nodes-AreItems draw edges none nodes 0 0 items is_drawn
