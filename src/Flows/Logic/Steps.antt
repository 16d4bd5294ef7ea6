-- ===== src/Flows/Logic/Steps.antt =====
-- The steps of the logic of a flow, from flow-builder.service.ts. A node that gets a warning is an
-- object that several maps share: a handle is such an object, by its place among the nodes, and the
-- warnings that are appended are kept beside the nodes. `validate_function_code` is the answer of
-- `validateFunctionCode`, an error if there is one.
use package.text.Mathlib.Text.{starts_with}
use Prim.Native.Char.{code}
use nexusflow_backend.Prelude.{
  ℕ, Bool, true, false, not, ◌||◌, String, List, [], ◌∷◌, ◌++◌, map, Option, none, some, is_empty,
  ◌===◌, ◌⧺◌, ◌==◌, if◌then◌else◌, Number, trim, select,
}
use nexusflow_backend.Value.{Fields}
use nexusflow_backend.Action.{bad_node, Action, pure, throw, writes, ◌>>◌}
use nexusflow_backend.Platform.{Platform}
use nexusflow_backend.Flows.Schemas.{
  DiagnosticSeverity, warning, error, StoredDiagnostic, NodeDiagnostic, Node, variable,
  get_node_label, build_output_topic,
}
use nexusflow_backend.Flows.Registry.{set_pin_value, analog_write, dac_write, write_servo_angle}
use nexusflow_backend.Flows.Values.{to_optional_number}
use nexusflow_backend.Flows.Logic.Channels.{text_or, normalize_mqtt_channel, parse_target_flow_ids}

pub data OutputModuleType : Type 0 where
  pwm digital dac servo other : OutputModuleType

pub data StepType : Type 0 where
  input function output mqtt_out : StepType

pub record RuntimeStep : Type 0 where
  pub id : String
  pub module_id : String
  pub step_type : StepType
  pub function_code : Option String
  pub target_module_type : Option OutputModuleType
  pub cmd : Option ℕ
  pub pin : Option Number
  pub topic : Option String
  pub variables : Option Fields
  pub channel : Option String
  pub target_flow_ids : Option (List String)
  pub skip : Option Bool

abbrev bare_step : String → String → StepType → RuntimeStep
bare_step id module_id step_type = record {
  id = id;
  module_id = module_id;
  step_type = step_type;
  function_code = none;
  target_module_type = none;
  cmd = none;
  pin = none;
  topic = none;
  variables = none;
  channel = none;
  target_flow_ids = none;
  skip = none;
}

pub record Handle : Type 0 where
  pub place : ℕ
  pub node : Node

-- The warnings that were appended, each with the place of its node.
abbrev pub Log : Type 0
Log = List (ℕ × NodeDiagnostic)

-- `appendNodeWarning`
unfoldable pub append_node_warning : Handle → String → String → Action Log (Unit {0})
append_node_warning h message code = writes (λ log.
    log
    ++ (
      h.place,
      record { node_id = h.node.id; severity = warning; message = message; code = some code },
    )
      ∷ [])

abbrev is_warning : DiagnosticSeverity → Bool
is_warning warning = true
is_warning error = false

abbrev stored : Node → List NodeDiagnostic
stored node =
    map {B = NodeDiagnostic}
      (λ (d : StoredDiagnostic). record {
        node_id = node.id;
        severity = d.severity;
        message = d.message;
        code = d.code;
      })
      (select (λ (d : StoredDiagnostic). is_warning d.severity) node.content.warnings)

-- `collectNodeWarnings`
unfoldable pub collect_node_warnings : List Handle → Log → List NodeDiagnostic
collect_node_warnings [] log = []
collect_node_warnings (h ∷ hs) log =
    stored h.node
    ++ (map (λ (e : ℕ × NodeDiagnostic). e.1)
          (select (λ (e : ℕ × NodeDiagnostic). e.0 == h.place) log)
        ++ collect_node_warnings hs log)

abbrev pub function_step : Handle → String → RuntimeStep
function_step h c = record (bare_step h.node.id h.node.content.module_id function) {
  function_code = some c;
}

-- `isInputModule`
abbrev pub is_input_module : String → Bool
is_input_module m =
    starts_with m "mqtt-in"
    || starts_with m "ESP32-gpio-input"
    || starts_with m "DHT-Sensor"
    || starts_with m "PIR-Sensor"
    || starts_with m "MQ2-Sensor"
    || starts_with m "Rain-Sensor"
    || starts_with m "Soil-Sensor"
    || starts_with m "Ultrasonic-Sensor"

-- `isFunctionModule`
abbrev pub is_function_module : String → Bool
is_function_module m = starts_with m "logic-function"

-- `isOutputModule`
abbrev pub is_output_module : String → Bool
is_output_module m = starts_with m "ESP32-gpio-output" || starts_with m "mqtt-out"

-- `resolveTargetModuleType`
unfoldable pub resolve_target_module_type : String → OutputModuleType
resolve_target_module_type m =
    if starts_with m "ESP32-gpio-output-pwm"
    then pwm
    else if starts_with m "ESP32-gpio-output-dac"
    then dac
    else if starts_with m "ESP32-gpio-output-servo"
    then servo
    else if starts_with m "ESP32-gpio-output"
    then digital
    else other

-- `resolveOutputCommand`
unfoldable pub resolve_output_command : String → Option ℕ
resolve_output_command m =
    if m === "ESP32-gpio-output" || m === "ESP32-gpio-output-led"
    then some set_pin_value
    else if m === "ESP32-gpio-output-pwm"
    then some analog_write
    else if m === "ESP32-gpio-output-dac"
    then some dac_write
    else if m === "ESP32-gpio-output-servo"
    then some write_servo_angle
    else none

module _ ⦃p : Platform⦄ where
  -- `buildOutputStepFromNode`
  abbrev pub mqtt_out_step : Handle → List String → Action Log (Option RuntimeStep)
  mqtt_out_step h [] = throw (
      bad_node h.node.id
        ("Flow Bridge Out node " ⧺ get_node_label h.node ⧺ " must have at least one target flow.")
        "MQTT_OUT_TARGET_FLOWS_MISSING")
  mqtt_out_step h (id ∷ ids) = pure (
      some (record (bare_step h.node.id h.node.content.module_id mqtt_out) {
        channel = some (normalize_mqtt_channel (variable "channel" h.node));
        target_flow_ids = some (id ∷ ids);
      }))

  abbrev skipped : Handle → String → String → Action Log (Option RuntimeStep)
  skipped h message code = append_node_warning h message code >> pure none

  abbrev pub gpio_step :
      Handle → Option String → Option Number → Option ℕ → Action Log (Option RuntimeStep)
  gpio_step h flow_id none cmd =
      skipped h ("Output node " ⧺ h.node.id ⧺ " is missing pinNumber and was skipped.")
        "OUTPUT_NODE_MISSING_PIN"
  gpio_step h flow_id (some pin) none =
      skipped h
        ("Unsupported output module " ⧺ h.node.content.module_id ⧺ " on node " ⧺ h.node.id ⧺ ".")
        "OUTPUT_MODULE_UNSUPPORTED"
  gpio_step h flow_id (some pin) (some cmd) = pure (
      some (record (bare_step h.node.id h.node.content.module_id output) {
        target_module_type = some (resolve_target_module_type h.node.content.module_id);
        cmd = some cmd;
        pin = some pin;
        topic = some (build_output_topic h.node.id flow_id);
      }))

  unfoldable pub build_output_step_from_node :
      Handle → Option String → Action Log (Option RuntimeStep)
  build_output_step_from_node h flow_id =
      let m = h.node.content.module_id in
      if not (is_output_module m)
      then pure none
      else if m === "mqtt-out"
      then mqtt_out_step h (parse_target_flow_ids (variable "targetFlowIds" h.node))
      else gpio_step h flow_id (to_optional_number (variable "pinNumber" h.node))
          (resolve_output_command m)

  -- `buildInputStep`
  unfoldable pub build_input_step : Node → RuntimeStep
  build_input_step node = record (bare_step node.id node.content.module_id input) {
    variables = some node.content.variables;
    channel =
        if node.content.module_id === "mqtt-in"
        then some (normalize_mqtt_channel (variable "channel" node))
        else none;
    skip = some false;
  }

  -- The code of a function node.
  abbrev pub code_of : Node → String
  code_of node = trim (text_or "" (variable "code" node))

  module _ (validate_function_code : String → Option String) where
    abbrev pub checked_code : Handle → String → Option String → Action Log RuntimeStep
    checked_code h c none = pure (function_step h c)
    checked_code h c (some problem) = throw (
        bad_node h.node.id
          ("Invalid function code in node " ⧺ get_node_label h.node ⧺ ": " ⧺ problem)
          "FUNCTION_NODE_INVALID_CODE")

    -- `buildFunctionStepFromNode`
    unfoldable pub build_function_step_from_node : Handle → Action Log RuntimeStep
    build_function_step_from_node h =
        let c = code_of h.node in
        if is_empty c
        then (do
          append_node_warning h
              ("Function node "
                ⧺ get_node_label h.node
                ⧺ " has no code. It will behave like \"return msg;\".")
              "FUNCTION_NODE_EMPTY_CODE"
          pure (function_step h "return msg;"))
        else checked_code h c (validate_function_code c)
