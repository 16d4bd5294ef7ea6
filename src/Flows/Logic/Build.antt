-- ===== src/Flows/Logic/Build.antt =====
-- `buildLogicCommandsFromGraph` of flow-builder.service.ts, with the checks and warnings before it.

use nexusflow_backend.Prelude.{
  suc, Bool, true, false, not, ◌||◌, ◌&&◌, String, List, [], ◌∷◌, map, Option, none, some, is_empty,
  ◌===◌, ◌⧺◌, if◌then◌else◌, any, select, length,
}
use nexusflow_backend.Action.{Action, pure, reads, ◌>>=◌, ◌>>◌}
use nexusflow_backend.Platform.{Platform}
use nexusflow_backend.Flows.Schemas.{Node, Edge, NodeDiagnostic, get_node_label}
use nexusflow_backend.Flows.Logic.Steps.{
  input, function, output, mqtt_out, RuntimeStep, Handle, Log, append_node_warning,
  collect_node_warnings, is_function_module, is_input_module, build_input_step, code_of,
  checked_code,
}
use nexusflow_backend.Flows.Logic.Paths.{
  LogicPath, Paths, handles_from, build_paths_from_node, with_rest,
}

pub record CommandExtraction : Type 0 where
  pub flows : List LogicPath
  pub warnings : List NodeDiagnostic

-- The node is at an end of an edge.
abbrev is_connected : List Edge → String → Bool
is_connected edges id =
    any
      (λ (e : Edge).
        not (is_empty e.source) && e.source === id || not (is_empty e.target) && e.target === id)
      edges

abbrev pub is_output_step : RuntimeStep → Bool
is_output_step step = elim step.step_type [
  | input ↦ false
  | function ↦ false
  | output ↦ true
  | mqtt_out ↦ true
]

-- `hasRuntimeOutputStep`
abbrev pub has_runtime_output_step : LogicPath → Bool
has_runtime_output_step path = any is_output_step path

-- `warnFloatingFunctionNodes`
unfoldable pub warn_floating_function_nodes : List Edge → List Handle → Action Log (Unit {0})
warn_floating_function_nodes edges [] = pure tt
warn_floating_function_nodes edges (h ∷ hs) =
    let rest = warn_floating_function_nodes edges hs in
    if is_function_module h.node.content.module_id && not (is_connected edges h.node.id)
    then append_node_warning h
        ("Function node " ⧺ get_node_label h.node ⧺ " is floating and was skipped.")
        "FUNCTION_NODE_FLOATING"
      >> rest
    else rest

-- `warnFloatingMqttInNodes`
unfoldable pub warn_floating_mqtt_in_nodes : List Edge → List Handle → Action Log (Unit {0})
warn_floating_mqtt_in_nodes edges [] = pure tt
warn_floating_mqtt_in_nodes edges (h ∷ hs) =
    let rest = warn_floating_mqtt_in_nodes edges hs in
    if h.node.content.module_id === "mqtt-in" && not (is_connected edges h.node.id)
    then append_node_warning h
        ("Flow Bridge In node " ⧺ get_node_label h.node ⧺ " is floating and was skipped.")
        "MQTT_IN_FLOATING"
      >> rest
    else rest

module _ ⦃p : Platform⦄ (validate_function_code : String → Option String) where
  -- `validateFunctionNodes`
  unfoldable pub validate_function_nodes : List Handle → Action Log (Unit {0})
  validate_function_nodes [] = pure tt
  validate_function_nodes (h ∷ hs) =
      let rest = validate_function_nodes hs in
      if is_function_module h.node.content.module_id && not (is_empty (code_of h.node))
      then checked_code validate_function_code h (code_of h.node)
          (validate_function_code (code_of h.node))
        >> rest
      else rest

  module _ (handles : List Handle) (edges : List Edge) (flow_id : Option String) where
    abbrev pub from_input : Node → Paths → Paths
    from_input node none = none
    from_input node (some paths) =
        some (map (λ path. build_input_step node ∷ path) (select has_runtime_output_step paths))

    -- `buildLogicPathForInputNode`
    unfoldable pub build_logic_path_for_input_node : Handle → Action Log Paths
    build_logic_path_for_input_node h = do
      paths ←
          build_paths_from_node validate_function_code handles edges flow_id (suc (length handles))
            h []
      pure (from_input h.node paths)

    -- The loop over the nodes, of which the inputs begin paths.
    unfoldable pub input_paths : List Handle → Action Log Paths
    input_paths [] = pure (some [])
    input_paths (h ∷ hs) =
        let rest = input_paths hs in
        if is_input_module h.node.content.module_id
        then build_logic_path_for_input_node h
          >>= (λ paths. rest >>= (λ others. pure (with_rest paths others)))
        else rest

  abbrev pub extracted : List Handle → Paths → Action Log (Option CommandExtraction)
  extracted handles none = pure none
  extracted handles (some flows) =
      reads (λ log. some (record { flows = flows; warnings = collect_node_warnings handles log }))

  abbrev pub flows_of : List Handle → List Edge → Option String → Action Log Paths
  flows_of handles [] flow_id = pure (some [])
  flows_of handles (e ∷ es) flow_id = input_paths handles (e ∷ es) flow_id handles

  -- `buildLogicCommandsFromGraph`. Where there are no nodes, no node begins a path either.
  unfoldable pub build_logic_commands_from_graph :
      List Node → List Edge → Option String → Action Log (Option CommandExtraction)
  unfolding handles_from
  build_logic_commands_from_graph nodes edges flow_id = do
    let handles = handles_from 0 nodes
    validate_function_nodes handles
    warn_floating_function_nodes edges handles
    warn_floating_mqtt_in_nodes edges handles
    flows ← flows_of handles edges flow_id
    extracted handles flows
