-- ===== src/Flows/Logic/Paths.antt =====
-- The paths from an input to the outputs, from flow-builder.service.ts: `buildPathsFromNode`. The
-- recursion has fuel; where it runs out, the answer is `none`.
use nexusflow_backend.Prelude.{
  ℕ, zero, suc, not, ◌&&◌, String, List, [], ◌∷◌, ◌++◌, map, Option, none, some, is_empty, ◌===◌,
  ◌⧺◌, if◌then◌else◌, any, select,
}
use nexusflow_backend.Action.{bad_node, Action, pure, throw, throw_if, ◌>>=◌, ◌>>◌}
use nexusflow_backend.Platform.{Platform}
use nexusflow_backend.Flows.Schemas.{Node, Edge, get_node_label}
use nexusflow_backend.Flows.Logic.Steps.{
  RuntimeStep, Handle, Log, append_node_warning, is_function_module, build_output_step_from_node,
  build_function_step_from_node,
}

abbrev pub LogicPath : Type 0
LogicPath = List RuntimeStep

-- The nodes as objects, with their places.
unfoldable pub handles_from : ℕ → List Node → List Handle
handles_from place [] = []
handles_from place (n ∷ ns) = record { place = place; node = n } ∷ handles_from (suc place) ns

-- `nodeById.get(id)`: of nodes with one id the map holds the last.
unfoldable pub node_by_id : List Handle → String → Option Handle
node_by_id [] id = none
node_by_id (h ∷ hs) id = elim (node_by_id hs id) [
  | none ↦ if h.node.id === id then some h else none
  | some later ↦ some later
]

-- `outgoingEdgesByNode.get(id) ?? []`
abbrev pub outgoing : List Edge → String → List Edge
outgoing edges id = select (λ (e : Edge). e.source === id) edges

abbrev pub Paths : Type 0
Paths = Option (List LogicPath)

-- What the rest of the loop adds.
abbrev pub with_rest : Paths → Paths → Paths
with_rest none rest = none
with_rest (some paths) none = none
with_rest (some paths) (some rest) = some (paths ++ rest)

module _ ⦃p : Platform⦄ (validate_function_code : String → Option String) (handles : List Handle)
    (edges : List Edge) (flow_id : Option String) where
  -- The paths through a function node, of which there must be some.
  abbrev pub through : Handle → RuntimeStep → Paths → Action Log Paths
  through target step none = pure none
  through target step (some []) = throw (
      bad_node target.node.id
        ("Function node " ⧺ get_node_label target.node ⧺ " has no valid downstream output.")
        "FUNCTION_NODE_NO_VALID_OUTPUT")
  through target step (some (path ∷ paths)) =
      pure (some (map (λ steps. step ∷ steps) (path ∷ paths)))

  module _ (recurse : Handle → Action Log Paths) (h : Handle) where
    unfoldable pub function_paths : Handle → Action Log Paths
    function_paths target = do
      step ← build_function_step_from_node validate_function_code target
      downstream ← recurse target
      through target step downstream

    abbrev pub target_paths : Handle → Option RuntimeStep → Action Log Paths
    target_paths target (some step) = pure (some ((step ∷ []) ∷ []))
    target_paths target none =
        if is_function_module target.node.content.module_id
        then function_paths target
        else append_node_warning target
            ("Node "
              ⧺ get_node_label target.node
              ⧺ " with module "
              ⧺ target.node.content.module_id
              ⧺ " is not supported in server-side logic paths.")
            "RUNTIME_LOGIC_NODE_UNSUPPORTED"
          >> pure (some [])

    abbrev edge_name : Edge → String
    edge_name e = if is_empty e.id then e.source ⧺ "->" ⧺ e.target else e.id

    abbrev pub found_paths : Edge → Option Handle → Action Log Paths
    found_paths e none =
        append_node_warning h
          ("Edge " ⧺ edge_name e ⧺ " references missing target node " ⧺ e.target ⧺ ".")
          "EDGE_TARGET_NODE_MISSING"
        >> pure (some [])
    found_paths e (some target) = do
      throw_if
          (h.node.content.module_id === "mqtt-in"
            && not (is_function_module target.node.content.module_id))
          (bad_node target.node.id
            ("Flow Bridge In node "
              ⧺ get_node_label h.node
              ⧺ " must connect to a Function node before downstream modules.")
            "MQTT_IN_REQUIRES_FUNCTION")
      output ← build_output_step_from_node target flow_id
      target_paths target output

    -- The loop over the edges that leave a node.
    unfoldable pub edge_paths : List Edge → Action Log Paths
    unfolding node_by_id
    edge_paths [] = pure (some [])
    edge_paths (e ∷ es) = do
      paths ← found_paths e (node_by_id handles e.target)
      rest ← edge_paths es
      pure (with_rest paths rest)

  -- `buildPathsFromNode`
  unfoldable pub build_paths_from_node : ℕ → Handle → List String → Action Log Paths
  build_paths_from_node zero h visited = pure none
  build_paths_from_node (suc fuel) h visited =
      if any (λ id. id === h.node.id) visited
      then append_node_warning h
          ("Cycle detected at node " ⧺ h.node.id ⧺ ". This path was skipped.") "FLOW_CYCLE_DETECTED"
        >> pure (some [])
      else edge_paths (λ target. build_paths_from_node fuel target (h.node.id ∷ visited)) h
          (outgoing edges h.node.id)
