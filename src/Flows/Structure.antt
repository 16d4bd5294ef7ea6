-- ===== src/Flows/Structure.antt =====
-- The checks of a flow that comes in, from flow-builder.service.ts: `validateFlowStructure` and its
-- helpers. The code normalises the nodes in place; here the accepted nodes are the answer.
pub mod Counts
pub mod Laws
use nexusflow_backend.Prelude.{
  ℕ, suc, ◌+◌, Bool, true, false, not, ◌||◌, ◌&&◌, String, List, [], ◌∷◌, Option, none, some,
  is_some, is_empty, any, trim, ◌===◌, ◌⧺◌, find, if◌then◌else◌, Number, whole, ltb,
}
use nexusflow_backend.Value.{Value, number}
use nexusflow_backend.Action.{
  bad_request, bad_node, Result, ok, err, Action, pure, throw, throw_if, or_throw, ◌>>=◌, ◌>>◌,
}
use nexusflow_backend.Platform.{Platform}
use nexusflow_backend.Flows.Schemas.{
  NodeData, Node, Edge, IncomingNode, get_node_label, alias_or_name,
}
use nexusflow_backend.Flows.Registry.{
  ModuleDefinition, module_definition_by_id, PinMode, pin_mode_name,
}

abbrev pub number_of : Value → Option Number
number_of (number x) = some x
number_of _ = none

abbrev pub numbers : Value × Value → Option (Number × Number)
numbers (v, w) = elim (number_of v) [
  | none ↦ none
  | some x ↦ elim (number_of w) [ none ↦ none | some y ↦ some (x, y) ]
]

-- A field that was given must be the one of the definition.
abbrev is_other : Option String → Option String → Bool
is_other none expected = false
is_other (some given) none = true
is_other (some given) (some expected) = not (given === expected)

abbrev pub pin_mode_of : ModuleDefinition → Option String
pin_mode_of definition = elim definition.pin_mode [
  | none ↦ none
  | some mode ↦ some (pin_mode_name mode)
]

-- The data of a node that follow from its module.
abbrev pub normalized : ModuleDefinition → NodeData → NodeData
normalized definition content = record content {
  module_id = definition.id;
  name = definition.name;
  pin_mode = pin_mode_of definition;
  ports = some definition.ports;
  kind = none;
}

module _ {S : Type 0} where
  -- `getValidatedModuleDefinition`
  unfoldable pub get_validated_module_definition : Node → Action S ModuleDefinition
  get_validated_module_definition node =
      let module_id = trim node.content.module_id in
      or_throw
        (bad_node node.id
          ("Unsupported moduleId \"" ⧺ module_id ⧺ "\" for " ⧺ get_node_label node ⧺ ".")
          "NODE_MODULE_UNSUPPORTED")
        (module_definition_by_id module_id)

  -- `validateAndNormalizeModuleData`
  unfoldable pub validate_and_normalize_module_data : Node → ModuleDefinition → Action S Node
  validate_and_normalize_module_data node definition = do
    throw_if (is_other node.content.pin_mode (pin_mode_of definition)) (
        bad_node node.id ("Invalid pinMode for " ⧺ get_node_label node ⧺ ".")
          "NODE_MODULE_SCHEMA_INVALID")
    throw_if (is_other node.content.ports (some definition.ports)) (
        bad_node node.id ("Invalid ports for " ⧺ get_node_label node ⧺ ".")
          "NODE_MODULE_SCHEMA_INVALID")
    throw_if (is_some node.content.kind) (
        bad_node node.id ("Invalid type for " ⧺ get_node_label node ⧺ ".")
          "NODE_MODULE_SCHEMA_INVALID")
    pure (record node { content = normalized definition node.content })

  -- The node with the fields that were checked.
  unfoldable pub validate_module : Node → Action S Node
  validate_module node = do
    definition ← get_validated_module_definition node
    validate_and_normalize_module_data node definition

-- `nodes.find((n) => n.id === id)`
abbrev pub find_node : String → List Node → Option Node
find_node id nodes = find (λ n. n.id === id) nodes

module _ ⦃p : Platform⦄ {S : Type 0} where
  -- The checks of the fields of a node.
  unfoldable pub checked_fields : ℕ → IncomingNode → Action S Node
  checked_fields index node = do
    throw_if (is_empty node.id) (
        bad_request
          ("Node at index " ⧺ p.show_number (whole index) ⧺ " is missing required field: id"))
    throw_if (is_empty node.kind)
        (bad_request ("Node \"" ⧺ node.id ⧺ "\" is missing required field: type"))
    given_position ←
        or_throw
          (bad_request (
            "Node \"" ⧺ node.id
            ⧺ "\" is missing required field: position. Nodes must have position with x and y coordinates."))
          node.position
    position ←
        or_throw
          (bad_request
            ("Node \"" ⧺ node.id ⧺ "\" has invalid position. Both x and y must be numbers."))
          (numbers given_position)
    content ←
        or_throw (bad_request ("Node \"" ⧺ node.id ⧺ "\" is missing required field: data"))
          node.content
    throw_if (is_empty content.name || is_empty content.module_id) (
        bad_request (
          "Node \"" ⧺ node.id ⧺ "\" data is missing required fields. Must include: name, moduleId"))
    given_measured ←
        or_throw
          (bad_request (
            "Node \"" ⧺ node.id
            ⧺ "\" is missing required field: measured. Nodes must have measured with width and height."))
          node.measured
    measured ←
        or_throw
          (bad_request (
            "Node \"" ⧺ node.id
            ⧺ "\" has invalid measured dimensions. Both width and height must be numbers."))
          (numbers given_measured)
    pure (record {
      id = node.id;
      kind = node.kind;
      position = position;
      content = content;
      measured = measured;
    })

  -- One round of the loop over the nodes.
  unfoldable pub validate_node : ℕ → IncomingNode → Action S Node
  validate_node index node = checked_fields index node >>= validate_module

  unfoldable pub validate_nodes : ℕ → List IncomingNode → Action S (List Node)
  validate_nodes index [] = pure []
  validate_nodes index (n ∷ ns) = do
    node ← validate_node index n
    rest ← validate_nodes (suc index) ns
    pure (node ∷ rest)

  -- One round of the loop over the edges.
  unfoldable pub validate_edge : List Node → ℕ → Edge → Action S (Unit {0})
  validate_edge nodes index edge = do
    throw_if (is_empty edge.id) (
        bad_request
          ("Edge at index " ⧺ p.show_number (whole index) ⧺ " is missing required field: id"))
    throw_if (is_empty edge.source)
        (bad_request ("Edge \"" ⧺ edge.id ⧺ "\" is missing required field: source"))
    throw_if (is_empty edge.target)
        (bad_request ("Edge \"" ⧺ edge.id ⧺ "\" is missing required field: target"))
    throw_if (not (is_some (find_node edge.source nodes))) (
        bad_request
          ("Edge \"" ⧺ edge.id ⧺ "\" references non-existent source node: \"" ⧺ edge.source ⧺ "\""))
    throw_if (not (is_some (find_node edge.target nodes))) (
        bad_request
          ("Edge \"" ⧺ edge.id ⧺ "\" references non-existent target node: \"" ⧺ edge.target ⧺ "\""))

  unfoldable pub validate_edges : List Node → ℕ → List Edge → Action S (Unit {0})
  validate_edges nodes index [] = pure tt
  validate_edges nodes index (e ∷ es) = do
    validate_edge nodes index e
    validate_edges nodes (suc index) es

-- What every plain object has, but for `__proto__`.
abbrev inherited_names : List String
inherited_names =
    "constructor" ∷ "hasOwnProperty" ∷ "isPrototypeOf" ∷ "propertyIsEnumerable" ∷ "toString"
    ∷ "toLocaleString" ∷ "valueOf" ∷ "__defineGetter__" ∷ "__defineSetter__" ∷ "__lookupGetter__"
    ∷ "__lookupSetter__" ∷ []

abbrev pub is_inherited : String → Bool
is_inherited key = any (λ n. n === key) inherited_names

-- A number of the object, none for NaN.
abbrev pub Count : Type 0
Count = Option ℕ

-- Counting one more: NaN is falsy and set to 0 first.
abbrev pub next_count : Count → Count
next_count none = some 1
next_count (some count) = some (suc count)

-- `targetNodeConnectionCount`, its keys in the order of insertion: an inherited function is not
-- falsy, and counting it up gives NaN.
unfoldable pub bump : String → List (String × Count) → List (String × Count)
bump target [] = (target, if is_inherited target then none else some 1) ∷ []
bump target ((key, count) ∷ rest) =
    if key === target then (key, next_count count) ∷ rest else (key, count) ∷ bump target rest

-- Writing a number to `__proto__` has no effect.
unfoldable pub count_up : String → List (String × Count) → List (String × Count)
unfolding bump
count_up target counts = if target === "__proto__" then counts else bump target counts

unfoldable pub connection_counts : List Edge → List (String × Count) → List (String × Count)
unfolding count_up
connection_counts [] counts = counts
connection_counts (e ∷ es) counts = connection_counts es (count_up e.target counts)

-- `count > 1`, false for NaN.
abbrev pub is_many : Count → Bool
is_many none = false
is_many (some count) = ltb 1 count

module _ {S : Type 0} where
  unfoldable pub reject_connected_twice : List Node → String → Action S (Unit {0})
  reject_connected_twice nodes id = elim (find_node id nodes) [
    | none ↦ throw (bad_request ("Node " ⧺ id ⧺ " is connected to multiple nodes"))
    | some node ↦ throw (
        bad_node node.id ("Node " ⧺ alias_or_name node ⧺ " is connected to multiple nodes")
          "NODE_MULTIPLE_INCOMING_CONNECTIONS")
  ]

  unfoldable pub check_counts : List Node → List (String × Count) → Action S (Unit {0})
  check_counts nodes [] = pure tt
  check_counts nodes ((id, count) ∷ rest) = do
    let later = check_counts nodes rest
    if is_many count then reject_connected_twice nodes id else later

module _ ⦃p : Platform⦄ {S : Type 0} where
  -- `validateFlowStructure`, where edges are given.
  unfoldable pub validate_flow_structure : List IncomingNode → List Edge → Action S (List Node)
  validate_flow_structure [] edges =
      throw (bad_request "Flow must contain at least one node to be created")
  validate_flow_structure (n ∷ ns) edges = do
    nodes ← validate_nodes 0 (n ∷ ns)
    validate_edges nodes 0 edges
    check_counts nodes (connection_counts edges [])
    pure nodes
