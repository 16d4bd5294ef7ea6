-- ===== src/Flows/Schemas.antt =====
-- The nodes and edges of a flow, from src/flows/schemas and src/flows/types, and the diagnostics of
-- flow-builder.service.ts.
use nexusflow_backend.Prelude.{
  String, List, Option, none, some, is_empty, if◌then◌else◌, trim, ◌⧺◌, Number,
}
use nexusflow_backend.Value.{Value, Fields, property}

pub data DiagnosticSeverity : Type 0 where
  warning error : DiagnosticSeverity

-- `NodeStoredDiagnostic`: what a node keeps of a diagnostic.
pub record StoredDiagnostic : Type 0 where
  pub severity : DiagnosticSeverity
  pub message : String
  pub code : Option String

-- `FlowNodeDiagnostic`
pub record NodeDiagnostic : Type 0 where
  pub node_id : String
  pub severity : DiagnosticSeverity
  pub message : String
  pub code : Option String

-- The fields of `NodeData` that the builder reads or writes.
pub record NodeData : Type 0 where
  pub name : String
  pub module_id : String
  pub alias : Option String
  pub pin_mode : Option String
  pub kind : Option String
  pub ports : Option String
  pub variables : Fields
  pub warnings : List StoredDiagnostic

pub record Node : Type 0 where
  pub id : String
  pub kind : String
  pub position : Number × Number
  pub content : NodeData
  pub measured : Number × Number

pub record Edge : Type 0 where
  pub id : String
  pub source : String
  pub target : String

-- A node as it comes in a request. A missing text is the empty one, which the checks treat alike.
pub record IncomingNode : Type 0 where
  pub id : String
  pub kind : String
  pub position : Option (Value × Value)
  pub content : Option NodeData
  pub measured : Option (Value × Value)

-- `node.data.variables?.name`
abbrev pub variable : String → Node → Value
variable name node = property name node.content.variables

-- `a || b`
abbrev pub or_else : Option String → String → String
or_else none other = other
or_else (some s) other = if is_empty s then other else s

-- `module?.alias || module.name`
unfoldable pub alias_or_name : Node → String
alias_or_name node = or_else node.content.alias node.content.name

-- `getNodeLabel`
unfoldable pub get_node_label : Node → String
get_node_label node =
    or_else node.content.alias
      (or_else (some node.content.name) (or_else (some node.id) "Unknown node"))

-- `normalizeFlowTopicScope`
unfoldable pub normalize_flow_topic_scope : Option String → Option String
normalize_flow_topic_scope none = none
normalize_flow_topic_scope (some flow_id) =
    let resolved = trim flow_id in if is_empty resolved then none else some resolved

-- The scope of a topic, if there is one, and the node.
abbrev pub scoped : String → Option String → String → String
scoped prefix none node_id = prefix ⧺ "/" ⧺ node_id
scoped prefix (some scope) node_id = prefix ⧺ "/" ⧺ scope ⧺ "/" ⧺ node_id

-- `buildInputTopic`
unfoldable pub build_input_topic : String → Option String → String
unfolding normalize_flow_topic_scope
build_input_topic node_id flow_id =
    scoped "logic/input" (normalize_flow_topic_scope flow_id) node_id

-- `buildOutputTopic`
unfoldable pub build_output_topic : String → Option String → String
unfolding normalize_flow_topic_scope
build_output_topic node_id flow_id =
    scoped "nexusflow/output" (normalize_flow_topic_scope flow_id) node_id
