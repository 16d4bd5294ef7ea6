-- ===== src/Flows/Structure/Laws.antt =====
-- What the checks of a flow guarantee.
use nexusflow_backend.Prelude.{
  ℕ, suc, ◌≤◌, ◌≡◌, ap, sym, ◌∙◌, true, String, List, [], ◌∷◌, some, is_some, ◌≢◌, length, arith,
  All, Option-cases, inl, inr, trim, subst, Number, refl, some-injective,
}
use nexusflow_backend.Value.{Value, undefined, null, boolean, number, text, array, object}
use nexusflow_backend.Action.{ok, pure, ◌>>=◌, ◌>>◌}
use nexusflow_backend.Action.Laws.{>>=-ok, >>-ok}
use nexusflow_backend.Platform.{Platform}
use nexusflow_backend.Flows.Schemas.{Node, Edge, IncomingNode, NodeData}
use nexusflow_backend.Flows.Registry.{ModuleDefinition, module_definition_by_id}
use nexusflow_backend.Flows.Structure.Counts.{into, is_counted, enters, check_counts_ok}
use nexusflow_backend.Flows.Structure.{
  normalized, get_validated_module_definition, validate_and_normalize_module_data, validate_module,
  validate_node, checked_fields, validate_nodes, validate_edge, validate_edges, find_node, numbers,
  number_of, connection_counts, check_counts, validate_flow_structure,
}

-- A node that comes from one of the request, with the data that its module gives it.
pub record IsNormalized (incoming : IncomingNode) (node : Node) : Type 0 where
  pub given : NodeData
  pub definition : ModuleDefinition
  pub has_content : incoming.content ≡ some given
  pub in_table : module_definition_by_id (trim given.module_id) ≡ some definition
  pub is_normalized : node.content ≡ normalized definition given
  pub same_id : node.id ≡ incoming.id
  pub same_kind : node.kind ≡ incoming.kind
  pub same_position : incoming.position ≡ some (number node.position.0, number node.position.1)
  pub same_measured : incoming.measured ≡ some (number node.measured.0, number node.measured.1)

-- The nodes are those of the request, one by one.
abbrev pub AreNormalized : List IncomingNode → List Node → Type 0
AreNormalized [] [] = Unit
AreNormalized (i ∷ is) (n ∷ ns) = IsNormalized i n × AreNormalized is ns
AreNormalized _ _ = ⊥

-- Both ends of an edge are nodes.
abbrev pub Joins : List Node → Edge → Type 0
Joins nodes e =
    (is_some (find_node e.source nodes) ≡ true) × (is_some (find_node e.target nodes) ≡ true)

number_of-ok : (v : Value) {x : Number} → number_of v ≡ some x → v ≡ number x
number_of-ok (number y) {x} h = ap number (some-injective y x h)
number_of-ok undefined h = absurd (cc)
number_of-ok null h = absurd (cc)
number_of-ok (boolean b) h = absurd (cc)
number_of-ok (text s) h = absurd (cc)
number_of-ok (array vs) h = absurd (cc)
number_of-ok (object fs) h = absurd (cc)

numbers-ok :
    (v : Value × Value) {xy : Number × Number}
    → numbers v ≡ some xy
    → v ≡ (number xy.0, number xy.1)
numbers-ok (v, w) {xy} h = elim (Option-cases (number_of v)) [
  | inl no_x ↦ absurd (ground arith)
  | inr (x, is_x) ↦ elim (Option-cases (number_of w)) [
    | inl no_y ↦ absurd (ground arith)
    | inr (y, is_y) ↦
        let first : x ≡ xy.0 = ground arith in
        let second : y ≡ xy.1 = ground arith in
        rw (number_of-ok v is_x, number_of-ok w is_y, first, second) refl
  ]
]

module _ {S : Type 0} where
  validate_and_normalize_ok :
      (n n' : Node) (d : ModuleDefinition) (s s' : S)
      → validate_and_normalize_module_data n d s ≡ (ok n', s')
      → (n' ≡ record n { content = normalized d n.content }) × (s' ≡ s)
  unfolding validate_and_normalize_module_data
  validate_and_normalize_ok n n' d s s' h = ground arith

  validate_module_ok :
      (n n' : Node) (s s' : S)
      → validate_module n s ≡ (ok n', s')
      → (d : ModuleDefinition) × (module_definition_by_id (trim n.content.module_id) ≡ some d)
        × (n' ≡ record n { content = normalized d n.content })
        × (s' ≡ s)
  unfolding validate_module get_validated_module_definition
  validate_module_ok n n' s s' h =
      elim (Option-cases (module_definition_by_id (trim n.content.module_id))) [
        | inl missing ↦ absurd (ground arith)
        | inr (d, found) ↦
            let (same, kept) = validate_and_normalize_ok n n' d s s' (rw found at h) in
            (d, found, same, kept)
      ]

module _ ⦃p : Platform⦄ {S : Type 0} where
  checked_fields_ok :
      (index : ℕ) (i : IncomingNode) (n : Node) (s s' : S)
      → checked_fields index i s ≡ (ok n, s')
      → (n.id ≡ i.id)
        × (i.content ≡ some n.content)
        × (n.kind ≡ i.kind)
        × ((v : Value × Value) × (i.position ≡ some v) × (numbers v ≡ some n.position))
        × ((v : Value × Value) × (i.measured ≡ some v) × (numbers v ≡ some n.measured))
        × (s' ≡ s)
  unfolding checked_fields
  checked_fields_ok index i n s s' h = elim (Option-cases i.position) [
    | inl no_position ↦ absurd (ground arith)
    | inr (v, position) ↦ elim (Option-cases i.measured) [
      | inl no_measured ↦ absurd (ground arith)
      | inr (w, measured) ↦ (
        ground arith,
        ground arith,
        ground arith,
        (v, position, ground arith),
        (w, measured, ground arith),
        ground arith,
      )
    ]
  ]

  validate_node_ok :
      (index : ℕ) (i : IncomingNode) (n : Node) (s s' : S)
      → validate_node index i s ≡ (ok n, s')
      → IsNormalized i n × (s' ≡ s)
  unfolding validate_node
  validate_node_ok index i n s s' h =
      let (raw, s1, fields, rest) = >>=-ok (checked_fields index i) validate_module s s' h in
      let (same, content, kind, (v, position, vs), (w, measured, ws), kept) =
        checked_fields_ok index i raw s s1 fields in
      let (d, found, normal, kept') = validate_module_ok raw n s1 s' rest in
      (
        record {
          given = raw.content;
          definition = d;
          has_content = content;
          in_table = found;
          is_normalized = ap (λ (m : Node). m.content) normal;
          same_id = ap (λ (m : Node). m.id) normal ∙ same;
          same_kind = ap (λ (m : Node). m.kind) normal ∙ kind;
          same_position =
              position
              ∙ ap some (numbers-ok v vs)
              ∙ ap (λ (m : Node). some (number m.position.0, number m.position.1)) (sym normal);
          same_measured =
              measured
              ∙ ap some (numbers-ok w ws)
              ∙ ap (λ (m : Node). some (number m.measured.0, number m.measured.1)) (sym normal);
        },
        kept' ∙ kept,
      )

  validate_nodes_ok :
      (index : ℕ) (is : List IncomingNode) (ns : List Node) (s s' : S)
      → validate_nodes index is s ≡ (ok ns, s')
      → AreNormalized is ns × (s' ≡ s)
  unfolding validate_nodes
  validate_nodes_ok index [] ns s s' h =
      let none_there : ns ≡ [] = ground arith in
      (subst (AreNormalized []) (sym none_there) tt, ground arith)
  validate_nodes_ok index (i ∷ is) ns s s' h =
      let (n, s1, first, later) =
        >>=-ok (validate_node index i)
          (λ n. validate_nodes (suc index) is >>= (λ rest. pure (n ∷ rest))) s s' h in
      let (rest, s2, others, done) =
        >>=-ok (validate_nodes (suc index) is) (λ rest. pure (n ∷ rest)) s1 s' later in
      let (sound, kept) = validate_node_ok index i n s s1 first in
      let (sounds, kept') = validate_nodes_ok (suc index) is rest s1 s2 others in
      let both : (ns ≡ n ∷ rest) × (s' ≡ s2) = (ground arith, ground arith) in
      (subst (AreNormalized (i ∷ is)) (sym both.0) (sound, sounds), both.1 ∙ kept' ∙ kept)

  validate_edge_ok :
      (nodes : List Node) (index : ℕ) (e : Edge) (s s' : S) {u : Unit {0}}
      → validate_edge nodes index e s ≡ (ok u, s')
      → Joins nodes e × (s' ≡ s)
  unfolding validate_edge
  validate_edge_ok nodes index e s s' h = ground arith

  validate_edges_ok :
      (nodes : List Node) (index : ℕ) (es : List Edge) (s s' : S) {u : Unit {0}}
      → validate_edges nodes index es s ≡ (ok u, s')
      → All (Joins nodes) es × (s' ≡ s)
  unfolding validate_edges
  validate_edges_ok nodes index [] s s' h = (tt, ground arith)
  validate_edges_ok nodes index (e ∷ es) s s' h =
      let (u, s1, first, later) =
        >>-ok (validate_edge nodes index e) (validate_edges nodes (suc index) es) s s' h in
      let (joins, kept) = validate_edge_ok nodes index e s s1 {u = u} first in
      let (rest, kept') = validate_edges_ok nodes (suc index) es s1 s' later in
      ((joins, rest), kept' ∙ kept)

-- What an accepted flow is like.
pub record IsAccepted (incoming : List IncomingNode) (edges : List Edge) (nodes : List Node)
    : Type 0 where
  pub not_empty : incoming ≢ []
  pub normal : AreNormalized incoming nodes
  pub joined : All (Joins nodes) edges
  pub entered_once : (id : String) → is_counted id ≡ true → length (into id edges) ≤ 1

module _ ⦃p : Platform⦄ {S : Type 0} where
  -- A flow that the builder accepts has a node, its nodes are those of the request in their
  -- order, with their kinds, positions and sizes and with the fields that their modules set, each
  -- of its edges joins two of its nodes, no node is entered by more than one edge, unless its id
  -- is a name that every object of JavaScript has, and nothing else changes.
  pub validate_flow_structure_sound :
      (incoming : List IncomingNode) (edges : List Edge) (nodes : List Node) (s s' : S)
      → validate_flow_structure incoming edges s ≡ (ok nodes, s')
      → IsAccepted incoming edges nodes × (s' ≡ s)
  unfolding validate_flow_structure
  validate_flow_structure_sound [] edges nodes s s' h = absurd (cc)
  validate_flow_structure_sound (i ∷ is) edges nodes s s' h =
      let counts = connection_counts edges [] in
      let (ns, s1, made, h1) =
        >>=-ok (validate_nodes 0 (i ∷ is))
          (λ ns. validate_edges ns 0 edges >> (check_counts ns counts >> pure ns)) s s' h in
      let (u, s2, joined, h2) =
        >>-ok (validate_edges ns 0 edges) (check_counts ns counts >> pure ns) s1 s' h1 in
      let (v, s3, counted_fine, h3) = >>-ok (check_counts ns counts) (pure ns) s2 s' h2 in
      let (normal, kept1) = validate_nodes_ok 0 (i ∷ is) ns s s1 made in
      let (joins, kept2) = validate_edges_ok ns 0 edges s1 s2 {u = u} joined in
      let kept3 = (check_counts_ok ns counts "" s2 s3 {r = v} counted_fine).1 in
      let same : nodes ≡ ns = ground arith in
      let last : s' ≡ s3 = ground arith in
      (
        record {
          not_empty = λ e. cc;
          normal = subst (AreNormalized (i ∷ is)) (sym same) normal;
          joined = subst (λ m. All (Joins m) edges) (sym same) joins;
          entered_once = λ id plain.
              enters edges id plain (check_counts_ok ns counts id s2 s3 {r = v} counted_fine).0;
        },
        last ∙ kept3 ∙ kept2 ∙ kept1,
      )
