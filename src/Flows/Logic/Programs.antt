-- ===== src/Flows/Logic/Programs.antt =====
-- The logic that is built for a flow: it always comes to an end, and its flows are routes from
-- inputs to outputs.
use nexusflow_backend.Prelude.{
  suc, true, String, List, [], ◌∷◌, map, Option, none, some, ◌≡◌, refl, arith, All, All-append,
  All-map, All-select, length, select, Bool-cases, inl, inr, ◌⊎◌, ===_refl,
}
use nexusflow_backend.Action.{HttpError, ok, err, Result}
use nexusflow_backend.Action.Laws.{Yields, Yields-pure, Yields->>=, Yields->>, Ends}
use nexusflow_backend.Platform.{Platform}
use nexusflow_backend.Flows.Schemas.{Node, Edge}
use nexusflow_backend.Flows.Logic.Steps.{input, Handle, Log, is_input_module, build_input_step}
use nexusflow_backend.Flows.Logic.Paths.{LogicPath, Paths, handles_from, with_rest}
use nexusflow_backend.Flows.Logic.Build.{
  validate_function_nodes, warn_floating_function_nodes, warn_floating_mqtt_in_nodes,
  CommandExtraction, has_runtime_output_step, from_input, build_logic_path_for_input_node,
  input_paths, flows_of, extracted, build_logic_commands_from_graph,
}
use nexusflow_backend.Flows.Logic.Routes.{IsRoute, IsNode, unvisited-le}
use nexusflow_backend.Flows.Logic.Search.{AreFresh, build_paths_from_node-AreFresh}

module _ (handles : List Handle) (edges : List Edge) where
  -- A flow starts with the step of an input node, and goes on by a route from it.
  abbrev pub IsProgram : LogicPath → Type 0
  IsProgram [] = ⊥
  IsProgram (step ∷ path) =
      (step.step_type ≡ input)
      × IsNode handles step.id
      × (is_input_module step.module_id ≡ true)
      × IsRoute edges step.id (step.id ∷ []) path

  abbrev pub ArePrograms : Paths → Type 0
  ArePrograms none = ⊥
  ArePrograms (some flows) = All IsProgram flows

  with_rest-ArePrograms :
      (r rest : Paths) → ArePrograms r → ArePrograms rest → ArePrograms (with_rest r rest)
  with_rest-ArePrograms none rest i j = absurd i
  with_rest-ArePrograms (some paths) none i j = absurd j
  with_rest-ArePrograms (some paths) (some rest) i j = All-append IsProgram paths rest i j

module _ ⦃p : Platform⦄ (validate_function_code : String → Option String) (edges : List Edge)
    (flow_id : Option String) where
  begun :
      (handles : List Handle) (h : Handle) (paths : List LogicPath)
      → IsNode handles h.node.id
      → is_input_module h.node.content.module_id ≡ true
      → All (IsRoute edges h.node.id (h.node.id ∷ [])) paths
      → All (IsProgram handles edges) (map (λ path. build_input_step h.node ∷ path) paths)
  unfolding build_input_step
  begun handles h [] there kind routes = tt
  begun handles h (path ∷ paths) there kind routes =
      ((refl, there, kind, routes.0), begun handles h paths there kind routes.1)

  from_input-ArePrograms :
      (handles : List Handle) (h : Handle) (r : Paths)
      → IsNode handles h.node.id
      → is_input_module h.node.content.module_id ≡ true
      → AreFresh handles edges h [] r
      → ArePrograms handles edges (from_input validate_function_code handles edges flow_id h.node r)
  from_input-ArePrograms handles h none there kind fresh = absurd fresh
  from_input-ArePrograms handles h (some []) there kind fresh = tt
  from_input-ArePrograms handles h (some (path ∷ paths)) there kind fresh =
      begun handles h (select has_runtime_output_step (path ∷ paths)) there kind (
        All-select (IsRoute edges h.node.id (h.node.id ∷ [])) has_runtime_output_step (path ∷ paths)
          fresh.1)

  build_logic_path-ArePrograms :
      (handles : List Handle) (h : Handle)
      → IsNode handles h.node.id
      → is_input_module h.node.content.module_id ≡ true
      → Yields
          (ArePrograms handles edges)
          (build_logic_path_for_input_node validate_function_code handles edges flow_id h)
  unfolding build_logic_path_for_input_node
  build_logic_path-ArePrograms handles h there kind =
      Yields->>= (AreFresh handles edges h []) _ _ _
        (build_paths_from_node-AreFresh validate_function_code handles edges flow_id
          (suc (length handles)) h [] there (omega (arith, unvisited-le handles)))
        (λ r fresh. Yields-pure (from_input-ArePrograms handles h r there kind fresh))

  input_paths-ArePrograms :
      (handles hs : List Handle)
      → All (λ (h : Handle). IsNode handles h.node.id) hs
      → Yields
          (ArePrograms handles edges)
          (input_paths validate_function_code handles edges flow_id hs)
  unfolding input_paths
  input_paths-ArePrograms handles [] nodes = Yields-pure tt
  input_paths-ArePrograms handles (h ∷ hs) nodes =
      elim (Bool-cases (is_input_module h.node.content.module_id)) [
        | inr other ↦ rw other (input_paths-ArePrograms handles hs nodes.1)
        | inl kind ↦ rw kind (
            Yields->>= (ArePrograms handles edges) _ _ _
              (build_logic_path-ArePrograms handles h nodes.0 kind)
              (λ r programs.
                Yields->>= (ArePrograms handles edges) _ _ _
                  (input_paths-ArePrograms handles hs nodes.1)
                  (λ rest others.
                    Yields-pure (with_rest-ArePrograms handles edges r rest programs others))))
      ]

  each_its_own : (handles : List Handle) → All (λ (h : Handle). IsNode handles h.node.id) handles
  each_its_own [] = tt
  each_its_own (h ∷ hs) = (
    rw (===_refl h.node.id) refl,
    All-map (λ (x : Handle). IsNode hs x.node.id) (λ (x : Handle). IsNode (h ∷ hs) x.node.id) hs
        (λ x k. ground arith) (each_its_own hs),
  )

  -- What was extracted: a program for each flow.
  abbrev pub IsExtracted : List Node → Option CommandExtraction → Type 0
  IsExtracted nodes none = ⊥
  IsExtracted nodes (some extraction) =
      All (IsProgram (handles_from 0 nodes) edges) extraction.flows

  extracted-IsExtracted :
      (nodes : List Node) (r : Paths)
      → ArePrograms (handles_from 0 nodes) edges r
      → Yields (IsExtracted nodes) (extracted validate_function_code (handles_from 0 nodes) r)
  extracted-IsExtracted nodes none h = absurd h
  extracted-IsExtracted nodes (some flows) h = record { yields = λ s. h }

module _ ⦃p : Platform⦄ (validate_function_code : String → Option String)
    (flow_id : Option String) where
  flows_of-ArePrograms :
      (handles : List Handle) (edges : List Edge)
      → Yields (ArePrograms handles edges) (flows_of validate_function_code handles edges flow_id)
  flows_of-ArePrograms handles [] = Yields-pure tt
  flows_of-ArePrograms handles (e ∷ es) =
      input_paths-ArePrograms validate_function_code (e ∷ es) flow_id handles handles
        (each_its_own validate_function_code (e ∷ es) flow_id handles)

module _ ⦃p : Platform⦄ (validate_function_code : String → Option String) (edges : List Edge)
    (flow_id : Option String) where
  settled :
      (nodes : List Node) (r : Result (Option CommandExtraction))
      → Ends (IsExtracted validate_function_code edges flow_id nodes) r
      → ((e : HttpError) × (r ≡ err e))
        ⊎ ((x : CommandExtraction) × (r ≡ ok (some x))
            × All (IsProgram (handles_from 0 nodes) edges) x.flows)
  settled nodes (err e) h = inl (e, refl)
  settled nodes (ok none) h = absurd h
  settled nodes (ok (some x)) h = inr (x, refl, h)

  built :
      (nodes : List Node)
      → Yields
          (IsExtracted validate_function_code edges flow_id nodes)
          (build_logic_commands_from_graph validate_function_code nodes edges flow_id)
  unfolding build_logic_commands_from_graph
  built nodes =
      Yields->> _ (validate_function_nodes validate_function_code (handles_from 0 nodes)) _ (
        Yields->> _ (warn_floating_function_nodes edges (handles_from 0 nodes)) _ (
          Yields->> _ (warn_floating_mqtt_in_nodes edges (handles_from 0 nodes)) _ (
            Yields->>= (ArePrograms (handles_from 0 nodes) edges) _ _ _
              (flows_of-ArePrograms validate_function_code flow_id (handles_from 0 nodes) edges)
              (λ r programs.
                extracted-IsExtracted validate_function_code edges flow_id nodes r programs))))

  -- Building the logic of any nodes and edges ends, with an error or with an extraction. Each
  -- flow of an extraction starts with the step of an input node and goes along edges, through
  -- function nodes that it did not visit before, to one output at its end.
  pub build_logic_commands_ends :
      (nodes : List Node) (log : Log)
      → ((e : HttpError) × ((build_logic_commands_from_graph validate_function_code nodes edges
              flow_id log).0
            ≡ err e))
        ⊎ ((x : CommandExtraction) × ((build_logic_commands_from_graph validate_function_code nodes
                edges flow_id log).0
              ≡ ok (some x))
            × All (IsProgram (handles_from 0 nodes) edges) x.flows)
  build_logic_commands_ends nodes log =
      settled nodes
        (build_logic_commands_from_graph validate_function_code nodes edges flow_id log).0
        ((built nodes).yields log)
