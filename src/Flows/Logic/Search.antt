-- ===== src/Flows/Logic/Search.antt =====
-- The search for paths ends, and finds only routes.
use nexusflow_backend.Prelude.{
  ℕ, zero, suc, ◌<◌, true, false, String, List, [], ◌∷◌, map, Option, none, some, ◌≡◌, refl, sym,
  Number, subst, arith, All, All-append, Bool-cases, inl, inr, ◌===◌, is_empty,
}
use nexusflow_backend.Action.{Action}
use nexusflow_backend.Action.Laws.{
  Yields, Yields-pure, Yields-throw, Yields-weaken, Yields->>=, Yields->>,
}
use nexusflow_backend.Platform.{Platform}
use nexusflow_backend.Flows.Schemas.{Edge, variable}
use nexusflow_backend.Flows.Logic.Steps.{
  function, RuntimeStep, Handle, Log, is_function_module, is_output_module,
  build_output_step_from_node, build_function_step_from_node, append_node_warning, mqtt_out_step,
  gpio_step, checked_code, code_of,
}
use nexusflow_backend.Flows.Logic.Channels.{parse_target_flow_ids}
use nexusflow_backend.Flows.Logic.Paths.{
  LogicPath, Paths, node_by_id, outgoing, with_rest, through, function_paths, target_paths,
  found_paths, edge_paths, build_paths_from_node,
}
use nexusflow_backend.Flows.Logic.Build.{is_output_step}
use nexusflow_backend.Flows.Logic.Routes.{
  visits, IsLinked, IsRoute, IsLinked-outgoing, node_by_id-same, IsNode, node_by_id-IsNode,
  unvisited, unvisited-lt,
}

-- The step of an output is for that node, and is one.
abbrev OutputOf : Handle → Option RuntimeStep → Type 0
OutputOf h none = Unit
OutputOf h (some step) = (step.id ≡ h.node.id) × (is_output_step step ≡ true)

abbrev FunctionOf : Handle → RuntimeStep → Type 0
FunctionOf h step = (step.id ≡ h.node.id) × (step.step_type ≡ function)

module _ ⦃p : Platform⦄ where
  mqtt_out_step-OutputOf :
      (h : Handle) (ids : List String) → Yields (OutputOf h) (mqtt_out_step h ids)
  mqtt_out_step-OutputOf h [] = Yields-throw _
  mqtt_out_step-OutputOf h (id ∷ ids) = Yields-pure (refl, refl)

  gpio_step-OutputOf :
      (h : Handle) (flow_id : Option String) (pin : Option Number) (cmd : Option ℕ)
      → Yields (OutputOf h) (gpio_step h flow_id pin cmd)
  unfolding append_node_warning
  gpio_step-OutputOf h flow_id none cmd = record { yields = λ s. tt }
  gpio_step-OutputOf h flow_id (some pin) none = record { yields = λ s. tt }
  gpio_step-OutputOf h flow_id (some pin) (some cmd) = Yields-pure (refl, refl)

  build_output_step-OutputOf :
      (h : Handle) (flow_id : Option String)
      → Yields (OutputOf h) (build_output_step_from_node h flow_id)
  unfolding build_output_step_from_node
  build_output_step-OutputOf h flow_id =
      elim (Bool-cases (is_output_module h.node.content.module_id)) [
        | inr other ↦ rw other (Yields-pure tt)
        | inl there ↦ elim (Bool-cases (h.node.content.module_id === "mqtt-out")) [
          | inl bridge ↦
              rw (there, bridge)
                (mqtt_out_step-OutputOf h (parse_target_flow_ids (variable "targetFlowIds" h.node)))
          | inr gpio ↦ rw (there, gpio) (gpio_step-OutputOf h flow_id _ _)
        ]
      ]

  module _ (validate_function_code : String → Option String) where
    checked_code-FunctionOf :
        (h : Handle) (c : String) (problem : Option String)
        → Yields (FunctionOf h) (checked_code validate_function_code h c problem)
    checked_code-FunctionOf h c none = Yields-pure (refl, refl)
    checked_code-FunctionOf h c (some problem) = Yields-throw _

    build_function_step-FunctionOf :
        (h : Handle)
        → Yields (FunctionOf h) (build_function_step_from_node validate_function_code h)
    unfolding build_function_step_from_node append_node_warning
    build_function_step-FunctionOf h = elim (Bool-cases (is_empty (code_of h.node))) [
      | inl blank ↦ rw blank (record { yields = λ s. (refl, refl) })
      | inr code ↦ rw code (checked_code-FunctionOf h (code_of h.node) _)
    ]

module _ (handles : List Handle) (edges : List Edge) where
  -- Routes from a node, whose id was visited by then.
  abbrev pub AreRoutes : Handle → List String → Paths → Type 0
  AreRoutes h visited none = ⊥
  AreRoutes h visited (some paths) = All (IsRoute edges h.node.id (h.node.id ∷ visited)) paths

  -- The same, where some path shows that the node was not visited before.
  abbrev pub AreFresh : Handle → List String → Paths → Type 0
  AreFresh h visited none = ⊥
  AreFresh h visited (some []) = Unit
  AreFresh h visited (some (path ∷ paths)) =
      (visits visited h.node.id ≡ false)
      × All (IsRoute edges h.node.id (h.node.id ∷ visited)) (path ∷ paths)

  AreFresh-of :
      (h : Handle) (visited : List String) (r : Paths)
      → visits visited h.node.id ≡ false
      → AreRoutes h visited r
      → AreFresh h visited r
  AreFresh-of h visited none new h' = h'
  AreFresh-of h visited (some []) new routes = tt
  AreFresh-of h visited (some (path ∷ paths)) new routes = (new, routes)

  with_rest-AreRoutes :
      (h : Handle) (visited : List String) (r rest : Paths)
      → AreRoutes h visited r
      → AreRoutes h visited rest
      → AreRoutes h visited (with_rest r rest)
  with_rest-AreRoutes h visited none rest i j = absurd i
  with_rest-AreRoutes h visited (some paths) none i j = absurd j
  with_rest-AreRoutes h visited (some paths) (some rest) i j =
      All-append (IsRoute edges h.node.id (h.node.id ∷ visited)) paths rest i j

  -- A function in front of routes from it.
  in_front :
      (from : String) (visited : List String) (step : RuntimeStep) (paths : List LogicPath)
      → IsLinked edges from step.id
      → step.step_type ≡ function
      → visits visited step.id ≡ false
      → All (IsRoute edges step.id (step.id ∷ visited)) paths
      → All (IsRoute edges from visited) (map (λ steps. step ∷ steps) paths)
  in_front from visited step [] linked kind new routes = tt
  in_front from visited step ([] ∷ paths) linked kind new routes = absurd (routes.0)
  in_front from visited step ((next ∷ rest) ∷ paths) linked kind new routes =
      ((linked, kind, new, routes.0), in_front from visited step paths linked kind new routes.1)

module _ ⦃p : Platform⦄ (validate_function_code : String → Option String) (handles : List Handle)
    (edges : List Edge) (flow_id : Option String) where
  through-AreRoutes :
      (h target : Handle) (visited : List String) (step : RuntimeStep) (r : Paths)
      → IsLinked edges h.node.id target.node.id
      → FunctionOf target step
      → AreFresh handles edges target (h.node.id ∷ visited) r
      → Yields
          (AreRoutes handles edges h visited)
          (through validate_function_code handles edges flow_id target step r)
  through-AreRoutes h target visited step none linked kind fresh = absurd fresh
  through-AreRoutes h target visited step (some []) linked kind fresh = Yields-throw _
  through-AreRoutes h target visited step (some (path ∷ paths)) linked kind fresh =
      let own = λ (id : String). All (IsRoute edges id (id ∷ h.node.id ∷ visited)) (path ∷ paths) in
      Yields-pure (
        in_front handles edges h.node.id (h.node.id ∷ visited) step (path ∷ paths)
          (subst (IsLinked edges h.node.id) (sym kind.0) linked) kind.1
          (subst (λ id. visits (h.node.id ∷ visited) id ≡ false) (sym kind.0) fresh.0)
          (subst own (sym kind.0) fresh.1))

  module _ (recurse : Handle → Action Log Paths) (h : Handle) (visited : List String)
      (sound : (target : Handle)
        → IsNode handles target.node.id
        → Yields (AreFresh handles edges target (h.node.id ∷ visited)) (recurse target)) where
    target_paths-AreRoutes :
        (target : Handle) (out : Option RuntimeStep)
        → IsNode handles target.node.id
        → IsLinked edges h.node.id target.node.id
        → OutputOf target out
        → Yields
            (AreRoutes handles edges h visited)
            (target_paths validate_function_code handles edges flow_id recurse h target out)
    unfolding function_paths
    target_paths-AreRoutes target (some step) there linked it =
        Yields-pure ((subst (IsLinked edges h.node.id) (sym it.0) linked, it.1), tt)
    target_paths-AreRoutes target none there linked it =
        elim (Bool-cases (is_function_module target.node.content.module_id)) [
          | inr unknown ↦ rw unknown (Yields->> _ _ _ (Yields-pure tt))
          | inl code ↦ rw code (
              Yields->>= (FunctionOf target) _ _ _
                (build_function_step-FunctionOf validate_function_code target)
                (λ step kind.
                  Yields->>= (AreFresh handles edges target (h.node.id ∷ visited)) _ _ _
                    (sound target there)
                    (λ r fresh. through-AreRoutes h target visited step r linked kind fresh)))
        ]

    found_paths-AreRoutes :
        (e : Edge) (found : Option Handle)
        → IsLinked edges h.node.id e.target
        → ((t : Handle) → found ≡ some t → IsNode handles t.node.id × (t.node.id ≡ e.target))
        → Yields
            (AreRoutes handles edges h visited)
            (found_paths validate_function_code handles edges flow_id recurse h e found)
    found_paths-AreRoutes e none linked known = Yields->> _ _ _ (Yields-pure tt)
    found_paths-AreRoutes e (some target) linked known =
        let (there, same) = known target refl in
        Yields->> _ _ _ (
          Yields->>= (OutputOf target) _ _ _ (build_output_step-OutputOf target flow_id) (λ out it.
            target_paths-AreRoutes target out there
              (subst (IsLinked edges h.node.id) (sym same) linked) it))

    edge_paths-AreRoutes :
        (es : List Edge)
        → All (λ (e : Edge). IsLinked edges h.node.id e.target) es
        → Yields
            (AreRoutes handles edges h visited)
            (edge_paths validate_function_code handles edges flow_id recurse h es)
    unfolding edge_paths
    edge_paths-AreRoutes [] linked = Yields-pure tt
    edge_paths-AreRoutes (e ∷ es) linked =
        Yields->>= (AreRoutes handles edges h visited) _ _ _
          (found_paths-AreRoutes e (node_by_id handles e.target) linked.0 (λ t found.
            (node_by_id-IsNode handles e.target t found, node_by_id-same handles e.target t found)))
          (λ r routes.
            Yields->>= (AreRoutes handles edges h visited) _ _ _ (edge_paths-AreRoutes es linked.1)
              (λ rest others.
                Yields-pure (with_rest-AreRoutes handles edges h visited r rest routes others)))

  -- With more fuel than nodes to visit, the search from a node ends, and what it finds are routes.
  pub build_paths_from_node-AreFresh :
      (fuel : ℕ) (h : Handle) (visited : List String)
      → IsNode handles h.node.id
      → unvisited handles visited < fuel
      → Yields
          (AreFresh handles edges h visited)
          (build_paths_from_node validate_function_code handles edges flow_id fuel h visited)
  unfolding build_paths_from_node
  build_paths_from_node-AreFresh zero h visited there enough = absurd (omega arith)
  build_paths_from_node-AreFresh (suc fuel) h visited there enough =
      elim (Bool-cases (visits visited h.node.id)) [
        | inl seen ↦ rw seen (Yields->> _ _ _ (Yields-pure tt))
        | inr new ↦
            let fewer = unvisited-lt handles h.node.id visited there new in
            rw new (
              Yields-weaken
                (edge_paths-AreRoutes
                  (λ target.
                    build_paths_from_node validate_function_code handles edges flow_id fuel target
                      (h.node.id ∷ visited))
                  h visited
                  (λ target node.
                    build_paths_from_node-AreFresh fuel target (h.node.id ∷ visited) node
                      (omega arith))
                  (outgoing edges h.node.id) (IsLinked-outgoing h.node.id edges))
                (λ r routes. AreFresh-of handles edges h visited r new routes))
      ]
