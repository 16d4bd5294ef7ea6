-- ===== src/Flows/Ui/Laws.antt =====
-- Which nodes have an item of the user interface, and what an item says of its node.
use nexusflow_backend.Prelude.{
  ℕ, Bool, true, false, not, ◌||◌, ◌&&◌, String, List, [], ◌∷◌, map, Option, none, some, is_some,
  ◌≡◌, refl, ap, arith, All, select, Number, Bool-cases, inl, inr,
}
use nexusflow_backend.Action.{ok}
use nexusflow_backend.Action.Laws.{Yields, Yields-pure, Yields-throw, Yields->>=, answer_of}
use nexusflow_backend.Platform.{Platform}
use nexusflow_backend.Flows.Schemas.{Node, Edge, variable}
use nexusflow_backend.Flows.Values.{to_optional_number, to_boolean}
use nexusflow_backend.Flows.Setup.State.{is_kind}
use nexusflow_backend.Flows.Setup.Gpio.{is_module}
use nexusflow_backend.Flows.Setup.Sensors.{is_ultrasonic}
use nexusflow_backend.Flows.Setup.Build.{is_digital_sensor, is_analog_sensor}
use nexusflow_backend.Flows.Logic.Steps.{is_function_module}
use nexusflow_backend.Flows.Ui.{
  output, UiItem, is_target, output_item, output_with, input_with, analog_sensor_item,
  digital_sensor_item, ui_item, with_item, ui_items, build_ui_from_nodes,
}

module _ ⦃p : Platform⦄ where
  -- Functions and bridges out have no item, nor has an output without a pin.
  abbrev pub is_shown : Node → Bool
  is_shown node =
      not (is_function_module node.content.module_id)
      && not (is_module "mqtt-out" node)
      && (is_module "mqtt-in" node
          || not (is_kind "ESP32-gpio-output" node)
          || is_some (to_optional_number (variable "pinNumber" node)))

module _ (edges : List Edge) where
  -- An output says whether an edge leads to it.
  abbrev pub IsTold : UiItem → Type 0
  IsTold item =
      item.module_type ≡ output
      → (item.is_connected ≡ some (is_target edges item.node_id))
        × (item.is_floating ≡ some (not (is_target edges item.node_id)))

module _ ⦃p : Platform⦄ (edges : List Edge) where
  -- The items of the nodes that are shown, in their order.
  abbrev pub AreItems : List Node → List UiItem → Type 0
  AreItems nodes items =
      (map {B = String} (λ (i : UiItem). i.node_id) items
        ≡ map (λ (n : Node). n.id) (select is_shown nodes))
      × All (IsTold edges) items

module _ ⦃p : Platform⦄ (random : ℕ → ℕ) (edges : List Edge) (flow_id : Option String) where
  abbrev ItemOf : Node → Option UiItem → Type 0
  ItemOf node none = is_shown node ≡ false
  ItemOf node (some item) = (is_shown node ≡ true) × (item.node_id ≡ node.id) × IsTold edges item

  output_with-ItemOf :
      (node : Node) (pin : Option Number)
      → to_optional_number (variable "pinNumber" node) ≡ pin
      → is_module "mqtt-out" node ≡ false
      → is_module "mqtt-in" node ≡ false
      → is_function_module node.content.module_id ≡ false
      → is_kind "ESP32-gpio-output" node ≡ true
      → ItemOf node (output_with random edges flow_id node pin)
  unfolding output_item
  output_with-ItemOf node none e a b c d = ground arith
  output_with-ItemOf node (some pin) e a b c d = (ground arith, refl, λ _. (refl, refl))

  input_with-ItemOf :
      (node : Node) (pin : Option Number)
      → is_shown node ≡ true
      → Yields (ItemOf node) (input_with random edges flow_id node pin)
  input_with-ItemOf node none h = Yields-throw _
  input_with-ItemOf node (some pin) h = Yields-pure (h, refl, λ e. absurd (cc e))

  analog_sensor_item-ItemOf :
      (node : Node)
      → is_shown node ≡ true
      → Yields (ItemOf node) (analog_sensor_item random edges flow_id node)
  unfolding analog_sensor_item
  analog_sensor_item-ItemOf node h =
      elim (Bool-cases (
        to_boolean (variable "isDigital" node)
          && not (is_some (to_optional_number (variable "digitalPin" node)))
        || to_boolean (variable "isAnalog" node)
          && not (is_some (to_optional_number (variable "analogPin" node))))) [
            | inl missing ↦ rw missing (Yields-throw _)
            | inr there ↦ rw there (record { yields = λ s. (h, refl, λ e. absurd (cc e)) })
          ]

  digital_sensor_item-ItemOf :
      (node : Node)
      → is_shown node ≡ true
      → Yields (ItemOf node) (digital_sensor_item random edges flow_id node)
  unfolding digital_sensor_item
  digital_sensor_item-ItemOf node h =
      let pin = to_optional_number (variable "pinNumber" node) in
      let trigger = to_optional_number (variable "triggerPin" node) in
      let echo = to_optional_number (variable "echoPin" node) in
      elim (Bool-cases (is_ultrasonic node && (not (is_some trigger) || not (is_some echo)))) [
        | inl missing ↦ rw missing (Yields-throw _)
        | inr there ↦ elim (Bool-cases (not (is_ultrasonic node) && not (is_some pin))) [
          | inl missing ↦ rw (there, missing) (Yields-throw _)
          | inr pinned ↦ rw (there, pinned) (record { yields = λ s. (h, refl, λ e. absurd (cc e)) })
        ]
      ]

  ui_item-ItemOf : (node : Node) → Yields (ItemOf node) (ui_item random edges flow_id node)
  unfolding ui_item
  ui_item-ItemOf node = elim (Bool-cases (is_function_module node.content.module_id)) [
    | inl a ↦ rw a (Yields-pure (rw a refl))
    | inr a ↦ elim (Bool-cases (is_module "mqtt-out" node)) [
      | inl b ↦ rw (a, b) (Yields-pure (rw (a, b) refl))
      | inr b ↦ elim (Bool-cases (is_module "mqtt-in" node)) [
        | inl c ↦ rw (a, b, c) (Yields-pure (rw (a, b, c) refl, refl, λ e. absurd (cc e)))
        | inr c ↦ elim (Bool-cases (is_kind "ESP32-gpio-output" node)) [
          | inl d ↦ rw (a, b, c, d) (Yields-pure (output_with-ItemOf node _ refl b c a d))
          | inr d ↦
              let shown : is_shown node ≡ true = ground arith in
              elim (Bool-cases (is_analog_sensor node)) [
                | inl e ↦ rw (a, b, c, d, e) (analog_sensor_item-ItemOf node shown)
                | inr e ↦ elim (Bool-cases (is_kind "ESP32-gpio-input" node)) [
                  | inl f ↦ rw (a, b, c, d, e, f) (input_with-ItemOf node _ shown)
                  | inr f ↦ elim (Bool-cases (is_digital_sensor node)) [
                    | inl g ↦ rw (a, b, c, d, e, f, g) (digital_sensor_item-ItemOf node shown)
                    | inr g ↦
                        rw (a, b, c, d, e, f, g) (Yields-pure (shown, refl, λ k. absurd (cc k)))
                  ]
                ]
              ]
        ]
      ]
    ]
  ]

  with_item-AreItems :
      (n : Node) (ns : List Node) (item : Option UiItem) (items : List UiItem)
      → ItemOf n item
      → AreItems edges ns items
      → AreItems edges (n ∷ ns) (with_item item items)
  with_item-AreItems n ns none items it others = rw it others
  with_item-AreItems n ns (some item) items it others =
      (rw (it.0, it.1) (ap (λ ids. n.id ∷ ids) others.0), (it.2, others.1))

  ui_items-AreItems :
      (nodes : List Node) → Yields (AreItems edges nodes) (ui_items random edges flow_id nodes)
  unfolding ui_items
  ui_items-AreItems [] = Yields-pure (refl, tt)
  ui_items-AreItems (n ∷ ns) = Yields->>= (ItemOf n) _ _ _ (ui_item-ItemOf n) (λ item it.
      Yields->>= (AreItems edges ns) _ _ _ (ui_items-AreItems ns)
        (λ rest others. Yields-pure (with_item-AreItems n ns item rest it others)))

  -- The items of the interface of a flow, where the builder makes them, are those of the nodes
  -- that are shown, in their order, and the item of an output says whether an edge leads to its
  -- node.
  pub build_ui_from_nodes-AreItems :
      (nodes : List Node) (draws draws' : ℕ) (items : List UiItem)
      → build_ui_from_nodes random edges flow_id nodes draws ≡ (ok items, draws')
      → AreItems edges nodes items
  unfolding build_ui_from_nodes
  build_ui_from_nodes-AreItems [] draws draws' items h = absurd (cc)
  build_ui_from_nodes-AreItems (n ∷ ns) draws draws' items h =
      answer_of (ui_items-AreItems (n ∷ ns)) h
