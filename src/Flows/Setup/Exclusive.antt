-- ===== src/Flows/Setup/Exclusive.antt =====
-- In an accepted setup no two nodes share a pin.
use nexusflow_backend.Prelude.{
  ℕ, Bool, true, false, String, List, [], ◌∷◌, ◌++◌, Option, ◌≡◌, refl, subst, arith, All, Number,
  same, if◌then◌else◌, before,
}
use nexusflow_backend.Action.{ok, err, Result, Action, ◌>>◌}
use nexusflow_backend.Action.Laws.{>>=-ok, >>-ok}
use nexusflow_backend.Platform.{Platform}
use nexusflow_backend.Flows.Schemas.{Node, variable}
use nexusflow_backend.Flows.Registry.{ModuleDefinition, analog_pins, gpio_input_pins}
use nexusflow_backend.Flows.Structure.{get_validated_module_definition}
use nexusflow_backend.Flows.Values.{BuilderConfig, to_boolean}
use nexusflow_backend.Flows.Setup.State.{Building, SetupObject, start, is_kind}
use nexusflow_backend.Flows.Setup.Gpio.{setup_gpio_node}
use nexusflow_backend.Flows.Setup.Sensors.{
  claim, only_if, sensor_type, sensor_pins, claim_sensor_pins, push_task, setup_digital_sensor,
  digital_task, analog_task, analog_sensor_pins, claim_analog_pins, setup_analog_sensor,
}
use nexusflow_backend.Flows.Setup.Build.{
  is_gpio_node, is_digital_sensor, is_analog_sensor, on, finished, answer, setup_node, setup_nodes,
  build_setup_from_nodes,
}
use nexusflow_backend.Flows.Setup.Pins.{NoneSame, IsUsable, analog-IsUsable, gpio_input-IsUsable}
use nexusflow_backend.Flows.Setup.Claims.{
  one, Claims, Claims-none, Claims-then, Claims-kept, ultra_pins, used_pins, pin_number, pins_of,
  pins_of_all,
}
use nexusflow_backend.Flows.Setup.NodePins.{
  setup_gpio_node-Claims, sensor_pins_ok, claim_sensor_pins-Claims, analog_sensor_pins_ok,
  claim-Claims, push_task-taken,
}

get_validated-kept :
    (node : Node) (d : ModuleDefinition) (s s' : Building)
    → get_validated_module_definition node s ≡ (ok d, s')
    → s' ≡ s
unfolding get_validated_module_definition
get_validated-kept node d s s' h = ground arith

module _ ⦃p : Platform⦄ (random : ℕ → ℕ) (config : BuilderConfig) (flow_id : Option String) where
  pub answered :
      (r : Result (Unit {0}) × Building) {setup : SetupObject}
      → answer random config flow_id r ≡ ok setup
      → (s : Building) × (r ≡ (ok tt, s)) × (setup ≡ finished s)
  answered (ok u, s) h = (s, refl, ground arith)
  answered (err e, s) h = absurd (cc)

module _ ⦃p : Platform⦄ (random : ℕ → ℕ) (config : BuilderConfig) (flow_id : Option String) where
  setup_digital_sensor-Claims :
      (node : Node) (s s' : Building) {u : Unit {0}}
      → setup_digital_sensor random config flow_id node s ≡ (ok u, s')
      → Claims (ultra_pins node) s s'
  unfolding setup_digital_sensor
  setup_digital_sensor-Claims node s s' {u} h =
      let task = λ (pins : Option Number × Option Number × Option Number).
        push_task random (sensor_type node) node.content.module_id
          (if is_kind "Ultrasonic-Sensor" node then pins.1 else pins.0)
          (digital_task config flow_id node pins.0 pins.1 pins.2) in
      let (pins, s1, read, h1) =
        >>=-ok (sensor_pins node) (λ pins. claim_sensor_pins node pins.0 pins.1 pins.2 >> task pins)
          s s' h in
      let (named, kept) = sensor_pins_ok node pins s s1 read in
      let (v, s2, claimed, pushed) =
        >>-ok (claim_sensor_pins node pins.0 pins.1 pins.2) (task pins) s1 s' h1 in
      let claims = claim_sensor_pins-Claims node pins.0 pins.1 pins.2 s1 s2 {u = v} claimed in
      let named_claims =
        subst
          (λ (q : Option Number × Option Number × Option Number).
            Claims (if is_kind "Ultrasonic-Sensor" node then one q.1 ++ one q.2 else one q.0) s1 s2)
          named claims in
      (Claims-kept (subst (λ t. Claims (ultra_pins node) t s2) kept named_claims) (
        push_task-taken random (sensor_type node) node.content.module_id
          (if is_kind "Ultrasonic-Sensor" node then pins.1 else pins.0)
          (digital_task config flow_id node pins.0 pins.1 pins.2) s2 s' {u = u} pushed))

  setup_analog_sensor-Claims :
      (node : Node) (s s' : Building) {u : Unit {0}}
      → setup_analog_sensor random config flow_id node s ≡ (ok u, s')
      → Claims (used_pins node) s s'
  unfolding setup_analog_sensor claim_analog_pins
  setup_analog_sensor-Claims node s s' {u} h =
      let is_digital = to_boolean (variable "isDigital" node) in
      let is_analog = to_boolean (variable "isAnalog" node) in
      let task = λ (pins : Option Number × Option Number).
        push_task random (before b'-' node.content.module_id) node.content.module_id
          (if is_digital then pins.0 else pins.1) (analog_task config flow_id node pins.0 pins.1) in
      let (pins, s1, read, h1) =
        >>=-ok (analog_sensor_pins node) (λ pins. claim_analog_pins node pins.0 pins.1 >> task pins)
          s s' h in
      let (named, kept) = analog_sensor_pins_ok node pins s s1 read in
      let (v, s2, claimed, pushed) =
        >>-ok (claim_analog_pins node pins.0 pins.1) (task pins) s1 s' h1 in
      let digital =
        claim node (only_if is_digital pins.0) gpio_input_pins "digital pin"
          "NODE_DIGITAL_PIN_INVALID" in
      let analog =
        claim node (only_if is_analog pins.1) analog_pins "analog pin" "NODE_ANALOG_PIN_INVALID" in
      let (w, s3, first, second) = >>-ok digital analog s1 s2 claimed in
      let claims =
        Claims-then
          (claim-Claims node (only_if is_digital pins.0) gpio_input_pins "digital pin"
            "NODE_DIGITAL_PIN_INVALID" s1 s3 {u = w} gpio_input-IsUsable first)
          (claim-Claims node (only_if is_analog pins.1) analog_pins "analog pin"
            "NODE_ANALOG_PIN_INVALID" s3 s2 {u = v} analog-IsUsable second) in
      let named_claims =
        subst
          (λ (q : Option Number × Option Number).
            Claims (one (only_if is_digital q.0) ++ one (only_if is_analog q.1)) s1 s2)
          named claims in
      (Claims-kept (subst (λ t. Claims (used_pins node) t s2) kept named_claims) (
        push_task-taken random (before b'-' node.content.module_id) node.content.module_id
          (if is_digital then pins.0 else pins.1) (analog_task config flow_id node pins.0 pins.1) s2
          s' {u = u} pushed))

  on-Claims :
      (test : Bool) (action : Action Building (Unit {0})) (pins : List Number) (s s' : Building)
      {u : Unit {0}}
      → (test ≡ true → action s ≡ (ok u, s') → Claims pins s s')
      → on test action s ≡ (ok u, s')
      → Claims (if test then pins else []) s s'
  on-Claims true action pins s s' k h = k refl h
  on-Claims false action pins s s' k h = Claims-none s s' (ground arith)

  setup_node-Claims :
      (node : Node) (s s' : Building) {u : Unit {0}}
      → setup_node random config flow_id node s ≡ (ok u, s')
      → Claims (pins_of node) s s'
  unfolding setup_node
  setup_node-Claims node s s' {u} h =
      let gpio = λ (d : ModuleDefinition). setup_gpio_node config flow_id node d in
      let digital = setup_digital_sensor random config flow_id node in
      let analog = setup_analog_sensor random config flow_id node in
      let sensors = on (is_digital_sensor node) digital >> on (is_analog_sensor node) analog in
      let (d, s1, found, h1) =
        >>=-ok (get_validated_module_definition node)
          (λ d. on (is_gpio_node node) (gpio d) >> sensors) s s' h in
      let kept : s1 ≡ s = get_validated-kept node d s s1 found in
      let (v, s2, first, h2) = >>-ok (on (is_gpio_node node) (gpio d)) sensors s1 s' h1 in
      let (w, s3, second, third) =
        >>-ok (on (is_digital_sensor node) digital) (on (is_analog_sensor node) analog) s2 s' h2 in
      subst (λ t. Claims (pins_of node) t s') kept
        (Claims-then
          (on-Claims (is_gpio_node node) (gpio d) (pin_number node) s1 s2 {u = v}
            (setup_gpio_node-Claims config flow_id node d s1 s2 {u = v}) first)
          (Claims-then
            (on-Claims (is_digital_sensor node) digital (ultra_pins node) s2 s3 {u = w}
              (λ _. setup_digital_sensor-Claims node s2 s3 {u = w}) second)
            (on-Claims (is_analog_sensor node) analog (used_pins node) s3 s' {u = u}
              (λ _. setup_analog_sensor-Claims node s3 s' {u = u}) third)))

  setup_nodes-Claims :
      (nodes : List Node) (s s' : Building) {u : Unit {0}}
      → setup_nodes random config flow_id nodes s ≡ (ok u, s')
      → Claims (pins_of_all nodes) s s'
  unfolding setup_nodes
  setup_nodes-Claims [] s s' h = Claims-none s s' (ground arith)
  setup_nodes-Claims (n ∷ ns) s s' {u} h =
      let (v, s1, first, rest) =
        >>-ok (setup_node random config flow_id n) (setup_nodes random config flow_id ns) s s' h in
      Claims-then (setup_node-Claims n s s1 {u = v} first)
        (setup_nodes-Claims ns s1 s' {u = u} rest)

  -- In a setup that the builder accepts no two of the pins that the nodes take are the same, each
  -- is a pin of the board, and none is reserved.
  pub build_setup_from_nodes-exclusive :
      (nodes : List Node) (setup : SetupObject)
      → build_setup_from_nodes random config flow_id nodes ≡ ok setup
      → NoneSame (pins_of_all nodes) × All IsUsable (pins_of_all nodes)
  unfolding build_setup_from_nodes start
  build_setup_from_nodes-exclusive nodes setup h =
      let (s, ran, same) =
        answered random config flow_id (setup_nodes random config flow_id nodes (start config)) h in
      let claims = setup_nodes-Claims nodes (start config) s {u = tt} ran in
      (subst NoneSame claims.taken (claims.apart tt), claims.usable)
