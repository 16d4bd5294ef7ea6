-- ===== src/Flows/Setup/Claims.antt =====
-- The pins that the nodes of a flow claim, one after the other.
use nexusflow_backend.Prelude.{
  ℕ, true, false, String, List, [], ◌∷◌, ◌++◌, Option, none, some, ◌≡◌, ap, sym, subst, ◌∙◌, arith,
  All, All-append, any, Number, same, if◌then◌else◌,
}
use mathlib.Core.List.{append_assoc, append-nil}
use nexusflow_backend.Value.{Value}
use nexusflow_backend.Action.{ok}
use nexusflow_backend.Platform.{Platform}
use nexusflow_backend.Flows.Schemas.{Node, variable}
use nexusflow_backend.Flows.Registry.{has_pin}
use nexusflow_backend.Flows.Values.{to_optional_number, to_boolean}
use nexusflow_backend.Flows.Setup.State.{Building, is_kind, ensure_integer_pin, assert_allowed_pin}
use nexusflow_backend.Flows.Setup.Sensors.{only_if}
use nexusflow_backend.Flows.Setup.Build.{is_gpio_node, is_digital_sensor, is_analog_sensor}
use nexusflow_backend.Flows.Setup.Pins.{NoneSame, NoneSame-concat, IsUsable}

abbrev pub one : Option Number → List Number
one none = []
one (some pin) = pin ∷ []

-- From one state to another, these pins were taken.
pub record Claims (pins : List Number) (s s' : Building) : Type 0 where
  pub taken : s'.taken_pins ≡ s.taken_pins ++ pins
  pub apart : NoneSame s.taken_pins → NoneSame s'.taken_pins
  pub usable : All IsUsable pins

pub Claims-none : (s s' : Building) → s'.taken_pins ≡ s.taken_pins → Claims [] s s'
Claims-none s s' e = record {
  taken = e ∙ sym (append-nil s.taken_pins);
  apart = λ h. subst NoneSame (sym e) h;
  usable = tt;
}

pub Claims-then :
    {ps qs : List Number} {s s1 s' : Building}
    → Claims ps s s1
    → Claims qs s1 s'
    → Claims (ps ++ qs) s s'
Claims-then {ps} {qs} {s} {s1} {s'} h k = record {
  taken = k.taken ∙ ap (λ ts. ts ++ qs) h.taken ∙ append_assoc s.taken_pins ps qs;
  apart = λ a. k.apart (h.apart a);
  usable = All-append IsUsable ps qs h.usable k.usable;
}

-- What comes after takes nothing.
pub Claims-kept :
    {ps : List Number} {s s1 s' : Building}
    → Claims ps s s1
    → s'.taken_pins ≡ s1.taken_pins
    → Claims ps s s'
Claims-kept h e = record {
  taken = e ∙ h.taken;
  apart = λ a. subst NoneSame (sym e) (h.apart a);
  usable = h.usable;
}

module _ ⦃p : Platform⦄ where
  -- The pin that a variable of a node names.
  abbrev pub pin_of : String → Node → Option Number
  pin_of name node = to_optional_number (variable name node)

  -- The pins that a node names, by its kind.
  abbrev pub pin_number : Node → List Number
  pin_number node = one (pin_of "pinNumber" node)

  abbrev pub gpio_pins : Node → List Number
  gpio_pins node = if is_gpio_node node then pin_number node else []

  abbrev pub ultra_pins : Node → List Number
  ultra_pins node =
      if is_kind "Ultrasonic-Sensor" node
      then one (pin_of "triggerPin" node) ++ one (pin_of "echoPin" node)
      else one (pin_of "pinNumber" node)

  abbrev pub digital_pins : Node → List Number
  digital_pins node = if is_digital_sensor node then ultra_pins node else []

  abbrev pub used_pins : Node → List Number
  used_pins node =
      one (only_if (to_boolean (variable "isDigital" node)) (pin_of "digitalPin" node))
      ++ one (only_if (to_boolean (variable "isAnalog" node)) (pin_of "analogPin" node))

  abbrev pub both_pins : Node → List Number
  both_pins node = if is_analog_sensor node then used_pins node else []

  abbrev pub pins_of : Node → List Number
  pins_of node = gpio_pins node ++ (digital_pins node ++ both_pins node)

  abbrev pub pins_of_all : List Node → List Number
  pins_of_all [] = []
  pins_of_all (n ∷ ns) = pins_of n ++ pins_of_all ns

  pub ensured :
      (node : Node) (value : Value) (field_name code : String) (o : Option Number)
      → ensure_integer_pin node value field_name code ≡ ok o
      → o ≡ to_optional_number value
  unfolding ensure_integer_pin
  ensured node value field_name code o h = ground arith

  pub asserted :
      (node : Node) (pin : Number) (allowed : List ℕ) (field_name code : String) (s s' : Building)
      {u : Unit {0}}
      → assert_allowed_pin node pin allowed field_name code s ≡ (ok u, s')
      → (has_pin allowed pin ≡ true)
        × (any (same pin) s.taken_pins ≡ false)
        × (s'.taken_pins ≡ s.taken_pins ++ pin ∷ [])
  unfolding assert_allowed_pin
  asserted node pin allowed field_name code s s' h = ground arith

  pub Claims-assert :
      (node : Node) (pin : Number) (allowed : List ℕ) (field_name code : String) (s s' : Building)
      {u : Unit {0}}
      → (has_pin allowed pin ≡ true → IsUsable pin)
      → assert_allowed_pin node pin allowed field_name code s ≡ (ok u, s')
      → Claims (pin ∷ []) s s'
  Claims-assert node pin allowed field_name code s s' {u} fits h =
      let (has, new, taken) = asserted node pin allowed field_name code s s' {u = u} h in
      record {
        taken = taken;
        apart = λ a. subst NoneSame (sym taken) (NoneSame-concat s.taken_pins pin a new);
        usable = (fits has, tt);
      }
