-- ===== src/Flows/Values.antt =====
-- How the flow builder reads the variables of a node and its own settings, from
-- flow-builder.service.ts.
use nexusflow_backend.Prelude.{
  Bool, true, false, not, ◌||◌, ◌&&◌, Option, none, some, Number, whole, is_finite, less_eq, trunc,
  clamp, ◌===◌, to_lower_case, is_empty, if◌then◌else◌, same,
}
use nexusflow_backend.Value.{Value, undefined, null, boolean, number, text, array, object}
use nexusflow_backend.Platform.{Platform}

-- The settings that the constructor reads.
pub record BuilderConfig : Type 0 where
  pub min_interval_ms : Number
  pub max_interval_ms : Number
  pub default_gpio_interval_ms : Number
  pub default_gpio_output_interval_ms : Number
  pub default_sensor_interval_ms : Number
  pub default_pir_interval_ms : Number

abbrev finite_only : Number → Option Number
finite_only n = if is_finite n then some n else none

module _ ⦃p : Platform⦄ where
  -- `toOptionalNumber`
  unfoldable pub to_optional_number : Value → Option Number
  to_optional_number (number n) = finite_only n
  to_optional_number (text s) = if is_empty s then none else finite_only (p.parse_number s)
  to_optional_number value = none

  -- The part of `readConfigNumber` and `resolveInterval` behind the conversion.
  abbrev pub positive_whole : Number → Option Number
  positive_whole n =
      let whole_part = trunc n in
      if not (is_finite whole_part) || less_eq whole_part (whole 0) then none else some whole_part

  abbrev pub fitted : BuilderConfig → Number → Option Number → Number
  fitted config fallback none = fallback
  fitted config fallback (some n) = clamp config.min_interval_ms config.max_interval_ms n

  -- `resolveInterval`
  unfoldable pub resolve_interval : BuilderConfig → Value → Number → Number
  unfolding to_optional_number
  resolve_interval config value fallback = elim (to_optional_number value) [
    | none ↦ fallback
    | some parsed ↦ fitted config fallback (positive_whole parsed)
  ]

  abbrev configured : Number → Number → Number
  configured parsed fallback =
      if not (is_finite parsed) || less_eq parsed (whole 0) then fallback else trunc parsed

  -- `readConfigNumber`
  unfoldable pub read_config_number : Value → Number → Number
  read_config_number (number n) fallback = configured n fallback
  read_config_number (text s) fallback =
      if is_empty s then fallback else configured (p.parse_number s) fallback
  read_config_number value fallback = fallback

  -- `toBoolean`
  unfoldable pub to_boolean : Value → Bool
  to_boolean (boolean b) = b
  to_boolean (text s) = to_lower_case s === "true"
  to_boolean undefined = false
  to_boolean null = false
  to_boolean (number n) = same n n && not (same n (whole 0))
  to_boolean (array vs) = true
  to_boolean (object fs) = true
