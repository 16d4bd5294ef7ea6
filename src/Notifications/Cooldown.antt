-- ===== src/Notifications/Cooldown.antt =====
-- How often a rule may fire, from notifications.service.ts: `shouldTriggerRule`,
-- `shouldTriggerGasRule`, `resetRuleTriggerState` and `readPositiveConfigNumber`.
pub mod Laws
use nexusflow_backend.Prelude.{
  ℕ, ◌+◌, ◌*◌, ◌/◌, ◌^◌, min, Bool, true, false, not, ◌&&◌, String, Option, none, some, Number,
  finite, pos, ltb, ◌==◌, ◌===◌, ◌⧺◌, trim, if◌then◌else◌, is_empty,
}
use nexusflow_backend.Value.{Value, undefined, null, number, text}
use nexusflow_backend.Platform.{Platform}
use nexusflow_backend.Notifications.Schemas.{Backoff, Triggers}

pub record TriggerConfig : Type 0 where
  pub rule_cooldown_ms : ℕ
  pub gas_rule_max_backoff_ms : ℕ

-- `Math.trunc(n)` of a finite positive number, or the fallback.
positive_or : ℕ → Number → ℕ
positive_or fallback (finite (pos n)) = if n == 0 then fallback else n / 2 ^ 1074
positive_or fallback n = fallback

module _ ⦃p : Platform⦄ where
  -- `readPositiveConfigNumber`; a setting is a text, a number or missing.
  unfoldable pub read_positive_config_number : Value → ℕ → ℕ
  unfolding positive_or is_empty
  read_positive_config_number (number n) fallback = positive_or fallback n
  read_positive_config_number (text s) fallback =
      if is_empty s then fallback else positive_or fallback (p.parse_number s)
  read_positive_config_number raw fallback = fallback

-- GAS_SENSOR_MODULE_ID
unfoldable pub is_gas_sensor : String → Bool
is_gas_sensor module_id = trim module_id === "MQ2-Sensor"

abbrev pub trigger_key : String → String
trigger_key cooldown_key = "notif:trigger:" ⧺ cooldown_key

abbrev pub gas_key : String → String
gas_key cooldown_key = "notif:gas:" ⧺ cooldown_key

-- `previous && now - previous < cooldown`
abbrev pub is_recent : Option ℕ → ℕ → ℕ → Bool
is_recent none now cooldown = false
is_recent (some previous) now cooldown = not (previous == 0) && ltb now (previous + cooldown)

-- `wall` is the time of the cache's own clock, `now` the time of the reading.
module _ ⦃p : Platform⦄ (config : TriggerConfig) (wall : ℕ) where
  save_backoff : String → Backoff → Triggers p → Bool × Triggers p
  save_backoff key state c = (
    true,
    record c {
      backoffs = p.cache_set wall (gas_key key) state config.gas_rule_max_backoff_ms c.backoffs;
    },
  )

  unfoldable pub should_trigger_gas_rule : String → ℕ → Triggers p → Bool × Triggers p
  unfolding save_backoff
  should_trigger_gas_rule key now c = elim (p.cache_get wall (gas_key key) c.backoffs) [
    | none ↦
        save_backoff key (record { last_triggered_at = now; next_delay = config.rule_cooldown_ms })
          c
    | some state ↦
        if ltb now (state.last_triggered_at + state.next_delay)
        then (false, c)
        else save_backoff key
            (record {
              last_triggered_at = now;
              next_delay = min (state.next_delay * 2) config.gas_rule_max_backoff_ms;
            })
            c
  ]

  unfoldable pub should_trigger_plain_rule : String → ℕ → Triggers p → Bool × Triggers p
  should_trigger_plain_rule key now c =
      if is_recent (p.cache_get wall (trigger_key key) c.times) now config.rule_cooldown_ms
      then (false, c)
      else (
        true,
        record c { times = p.cache_set wall (trigger_key key) now config.rule_cooldown_ms c.times },
      )

  unfoldable pub should_trigger_rule : String → String → ℕ → Triggers p → Bool × Triggers p
  should_trigger_rule key module_id now c =
      if is_gas_sensor module_id
      then should_trigger_gas_rule key now c
      else should_trigger_plain_rule key now c

module _ ⦃p : Platform⦄ where
  unfoldable pub reset_rule_trigger_state : String → String → Triggers p → Triggers p
  reset_rule_trigger_state key module_id c =
      if is_gas_sensor module_id
      then record c { backoffs = p.cache_del (gas_key key) c.backoffs }
      else record c { times = p.cache_del (trigger_key key) c.times }
