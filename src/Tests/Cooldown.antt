-- ===== src/Tests/Cooldown.antt =====
-- Cooldowns of a rule at concrete times.
use nexusflow_backend.Prelude.{zero, ◌+◌, ◌≤◌, ◌<◌, ◌≡◌, refl, true, false, arith, trim}
use nexusflow_backend.Platform.Memory.{memory}
use nexusflow_backend.Notifications.Schemas.{Triggers}
use nexusflow_backend.Notifications.Cooldown.{
  is_gas_sensor, should_trigger_rule, should_trigger_gas_rule, should_trigger_plain_rule,
}
use nexusflow_backend.Notifications.Cooldown.Laws.{
  plain_rule_waits, GasRun, first, delay_after, gas_rule_backs_off, gas_backoff_restarts,
}
use nexusflow_backend.Tests.Samples.{config, no_triggers}

is_plain : is_gas_sensor "DHT" ≡ false
unfolding is_gas_sensor trim
is_plain = refl

abbrev fired_once : Triggers memory
fired_once = (should_trigger_rule config 0 "k" "DHT" 1000 no_triggers).1

fires_once : (should_trigger_rule config 0 "k" "DHT" 1000 no_triggers).0 ≡ true
unfolding should_trigger_rule should_trigger_plain_rule is_gas_sensor trim
fires_once = refl

plain_rule_waits_example :
    should_trigger_rule config 1 "k" "DHT" 2000 fired_once ≡ (false, fired_once)
plain_rule_waits_example =
    plain_rule_waits config "k" "DHT" 0 1 1000 2000 no_triggers is_plain (λ e. absurd (omega arith))
      (omega arith) (omega arith) fires_once

abbrev gas_fired : Triggers memory
gas_fired = (should_trigger_gas_rule config 1000 "k" 1000 no_triggers).1

run : GasRun config "k" zero 1000 1000 gas_fired
run = first 1000 1000 no_triggers refl

gas_rule_backs_off_example :
    (2000 < 1000 + delay_after config zero
      → should_trigger_gas_rule config 2000 "k" 2000 gas_fired ≡ (false, gas_fired))
    × (1000 + delay_after config zero ≤ 2000
        → (should_trigger_gas_rule config 2000 "k" 2000 gas_fired).0 ≡ true)
gas_rule_backs_off_example = gas_rule_backs_off config 2000 2000 (omega arith) run (omega arith)

gas_backoff_restarts_example :
    let fired = should_trigger_gas_rule config 700000 "k" 700000 gas_fired in
    (fired.0 ≡ true)
    × (700001 < 700000 + config.rule_cooldown_ms
        → should_trigger_gas_rule config 700001 "k" 700001 fired.1 ≡ (false, fired.1))
    × (700000 + config.rule_cooldown_ms ≤ 700001
        → (should_trigger_gas_rule config 700001 "k" 700001 fired.1).0 ≡ true)
gas_backoff_restarts_example =
    gas_backoff_restarts config 700000 700001 700001 (omega arith) run (omega arith) (omega arith)
      (omega arith)
