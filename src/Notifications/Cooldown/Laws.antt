-- ===== src/Notifications/Cooldown/Laws.antt =====
-- When a rule may fire again.
use nexusflow_backend.Prelude.{
  ℕ, zero, suc, ◌+◌, ◌*◌, ◌^◌, min, ◌≤◌, ◌<◌, ◌≡◌, ◌≢◌, true, false, String, none, some, arith,
  Option-cases, inl, inr,
}
use native.Mathlib.Nat.{pow-suc}
use text.Mathlib.TextLemmas.{append_cancel_left}
use nexusflow_backend.Platform.{Platform}
use nexusflow_backend.Notifications.Schemas.{Backoff, Triggers}
use nexusflow_backend.Notifications.Cooldown.{
  TriggerConfig, is_gas_sensor, trigger_key, gas_key, should_trigger_rule, should_trigger_gas_rule,
  should_trigger_plain_rule, reset_rule_trigger_state,
}

module _ ⦃p : Platform⦄ (config : TriggerConfig) where
  -- Having fired at a time other than 0, a rule that is no gas rule does not fire before the
  -- cooldown is over on the clock of the readings, while its entry lives in the cache, and
  -- nothing is written then.
  pub plain_rule_waits :
      (key module_id : String) (wall wall' now now' : ℕ) (c : Triggers p)
      → is_gas_sensor module_id ≡ false
      → now ≢ 0
      → wall' < wall + config.rule_cooldown_ms
      → now' < now + config.rule_cooldown_ms
      → (should_trigger_rule config wall key module_id now c).0 ≡ true
      → should_trigger_rule config wall' key module_id now'
          (should_trigger_rule config wall key module_id now c).1
        ≡ (false, (should_trigger_rule config wall key module_id now c).1)
  unfolding should_trigger_rule should_trigger_plain_rule
  plain_rule_waits key module_id wall wall' now now' c plain started live early fired =
      ground (
        arith,
        p.get-set_live wall wall' config.rule_cooldown_ms (trigger_key key) now c.times live,
      )

  -- After a reset a rule fires at the next match, whatever the times.
  reset_fires :
      (key module_id : String) (wall now : ℕ) (c : Triggers p)
      → (should_trigger_rule config wall key module_id now
          (reset_rule_trigger_state key module_id c)).0
        ≡ true
  unfolding should_trigger_rule should_trigger_plain_rule should_trigger_gas_rule
      reset_rule_trigger_state
  reset_fires key module_id wall now c = ground (
    arith,
    p.get-del_self wall (gas_key key) c.backoffs,
    p.get-del_self wall (trigger_key key) c.times,
  )

  -- A run of fires of a gas rule, each while the entry of the one before lives: the count of fires
  -- after the first, the time of the last on both clocks, and the cache that it left.
  pub data GasRun (key : String) : ℕ → ℕ → ℕ → Triggers p → Type 0 where
    first :
        (wall now : ℕ) (c : Triggers p)
        → p.cache_get wall (gas_key key) c.backoffs ≡ none
        → GasRun key zero wall now (should_trigger_gas_rule config wall key now c).1
    again :
        {k wall now : ℕ} {c : Triggers p} (wall' now' : ℕ)
        → GasRun key k wall now c
        → wall' < wall + config.gas_rule_max_backoff_ms
        → (should_trigger_gas_rule config wall' key now' c).0 ≡ true
        → GasRun key (suc k) wall' now' (should_trigger_gas_rule config wall' key now' c).1

  abbrev pub delay_after : ℕ → ℕ
  delay_after k = min (config.rule_cooldown_ms * 2 ^ k) config.gas_rule_max_backoff_ms

  abbrev state_of : (last delay : ℕ) → Backoff
  state_of last delay = record { last_triggered_at = last; next_delay = delay }

  -- The cache holds the entry, while it lives.
  abbrev pub Stored : String → ℕ → Backoff → Triggers p → Type 0
  Stored key wall state c =
      (wall' : ℕ)
      → wall' < wall + config.gas_rule_max_backoff_ms
      → p.cache_get wall' (gas_key key) c.backoffs ≡ some state

  Stored-first :
      (key : String) (wall now : ℕ) (c : Triggers p)
      → p.cache_get wall (gas_key key) c.backoffs ≡ none
      → Stored key wall
          (state_of now config.rule_cooldown_ms)
          (should_trigger_gas_rule config wall key now c).1
  unfolding should_trigger_gas_rule
  Stored-first key wall now c missing wall' live = ground (
    arith,
    p.get-set_live wall wall' config.gas_rule_max_backoff_ms (gas_key key)
        (state_of now config.rule_cooldown_ms) c.backoffs live,
  )

  Stored-again :
      (key : String) (wall now last delay : ℕ) (c : Triggers p)
      → p.cache_get wall (gas_key key) c.backoffs ≡ some (state_of last delay)
      → (should_trigger_gas_rule config wall key now c).0 ≡ true
      → Stored key wall
          (state_of now (min (delay * 2) config.gas_rule_max_backoff_ms))
          (should_trigger_gas_rule config wall key now c).1
  unfolding should_trigger_gas_rule
  Stored-again key wall now last delay c found fired wall' live = ground (
    arith,
    p.get-set_live wall wall' config.gas_rule_max_backoff_ms (gas_key key)
        (state_of now (min (delay * 2) config.gas_rule_max_backoff_ms)) c.backoffs live,
  )

  delay-suc : (k : ℕ) → min (delay_after k * 2) config.gas_rule_max_backoff_ms ≡ delay_after (suc k)
  delay-suc k = rw pow-suc (omega arith)

  delay-zero :
      config.rule_cooldown_ms ≤ config.gas_rule_max_backoff_ms
      → config.rule_cooldown_ms ≡ delay_after zero
  delay-zero h = omega arith

  run-Stored :
      {key : String} {k wall now : ℕ} {c : Triggers p}
      → config.rule_cooldown_ms ≤ config.gas_rule_max_backoff_ms
      → GasRun key k wall now c
      → Stored key wall (state_of now (delay_after k)) c
  run-Stored {key} h (first wall now c missing) wall' live =
      rw (← delay-zero h) (Stored-first key wall now c missing wall' live)
  run-Stored {key} h (again {k} {wall} {now} {c} wall₁ now₁ run soon fired) wall' live =
      rw (← delay-suc k) (
        Stored-again key wall₁ now₁ now (delay_after k) c (run-Stored h run wall₁ soon) fired wall'
          live)

  -- Where the cooldown is no longer than the longest back-off: after k + 1 fires of a gas rule in
  -- a row, each within the longest back-off of the one before on the clock of the cache, the next
  -- within it is held back for the cooldown doubled k times, at most for the longest back-off,
  -- with nothing written, and fires from then on.
  pub gas_rule_backs_off :
      {key : String} {k wall now : ℕ} {c : Triggers p} (wall' now' : ℕ)
      → config.rule_cooldown_ms ≤ config.gas_rule_max_backoff_ms
      → GasRun key k wall now c
      → wall' < wall + config.gas_rule_max_backoff_ms
      → (now' < now + delay_after k → should_trigger_gas_rule config wall' key now' c ≡ (false, c))
        × (now + delay_after k ≤ now' → (should_trigger_gas_rule config wall' key now' c).0 ≡ true)
  unfolding should_trigger_gas_rule
  gas_rule_backs_off wall' now' h run live = ground (arith, run-Stored h run wall' live)

  fire_expires :
      (key : String) (wall wall' now : ℕ) (c : Triggers p)
      → 0 < config.gas_rule_max_backoff_ms
      → wall + config.gas_rule_max_backoff_ms < wall'
      → (should_trigger_gas_rule config wall key now c).0 ≡ true
      → p.cache_get wall' (gas_key key) (should_trigger_gas_rule config wall key now c).1.backoffs
        ≡ none
  unfolding should_trigger_gas_rule
  fire_expires key wall wall' now c positive late fired =
      elim (Option-cases (p.cache_get wall (gas_key key) c.backoffs)) [
        | inl missing ↦ ground (
          arith,
          p.get-set_expired wall wall' config.gas_rule_max_backoff_ms (gas_key key)
              (state_of now config.rule_cooldown_ms) c.backoffs positive late,
        )
        | inr (state, found) ↦ ground (
          arith,
          p.get-set_expired wall wall' config.gas_rule_max_backoff_ms (gas_key key)
              (state_of now (min (state.next_delay * 2) config.gas_rule_max_backoff_ms)) c.backoffs
              positive late,
        )
      ]

  missing_fires :
      (key : String) (wall now : ℕ) (c : Triggers p)
      → p.cache_get wall (gas_key key) c.backoffs ≡ none
      → (should_trigger_gas_rule config wall key now c).0 ≡ true
  unfolding should_trigger_gas_rule
  missing_fires key wall now c missing = ground arith

  run_expires :
      {key : String} {k wall now : ℕ} {c : Triggers p} (wall' : ℕ)
      → GasRun key k wall now c
      → 0 < config.gas_rule_max_backoff_ms
      → wall + config.gas_rule_max_backoff_ms < wall'
      → p.cache_get wall' (gas_key key) c.backoffs ≡ none
  run_expires {key} wall' (first wall now c missing) positive late =
      fire_expires key wall wall' now c positive late (missing_fires key wall now c missing)
  run_expires {key} wall' (again {c} wall₁ now₁ run soon fired) positive late =
      fire_expires key wall₁ wall' now₁ c positive late fired

  -- Where both clocks agree, the longest back-off is above 0 and the cooldown no longer than it:
  -- after a run of fires of a gas rule and a wait of more than the longest back-off, the next
  -- match fires and starts over. Within the longest back-off of it on the clock of the cache, the
  -- rule is held back for the plain cooldown, with nothing written, and fires from then on.
  pub gas_backoff_restarts :
      {key : String} {k now : ℕ} {c : Triggers p} (now' wall'' now'' : ℕ)
      → config.rule_cooldown_ms ≤ config.gas_rule_max_backoff_ms
      → GasRun key k now now c
      → 0 < config.gas_rule_max_backoff_ms
      → now + config.gas_rule_max_backoff_ms < now'
      → wall'' < now' + config.gas_rule_max_backoff_ms
      → let fired = should_trigger_gas_rule config now' key now' c in
        (fired.0 ≡ true)
        × (now'' < now' + config.rule_cooldown_ms
            → should_trigger_gas_rule config wall'' key now'' fired.1 ≡ (false, fired.1))
        × (now' + config.rule_cooldown_ms ≤ now''
            → (should_trigger_gas_rule config wall'' key now'' fired.1).0 ≡ true)
  gas_backoff_restarts {key} {k} {now} {c} now' wall'' now'' h run positive late live =
      let missing = run_expires now' run positive late in
      let backs_off = gas_rule_backs_off wall'' now'' h (first now' now' c missing) live in
      let once = delay-zero h in
      (
        missing_fires key now' now' c missing,
        λ early. backs_off.0 (omega arith),
        λ enough. backs_off.1 (omega arith),
      )

  ne_gas_key : (key other : String) → key ≢ other → gas_key key ≢ gas_key other
  ne_gas_key key other ne e = ne (append_cancel_left "notif:gas:" key other e)

  ne_trigger_key : (key other : String) → key ≢ other → trigger_key key ≢ trigger_key other
  ne_trigger_key key other ne e = ne (append_cancel_left "notif:trigger:" key other e)

  module _ (key other module_id : String) (wall wall' now : ℕ) (c : Triggers p)
      (ne : key ≢ other) where
    backoffs_kept :
        p.cache_get wall'
          (gas_key other)
          (should_trigger_rule config wall key module_id now c).1.backoffs
        ≡ p.cache_get wall' (gas_key other) c.backoffs
    unfolding should_trigger_rule should_trigger_plain_rule should_trigger_gas_rule
    backoffs_kept = grind (arith, p.get-set_ne, ne_gas_key key other ne)

    times_kept :
        p.cache_get wall'
          (trigger_key other)
          (should_trigger_rule config wall key module_id now c).1.times
        ≡ p.cache_get wall' (trigger_key other) c.times
    unfolding should_trigger_rule should_trigger_plain_rule should_trigger_gas_rule
    times_kept = grind (arith, p.get-set_ne, ne_trigger_key key other ne)

  same_decision :
      (key module_id : String) (wall now : ℕ) (c d : Triggers p)
      → p.cache_get wall (gas_key key) c.backoffs ≡ p.cache_get wall (gas_key key) d.backoffs
      → p.cache_get wall (trigger_key key) c.times ≡ p.cache_get wall (trigger_key key) d.times
      → (should_trigger_rule config wall key module_id now c).0
        ≡ (should_trigger_rule config wall key module_id now d).0
  unfolding should_trigger_rule should_trigger_plain_rule should_trigger_gas_rule
  same_decision key module_id wall now c d e e' = ground arith

  -- What a rule does to the cache under its key leaves the decision on any other key as it was.
  keys_independent :
      (key other module_id module_id' : String) (wall wall' now now' : ℕ) (c : Triggers p)
      → key ≢ other
      → (should_trigger_rule config wall' other module_id' now'
          (should_trigger_rule config wall key module_id now c).1).0
        ≡ (should_trigger_rule config wall' other module_id' now' c).0
  keys_independent key other module_id module_id' wall wall' now now' c ne =
      same_decision other module_id' wall' now' _ c
        (backoffs_kept key other module_id wall wall' now c ne)
        (times_kept key other module_id wall wall' now c ne)
