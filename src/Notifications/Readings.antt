-- ===== src/Notifications/Readings.antt =====
-- The readings that devices send, from notifications.service.ts: `processSensorReading` and the
-- preference of a flow.
pub mod Tally
pub mod Laws
use nexusflow_backend.Prelude.{
  ℕ, zero, suc, ◌+◌, Bool, true, false, not, ◌&&◌, ◌||◌, String, List, [], ◌∷◌, Option, none, some,
  Number, is_finite, ◌===◌, ◌⧺◌, trim, is_empty, get_or, if◌then◌else◌,
}
use nexusflow_backend.Value.{Value, number, text}
use nexusflow_backend.Action.{
  HttpError, not_found, internal_server_error, throw_if, Result, ok, err, Action, pure, lift,
  or_throw, reads, writes, ◌>>=◌, ◌>>◌,
}
use nexusflow_backend.Platform.{Doc, Platform}
use nexusflow_backend.Platform.Query.{find_all, find_one}
use nexusflow_backend.Notifications.Schemas.{
  AlertRule, NotificationPreference, NotificationType, alert, resolved, Store,
}
use nexusflow_backend.Notifications.Condition.{
  Bounds, operator_of, matches_operator, validate_rule_condition,
}
use nexusflow_backend.Notifications.Cooldown.{
  TriggerConfig, should_trigger_rule, reset_rule_trigger_state,
}
use nexusflow_backend.Notifications.Policy.{normalize_reading_key}
use nexusflow_backend.Notifications.Payload.{Entries, entry}
use nexusflow_backend.Notifications.Sending.{Firebase, get_flow_owner_id}
use nexusflow_backend.Notifications.Incidents.{Signal, Outcome}
use nexusflow_backend.Notifications.Alerts.{fire_alert_from_rule, resolve_incident_from_rule}

-- `resolvePreferenceEnabled`: a missing preference means that notifications are on.
abbrev pub resolve_preference_enabled : Option (Doc NotificationPreference) → Bool
resolve_preference_enabled none = true
resolve_preference_enabled (some d) = d.body.notifications_enabled

-- `buildPreferenceFilter`: the flow under its new or its old name.
abbrev pub build_preference_filter : String → String → Doc NotificationPreference → Bool
build_preference_filter flow_id user_id d =
    d.body.user_id === user_id
    && (d.body.flow_id === flow_id
        || (elim d.body.project_id [ none ↦ false | some id ↦ id === flow_id ]))

-- The input of `processSensorReading`.
pub record Reading : Type 0 where
  pub flow_id : String
  pub node_id : String
  pub readings : Entries Value
  pub occurred_at : Option ℕ
  pub metadata : Entries Value

pub record Counts : Type 0 where
  pub evaluated_rules : ℕ
  pub triggered_rules : ℕ

abbrev pub no_rules : Counts
no_rules = record { evaluated_rules = 0; triggered_rules = 0 }

-- What a reading came to for one rule.
pub data Verdict : Type 0 where
  skipped evaluated triggered : Verdict

abbrev pub counted : Verdict → Counts → Counts
counted skipped c = c
counted evaluated c = record c { evaluated_rules = c.evaluated_rules + 1 }
counted triggered c = record {
  evaluated_rules = c.evaluated_rules + 1;
  triggered_rules = c.triggered_rules + 1;
}

abbrev pub verdict_of : Outcome → Verdict
verdict_of fired = if fired.suppressed then evaluated else triggered

-- A reading that is a finite number.
abbrev pub finite_reading : Option Value → Option Number
finite_reading (some (number n)) = if is_finite n then some n else none
finite_reading v = none

abbrev pub rule_bounds : AlertRule → Bounds
rule_bounds rule = record { threshold = rule.threshold; min = rule.min; max = rule.max }

module _ ⦃p : Platform⦄ where
  -- The preference of the flow is on.
  unfoldable pub notifications_enabled : String → String → Store p → Bool
  notifications_enabled flow_id user_id s =
      resolve_preference_enabled (find_one (build_preference_filter flow_id user_id) s.preferences)

  -- The enabled rules of the node.
  unfoldable pub rules_for : Reading → Store p → List (Doc AlertRule)
  rules_for reading s =
      find_all
        (λ d.
          d.body.flow_id === reading.flow_id
          && d.body.node_id === trim reading.node_id
          && d.body.enabled)
        s.rules

  -- `wall` is the time of day, also that of the cache.
  module _ (firebase : Firebase) (config : TriggerConfig) (wall : ℕ) where
    -- A rule whose key in the readings has a finite value.
    unfoldable pub evaluate_rule : Reading → ℕ → Doc AlertRule → Number → Action (Store p) Verdict
    evaluate_rule reading occurred_at d value s =
        let key = reading.flow_id ⧺ ":" ⧺ d.id in
        let (fires, triggers) =
          should_trigger_rule config wall key d.body.module_id occurred_at s.triggers in
        if not (matches_operator d.body.operator value (rule_bounds d.body))
        then (
          ok evaluated,
          record s { triggers = reset_rule_trigger_state key d.body.module_id s.triggers },
        )
        else if not fires
        then (ok evaluated, record s { triggers = triggers })
        else (do
          fired ← fire_alert_from_rule firebase wall (record {
            flow_id = reading.flow_id;
            rule = d;
            value = value;
            occurred_at = occurred_at;
            metadata = reading.metadata;
          })
          pure (verdict_of fired))
            (record s { triggers = triggers })

    -- The loop of `processSensorReading` over the rules.
    unfoldable pub process_rules :
        Reading → ℕ → List (Doc AlertRule) → Counts → Action (Store p) Counts
    process_rules reading occurred_at [] c = pure c
    process_rules reading occurred_at (d ∷ ds) c =
        elim (finite_reading (entry (normalize_reading_key d.body.reading_key) reading.readings)) [
          | none ↦ process_rules reading occurred_at ds c
          | some value ↦ do
            verdict ← evaluate_rule reading occurred_at d value
            process_rules reading occurred_at ds (counted verdict c)
        ]

    -- `processSensorReading`
    unfoldable pub process_sensor_reading : Reading → Action (Store p) Counts
    process_sensor_reading reading s =
        if not (p.is_object_id reading.flow_id) || is_empty (trim reading.node_id)
        then (ok no_rules, s)
        else elim (get_flow_owner_id reading.flow_id s) [
          | none ↦ (ok no_rules, s)
          | some user_id ↦
              if not (notifications_enabled reading.flow_id user_id s)
              then (ok no_rules, s)
              else process_rules reading (get_or reading.occurred_at wall) (rules_for reading s)
                  no_rules s
        ]
