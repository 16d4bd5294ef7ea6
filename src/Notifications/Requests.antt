-- ===== src/Notifications/Requests.antt =====
-- Requests of other services, from notifications.service.ts: `triggerAlertFromInternal`.
pub mod Laws
use nexusflow_backend.Prelude.{
  ℕ, zero, suc, ◌+◌, Bool, true, false, not, ◌&&◌, ◌||◌, String, List, [], ◌∷◌, Option, none, some,
  Number, is_finite, ◌===◌, ◌⧺◌, trim, is_empty, get_or, if◌then◌else◌,
}
use nexusflow_backend.Value.{Value, number, text}
use nexusflow_backend.Action.{
  HttpError, not_found, internal_server_error, throw_if, Result, ok, err, Action, pure, lift,
  or_throw, reads, writes, ◌>>=◌, ◌>>◌,
}
use nexusflow_backend.Platform.{Doc, Platform}
use nexusflow_backend.Platform.Query.{find_all, find_one}
use nexusflow_backend.Notifications.Schemas.{
  AlertRule, NotificationPreference, NotificationType, alert, resolved, Store,
}
use nexusflow_backend.Notifications.Condition.{
  Bounds, operator_of, matches_operator, validate_rule_condition,
}
use nexusflow_backend.Notifications.Cooldown.{
  TriggerConfig, should_trigger_rule, reset_rule_trigger_state,
}
use nexusflow_backend.Notifications.Policy.{normalize_reading_key}
use nexusflow_backend.Notifications.Payload.{Entries, entry}
use nexusflow_backend.Notifications.Sending.{Firebase, get_flow_owner_id}
use nexusflow_backend.Notifications.Incidents.{Signal, Outcome}
use nexusflow_backend.Notifications.Alerts.{fire_alert_from_rule, resolve_incident_from_rule}
use nexusflow_backend.Notifications.Readings.{
  Counts, Reading, Verdict, build_preference_filter, counted, evaluate_rule, finite_reading,
  no_rules, notifications_enabled, process_rules, process_sensor_reading,
  resolve_preference_enabled, rule_bounds, rules_for, verdict_of,
}

-- The input of `triggerAlertFromInternal`.
pub record TriggerAlert : Type 0 where
  pub rule_id : String
  pub flow_id : String
  pub node_id : String
  pub module_id : String
  pub reading_key : String
  pub operator : String
  pub condition : Bounds
  pub value : Number
  pub event_type : NotificationType
  pub occurred_at : Option ℕ

pub record TriggerAnswer : Type 0 where
  pub triggered : Bool
  pub history_id : Option String
  pub incident_id : Option String
  pub notification_id : Option String
  pub push_sent : Bool
  pub message : Option String
  pub reason : Option String

abbrev pub not_triggered : Option String → Option String → TriggerAnswer
not_triggered history_id reason = record {
  triggered = false;
  history_id = history_id;
  incident_id = none;
  notification_id = none;
  push_sent = false;
  message = none;
  reason = reason;
}

-- The answer for an outcome, with the messages for a push that was sent or not.
unfoldable pub answer_for : String → String → Outcome → TriggerAnswer
answer_for sent_message unsent_message fired =
    if fired.suppressed then not_triggered (some fired.history_id) fired.reason else record {
      triggered = true;
      history_id = some fired.history_id;
      incident_id = some fired.incident_id;
      notification_id = some fired.notification_id;
      push_sent = fired.push_sent;
      message = some (if fired.push_sent then sent_message else unsent_message);
      reason = none;
    }

abbrev pub condition_met : TriggerAlert → Bool
condition_met input = elim (operator_of input.operator) [
  | none ↦ false
  | some op ↦ matches_operator op input.value input.condition
]

module _ ⦃p : Platform⦄ (firebase : Firebase) (wall : ℕ) where
  -- The enabled rule that the request names.
  abbrev pub named_rule : TriggerAlert → Doc AlertRule → Bool
  named_rule input d =
      d.id === input.rule_id
      && d.body.flow_id === input.flow_id
      && d.body.node_id === input.node_id
      && d.body.module_id === input.module_id
      && d.body.reading_key === normalize_reading_key input.reading_key
      && d.body.enabled

  abbrev pub signal_for : TriggerAlert → Doc AlertRule → String → Signal
  signal_for input d source = record {
    flow_id = input.flow_id;
    rule = d;
    value = input.value;
    occurred_at = get_or input.occurred_at wall;
    metadata = ("source", text source) ∷ [];
  }

  -- A request for a resolution, and one for an alert.
  abbrev pub answer_event :
      NotificationType → TriggerAlert → Doc AlertRule → Action (Store p) TriggerAnswer
  answer_event resolved input d = do
    outcome ← resolve_incident_from_rule firebase wall (signal_for input d "internal-resolved")
    pure (
        answer_for "Resolution notification sent."
          "Resolution recorded but no active push tokens were available." outcome)
  answer_event alert input d =
      if not (condition_met input)
      then pure (not_triggered none (some "Reading does not satisfy the provided rule condition."))
      else (do
        fired ← fire_alert_from_rule firebase wall (signal_for input d "internal-trigger")
        pure (
            answer_for "Alert fired and push notification sent."
              "Alert fired but no active push tokens were available." fired))

  abbrev pub answer_if : Bool → Action (Store p) TriggerAnswer → Action (Store p) TriggerAnswer
  answer_if false answer =
      pure (not_triggered none (some "Notifications are disabled for this flow via preferences."))
  answer_if true answer = answer

  -- `triggerAlertFromInternal`
  unfoldable pub trigger_alert_from_internal : TriggerAlert → Action (Store p) TriggerAnswer
  trigger_alert_from_internal input = do
    throw_if (not (p.is_object_id input.rule_id)) (internal_server_error "Internal server error")
    found ← reads (λ s. find_one (named_rule input) s.rules)
    rule ← or_throw (not_found "Rule not found.") found
    lift (validate_rule_condition input.operator input.condition)
    owner ← reads (λ s. get_flow_owner_id input.flow_id s)
    user_id ← or_throw (not_found "Flow not found.") owner
    enabled ← reads (λ s. notifications_enabled input.flow_id user_id s)
    answer_if enabled (answer_event input.event_type input rule)
