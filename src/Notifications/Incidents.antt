-- ===== src/Notifications/Incidents.antt =====
-- Incidents, from notifications.service.ts: what identifies one, what alerts and resolutions write
-- to it and say about it, and the wait between its notifications.
use nexusflow_backend.Prelude.{
  ℕ, ◌+◌, ◌*◌, ◌-◌, Bool, true, false, not, ◌&&◌, ◌||◌, String, Option, none, some, ltb, ◌==◌,
  ◌===◌, is_some, get_or, if◌then◌else◌, Number, whole,
}
use nexusflow_backend.Value.{Value}
use nexusflow_backend.Platform.{Doc}
use nexusflow_backend.Platform.Query.{id_less}
use nexusflow_backend.Notifications.Schemas.{
  Severity, info, NotificationType, resolved, AlertRule, Incident,
}
use nexusflow_backend.Notifications.Payload.{
  Entries, Notice, build_default_resolved_title, default_resolved_body,
}
use nexusflow_backend.Notifications.Policy.{normalize_reading_key}

-- What `findOpenIncident` looks for.
pub record Subject : Type 0 where
  pub user_id : String
  pub flow_id : String
  pub device_id : String
  pub rule_id : String
  pub node_id : String
  pub module_id : String
  pub reading_key : String

unfoldable pub is_about : Subject → Incident → Bool
is_about k i =
    i.user_id === k.user_id
    && i.flow_id === k.flow_id
    && i.device_id === k.device_id
    && i.rule_id === k.rule_id
    && i.node_id === k.node_id
    && i.module_id === k.module_id
    && i.reading_key === k.reading_key

abbrev pub is_open_about : Subject → Doc Incident → Bool
is_open_about k d = is_about k d.body && not (is_some d.body.closed_at)

-- `{ opened_at: -1, _id: -1 }`
abbrev pub incident_before : Doc Incident → Doc Incident → Bool
incident_before a b =
    ltb b.body.opened_at a.body.opened_at
    || a.body.opened_at == b.body.opened_at && id_less b.id a.id

-- `shouldSendIncidentNotification`: the wait between two notifications of one incident.
abbrev pub base_cooldown : ℕ
base_cooldown = 5 * 60 * 1000

abbrev pub cooldown_of : Incident → ℕ
cooldown_of i = if is_some i.user_acknowledged_at then base_cooldown * 3 else base_cooldown

unfoldable pub should_send_incident_notification : Option (Doc Incident) → ℕ → Bool
should_send_incident_notification none occurred_at = true
should_send_incident_notification (some d) occurred_at = not (
    ltb (occurred_at - get_or d.body.last_notification_sent_at d.body.opened_at)
      (cooldown_of d.body))

-- What a rule is fired or resolved with.
pub record Signal : Type 0 where
  pub flow_id : String
  pub rule : Doc AlertRule
  pub value : Number
  pub occurred_at : ℕ
  pub metadata : Entries Value

pub record Outcome : Type 0 where
  pub history_id : String
  pub incident_id : String
  pub notification_id : String
  pub push_sent : Bool
  pub suppressed : Bool
  pub reason : Option String

abbrev pub suppressed_for : String → String → Outcome
suppressed_for incident_id reason = record {
  history_id = incident_id;
  incident_id = incident_id;
  notification_id = "";
  push_sent = false;
  suppressed = true;
  reason = some reason;
}

abbrev pub subject_of : String → String → Signal → Subject
subject_of user_id device_id signal = record {
  user_id = user_id;
  flow_id = signal.flow_id;
  device_id = device_id;
  rule_id = signal.rule.id;
  node_id = signal.rule.body.node_id;
  module_id = signal.rule.body.module_id;
  reading_key = normalize_reading_key signal.rule.body.reading_key;
}

abbrev pub new_incident : Subject → Signal → Incident
new_incident k signal = record {
  user_id = k.user_id;
  flow_id = k.flow_id;
  device_id = k.device_id;
  rule_id = k.rule_id;
  node_id = k.node_id;
  module_id = k.module_id;
  reading_key = k.reading_key;
  opened_at = signal.occurred_at;
  closed_at = none;
  user_acknowledged_at = none;
  last_notification_sent_at = some signal.occurred_at;
  notification_count = 1;
  severity = signal.rule.body.severity;
}

-- What `updateIncidentForAlert` writes.
abbrev pub alerted : ℕ → Severity → Incident → Incident
alerted occurred_at severity i = record i {
  last_notification_sent_at = some occurred_at;
  notification_count = i.notification_count + 1;
  severity = severity;
}

-- What `resolveIncidentFromRule` writes.
abbrev pub closed : ℕ → Incident → Incident
closed occurred_at i = record i {
  closed_at = some occurred_at;
  last_notification_sent_at = some occurred_at;
  notification_count = i.notification_count + 1;
}

module _ (k : Subject) (signal : Signal) (incident_id : String) where
  abbrev pub notice : NotificationType → Severity → String → String → Number → Notice
  notice type severity title body value = record {
    type = type;
    notification_id = "";
    incident_id = incident_id;
    user_id = k.user_id;
    device_id = k.device_id;
    rule_id = k.rule_id;
    flow_id = k.flow_id;
    node_id = k.node_id;
    module_id = k.module_id;
    reading_key = k.reading_key;
    severity = severity;
    title = title;
    body = body;
    operator = signal.rule.body.operator;
    value = value;
    threshold = signal.rule.body.threshold;
    min = signal.rule.body.min;
    max = signal.rule.body.max;
    occurred_at = signal.occurred_at;
    metadata = signal.metadata;
  }

  abbrev pub resolved_notice : Notice
  resolved_notice =
      notice resolved info (build_default_resolved_title signal.rule.body) default_resolved_body
        (whole 0)
