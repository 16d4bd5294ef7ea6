-- ===== src/Notifications/Payload.antt =====
-- The texts and the data of a notification, from notifications.service.ts:
-- `buildNotificationPayload`, `normalizeDataPayload`, the push payload of a rule, the default
-- titles and bodies, and `resolveNotificationTtl`.
use nexusflow_backend.Prelude.{
  ℕ, ◌*◌, String, List, [], ◌∷◌, Option, none, some, Number, trim, ◌===◌, ◌⧺◌, if◌then◌else◌,
}
use nexusflow_backend.Value.{Value, undefined, null, number, text, object, property, show_value}
use nexusflow_backend.Platform.{Platform}
use nexusflow_backend.Notifications.Schemas.{
  Severity, critical, warning, info, Operator, AlertRule, RuleAction, NotificationType, alert,
  resolved,
}
use nexusflow_backend.Notifications.Condition.{symbol, is_range}

-- The entries of an object, in order of insertion.
abbrev pub Entries : Type 0 → Type 0
Entries V = List (String × V)

module _ {V : Type 0} where
  -- `object[key] = value`
  unfoldable pub put_entry : String → V → Entries V → Entries V
  put_entry key v [] = (key, v) ∷ []
  put_entry key v ((k, w) ∷ rest) =
      if k === key then (key, v) ∷ rest else (k, w) ∷ put_entry key v rest

  -- `{ ...target, ...entries }`
  unfoldable pub spread : Entries V → Entries V → Entries V
  unfolding put_entry
  spread target [] = target
  spread target ((k, v) ∷ rest) = spread (put_entry k v target) rest

  pub entry : String → Entries V → Option V
  entry key [] = none
  entry key ((k, v) ∷ rest) = if k === key then some v else entry key rest

module _ ⦃p : Platform⦄ where
  -- `normalizeDataPayload`
  unfoldable pub normalize_data_payload : Entries Value → Entries String
  normalize_data_payload [] = []
  normalize_data_payload ((k, undefined) ∷ rest) = normalize_data_payload rest
  normalize_data_payload ((k, null) ∷ rest) = normalize_data_payload rest
  normalize_data_payload ((k, v) ∷ rest) =
      (k, show_value p.show_number v) ∷ normalize_data_payload rest

abbrev pub severity_name : Severity → String
severity_name critical = "critical"
severity_name warning = "warning"
severity_name info = "info"

abbrev pub type_name : NotificationType → String
type_name alert = "alert"
type_name resolved = "resolved"

-- What a notification says: the input of `buildNotificationPayload`.
pub record Notice : Type 0 where
  pub type : NotificationType
  pub notification_id : String
  pub incident_id : String
  pub user_id : String
  pub device_id : String
  pub rule_id : String
  pub flow_id : String
  pub node_id : String
  pub module_id : String
  pub reading_key : String
  pub severity : Severity
  pub title : String
  pub body : String
  pub operator : Operator
  pub value : Number
  pub threshold : Option Number
  pub min : Option Number
  pub max : Option Number
  pub occurred_at : ℕ
  pub metadata : Entries Value

-- `value ?? ''`
abbrev or_blank : Option Number → Value
or_blank none = text ""
or_blank (some n) = number n

module _ ⦃p : Platform⦄ where
  -- The fields of a notification, before its metadata.
  abbrev pub notice_fields : Notice → Entries Value
  notice_fields n =
      ("notification_id", text n.notification_id)
      ∷ ("user_id", text n.user_id)
      ∷ ("incident_id", text n.incident_id)
      ∷ ("device_id", text n.device_id)
      ∷ ("rule_id", text n.rule_id)
      ∷ ("flow_id", text n.flow_id)
      ∷ ("node_id", text n.node_id)
      ∷ ("module_id", text n.module_id)
      ∷ ("reading_key", text n.reading_key)
      ∷ ("severity", text (severity_name n.severity))
      ∷ ("type", text (type_name n.type))
      ∷ ("title", text n.title)
      ∷ ("body", text n.body)
      ∷ ("operator", text (symbol n.operator))
      ∷ ("value", number n.value)
      ∷ ("threshold", or_blank n.threshold)
      ∷ ("min", or_blank n.min)
      ∷ ("max", or_blank n.max)
      ∷ ("target_route", text ("/devices/" ⧺ n.device_id))
      ∷ ("timestamp", text (p.iso_string n.occurred_at))
      ∷ []

  -- `buildNotificationPayload`
  unfoldable pub build_notification_payload : Notice → Entries String
  unfolding spread normalize_data_payload
  build_notification_payload n = normalize_data_payload (spread (notice_fields n) n.metadata)

-- A property that is a text.
abbrev text_or_none : Value → Option String
text_or_none (text s) = some s
text_or_none v = none

-- `extractPushPayload(extractPushAction(actions)?.payload)`, the title and the body.
abbrev push_texts : Value → Option String × Option String
push_texts (object fields) =
    (text_or_none (property "title" fields), text_or_none (property "body" fields))
push_texts v = (none, none)

unfoldable pub extract_push_payload : List RuleAction → Option String × Option String
extract_push_payload [] = (none, none)
extract_push_payload (action ∷ rest) = push_texts action.payload

-- `${rule.moduleId} ${rule.readingKey}`
abbrev rule_label : AlertRule → String
rule_label rule = rule.module_id ⧺ " " ⧺ rule.reading_key

-- `buildDefaultRuleTitle`
unfoldable pub build_default_rule_title : AlertRule → String
build_default_rule_title rule = trim (rule_label rule) ⧺ (elim rule.severity [
  | critical ↦ " Critical Alert"
  | warning ↦ " Warning"
  | info ↦ " Notification"
])

module _ ⦃p : Platform⦄ where
  -- A number in a template, where a missing one reads "null".
  abbrev in_template : Option Number → String
  in_template none = "null"
  in_template (some n) = p.show_number n

  -- `buildDefaultRuleBody`
  unfoldable pub build_default_rule_body : AlertRule → Number → String
  build_default_rule_body rule value =
      if is_range rule.operator
      then rule_label rule
        ⧺ " value "
        ⧺ p.show_number value
        ⧺ " matched "
        ⧺ symbol rule.operator
        ⧺ " range ("
        ⧺ in_template rule.min
        ⧺ ".."
        ⧺ in_template rule.max
        ⧺ ")."
      else rule_label rule
        ⧺ " value "
        ⧺ p.show_number value
        ⧺ " crossed threshold "
        ⧺ in_template rule.threshold
        ⧺ "."

-- `buildDefaultResolvedTitle`, `buildDefaultResolvedBody`
unfoldable pub build_default_resolved_title : AlertRule → String
build_default_resolved_title rule = trim (rule_label rule) ⧺ " Normal ✓"

abbrev pub default_resolved_body : String
default_resolved_body = "Sensor back to safe levels"

-- `resolveNotificationTtl`, in milliseconds.
abbrev pub resolve_notification_ttl : Severity → ℕ
resolve_notification_ttl critical = 300 * 1000
resolve_notification_ttl warning = 60 * 60 * 1000
resolve_notification_ttl info = 24 * 60 * 60 * 1000
