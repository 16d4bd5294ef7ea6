-- ===== src/Notifications/Schemas.antt =====
-- The documents of src/notifications/schemas, the parts of flows and devices that the notifications
-- service reads, and the state that the service works on.
use nexusflow_backend.Prelude.{ℕ, Bool, String, List, Option, Number}
use nexusflow_backend.Value.{Value}
use nexusflow_backend.Platform.{Platform}

pub data Severity : Type 0 where
  critical warning info : Severity

-- '>', '<', '>=', '<=', '=', 'between', 'outside'
pub data Operator : Type 0 where
  gt lt ge le eq between outside : Operator

-- `updated_at` is the date that Mongoose writes; a policy that is not stored has none.
pub record AlertPolicy : Type 0 where
  pub module_id : String
  pub reading_key : String
  pub label : String
  pub required : Bool
  pub threshold_required : Bool
  pub default_enabled : Bool
  pub default_severity : Severity
  pub default_operator : Value
  pub default_threshold : Value
  pub default_min : Value
  pub default_max : Value
  pub supported_operators : Value
  pub is_active : Bool
  pub updated_at : Option ℕ

-- An action of type 'send_push', the only type there is.
pub record RuleAction : Type 0 where
  pub payload : Value

pub record AlertRule : Type 0 where
  pub flow_id : String
  pub user_id : String
  pub node_id : String
  pub module_id : String
  pub reading_key : String
  pub operator : Operator
  pub threshold : Option Number
  pub min : Option Number
  pub max : Option Number
  pub enabled : Bool
  pub severity : Severity
  pub actions : List RuleAction
  pub updated_at : ℕ

-- Dates are milliseconds since the epoch.
pub record Incident : Type 0 where
  pub user_id : String
  pub flow_id : String
  pub device_id : String
  pub rule_id : String
  pub node_id : String
  pub module_id : String
  pub reading_key : String
  pub opened_at : ℕ
  pub closed_at : Option ℕ
  pub user_acknowledged_at : Option ℕ
  pub last_notification_sent_at : Option ℕ
  pub notification_count : ℕ
  pub severity : Severity

pub data NotificationType : Type 0 where
  alert resolved : NotificationType

pub record Notification : Type 0 where
  pub user_id : String
  pub incident_id : String
  pub device_id : String
  pub rule_id : String
  pub severity : Severity
  pub title : String
  pub body : String
  pub payload : List (String × String)
  pub sent_at : ℕ
  pub received_at : Option ℕ
  pub handled_at : Option ℕ
  pub type : NotificationType

pub data MobilePlatform : Type 0 where
  android ios : MobilePlatform

pub record NotificationDeviceToken : Type 0 where
  pub user_id : String
  pub device_id : String
  pub platform : MobilePlatform
  pub fcm_token : String
  pub is_active : Bool
  pub last_error : Option String
  pub invalidated_at : Option ℕ
  pub last_seen_at : ℕ
  pub app_version : Option String
  pub locale : Option String

pub record NotificationPreference : Type 0 where
  pub flow_id : String
  pub project_id : Option String
  pub user_id : String
  pub notifications_enabled : Bool
  pub channels : List String

-- A node of a flow: `data.moduleId` is its module.
pub record FlowNode : Type 0 where
  pub id : String
  pub module_id : Option String

pub record Flow : Type 0 where
  pub user_id : Option String
  pub nodes : List FlowNode

pub record Device : Type 0 where
  pub active_flow_id : Option String

-- What the cache holds of a gas rule: its last trigger, and the delay before the next.
pub record Backoff : Type 0 where
  pub last_triggered_at : ℕ
  pub next_delay : ℕ

-- The one cache of the service, split by its two name spaces: the time of the last trigger of a
-- rule, under keys that begin with 'notif:trigger:', and the back-off under 'notif:gas:'.
pub record Triggers (p : Platform) : Type 0 where
  pub times : p.Cache ℕ
  pub backoffs : p.Cache Backoff

pub record Store (p : Platform) : Type 0 where
  pub tokens : p.Collection NotificationDeviceToken
  pub notifications : p.Collection Notification
  pub incidents : p.Collection Incident
  pub devices : p.Collection Device
  pub preferences : p.Collection NotificationPreference
  pub policies : p.Collection AlertPolicy
  pub rules : p.Collection AlertRule
  pub flows : p.Collection Flow
  pub triggers : Triggers p
