-- ===== src/Tests/Samples.antt =====
-- The data of the tests: a flow with one rule for its gas sensor, one phone, and no incident yet.
use nexusflow_backend.Prelude.{true, false, [], ◌∷◌, none, some, whole}
use nexusflow_backend.Value.{number, text, null, array, nil, cons}
use nexusflow_backend.Platform.{Doc}
use nexusflow_backend.Action.{ok}
use nexusflow_backend.Platform.Memory.{memory, holding}
use nexusflow_backend.Notifications.Schemas.{
  critical, gt, AlertPolicy, AlertRule, Flow, NotificationDeviceToken, android, Store, Triggers,
}
use nexusflow_backend.Notifications.Condition.{Bounds}
use nexusflow_backend.Notifications.Cooldown.{TriggerConfig}
use nexusflow_backend.Notifications.Tokens.{RegisterNotificationDevice}
use nexusflow_backend.Notifications.Sending.{Firebase}
use nexusflow_backend.Notifications.Incidents.{Signal}
use nexusflow_backend.Notifications.Readings.{Reading}

abbrev pub above_300 : Bounds
above_300 = record { threshold = some (whole 300); min = none; max = none }

abbrev pub gas_rule : AlertRule
gas_rule = record {
  flow_id = "1";
  user_id = "u";
  node_id = "n";
  module_id = "MQ2-Sensor";
  reading_key = "analog";
  operator = gt;
  threshold = some (whole 300);
  min = none;
  max = none;
  enabled = true;
  severity = critical;
  actions = [];
  updated_at = 0;
}

abbrev pub gas_doc : Doc AlertRule
gas_doc = record { id = "1"; body = gas_rule }

abbrev pub flow : Flow
flow = record {
  user_id = some "u";
  nodes = record { id = "n"; module_id = some "MQ2-Sensor" } ∷ [];
}

abbrev pub phone : NotificationDeviceToken
phone = record {
  user_id = "u";
  device_id = "d";
  platform = android;
  fcm_token = "t";
  is_active = true;
  last_error = none;
  invalidated_at = none;
  last_seen_at = 0;
  app_version = none;
  locale = none;
}

abbrev pub no_triggers : Triggers memory
no_triggers = record { times = []; backoffs = [] }

abbrev pub store : Store memory
store = record {
  tokens = holding (phone ∷ []);
  notifications = holding [];
  incidents = holding [];
  devices = holding [];
  preferences = holding [];
  policies = holding [];
  rules = holding (gas_rule ∷ []);
  flows = holding (flow ∷ []);
  triggers = no_triggers;
}

abbrev pub config : TriggerConfig
config = record { rule_cooldown_ms = 60000; gas_rule_max_backoff_ms = 600000 }

-- Firebase with credentials, where every token is gone.
abbrev pub firebase : Firebase
firebase = record {
  project_id = some "p";
  client_email = some "e";
  private_key = some "k";
  send_each = λ m. ok (record {
    success_count = 0;
    failure_count = 1;
    responses = record { success = false; error = some "UNREGISTERED" } ∷ [];
  });
}

abbrev pub signal : Signal
signal = record {
  flow_id = "1";
  rule = gas_doc;
  value = whole 400;
  occurred_at = 1000;
  metadata = [];
}

abbrev pub reading : Reading
reading = record {
  flow_id = "1";
  node_id = "n";
  readings = ("analog", number (whole 400)) ∷ [];
  occurred_at = some 1000;
  metadata = [];
}

abbrev pub new_phone : RegisterNotificationDevice
new_phone = record {
  device_id = "e";
  platform = android;
  fcm_token = "t";
  app_version = none;
  locale = none;
}

abbrev pub gas_policy : AlertPolicy
gas_policy = record {
  module_id = "MQ2-Sensor";
  reading_key = "analog";
  label = "Gas";
  required = true;
  threshold_required = true;
  default_enabled = true;
  default_severity = critical;
  default_operator = text ">";
  default_threshold = number (whole 300);
  default_min = null;
  default_max = null;
  supported_operators = array (cons (text ">") nil);
  is_active = true;
  updated_at = none;
}
