-- ===== src/Tests/Runtime.antt =====
-- A reading of the gas sensor, and an internal request about it.
use nexusflow_backend.Prelude.{
  is_empty, trim, ◌≡◌, refl, true, false, none, some, Option, [], get_or, select, length, arith,
  whole,
}
use nexusflow_backend.Action.{Result, ok, err}
use nexusflow_backend.Platform.{Doc}
use nexusflow_backend.Platform.Memory.{memory}
use nexusflow_backend.Notifications.Schemas.{alert, NotificationPreference, Store}
use nexusflow_backend.Notifications.Rules.{assert_user_can_access_flow}
use nexusflow_backend.Notifications.Preferences.{
  preference, has_alert_rules_for_flow, update_notification_preferences,
}
use nexusflow_backend.Notifications.Sending.{get_flow_owner_id}
use nexusflow_backend.Notifications.Alerts.Open.{HasOneOpen}
use nexusflow_backend.Notifications.Readings.{
  no_rules, notifications_enabled, rules_for, process_sensor_reading,
}
use nexusflow_backend.Notifications.Requests.{TriggerAlert, trigger_alert_from_internal}
use nexusflow_backend.Notifications.Readings.Laws.{process_sensor_reading-HasOneOpen}
use nexusflow_backend.Notifications.Readings.Tally.{
  IsTally, has_value, stored_notifications, process_sensor_reading-IsTally,
}
use nexusflow_backend.Notifications.Requests.Laws.{
  IsUnanswered, trigger_alert_from_internal-HasOneOpen, notifications_off_silent,
}
use nexusflow_backend.Tests.Samples.{store, reading, firebase, config, above_300}

abbrev request : TriggerAlert
request = record {
  rule_id = "1";
  flow_id = "1";
  node_id = "n";
  module_id = "MQ2-Sensor";
  reading_key = "analog";
  operator = ">";
  condition = above_300;
  value = whole 400;
  event_type = alert;
  occurred_at = some 1000;
}

starts_closed : HasOneOpen store
starts_closed k = omega arith

is_named : is_empty (trim reading.node_id) ≡ false
unfolding is_empty trim
is_named = refl

is_owned : get_flow_owner_id "1" store ≡ some "u"
unfolding get_flow_owner_id is_empty trim
is_owned = refl

is_on : notifications_enabled "1" "u" store ≡ true
unfolding notifications_enabled
is_on = refl

process_sensor_reading-IsTally_example :
    IsTally
      (length (select (has_value reading) (rules_for reading store)))
      (stored_notifications store)
      (process_sensor_reading firebase config 5 reading store)
unfolding is_empty
process_sensor_reading-IsTally_example =
    process_sensor_reading-IsTally firebase config 5 reading "u" store refl is_named is_owned is_on

process_sensor_reading-HasOneOpen_example :
    HasOneOpen (process_sensor_reading firebase config 5 reading store).1
process_sensor_reading-HasOneOpen_example =
    process_sensor_reading-HasOneOpen firebase config 5 reading store starts_closed

trigger_alert_from_internal-HasOneOpen_example :
    HasOneOpen (trigger_alert_from_internal firebase 5 request store).1
trigger_alert_from_internal-HasOneOpen_example =
    trigger_alert_from_internal-HasOneOpen firebase 5 request store starts_closed

abbrev turned_off : Result (Doc NotificationPreference) × Store memory
turned_off = update_notification_preferences "u" "1" false none store

abbrev saved_in : Result (Doc NotificationPreference) → Option (Doc NotificationPreference)
saved_in (ok d) = some d
saved_in (err e) = none

abbrev saved_preference : Doc NotificationPreference
saved_preference =
    get_or (saved_in turned_off.0) (record { id = ""; body = preference "" "" true [] })

is_saved : turned_off ≡ (ok saved_preference, turned_off.1)
unfolding update_notification_preferences assert_user_can_access_flow has_alert_rules_for_flow
    is_empty trim
is_saved = refl

notifications_off_silent_example :
    (process_sensor_reading firebase config 5 reading turned_off.1 ≡ (ok no_rules, turned_off.1))
    × IsUnanswered firebase 5 turned_off.1
        (trigger_alert_from_internal firebase 5 request turned_off.1)
notifications_off_silent_example =
    notifications_off_silent firebase 5 config reading request "u" none store turned_off.1
      {d = saved_preference} refl is_owned is_saved
