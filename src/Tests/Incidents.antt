-- ===== src/Tests/Incidents.antt =====
-- An alert of the gas sensor, its cool-off and its resolution.
use nexusflow_backend.Prelude.{
  is_empty, trim, ◌≡◌, refl, true, String, [], none, some, arith, whole,
}
use nexusflow_backend.Action.{ok}
use nexusflow_backend.Platform.Query.{sort}
use nexusflow_backend.Platform.Memory.{memory}
use nexusflow_backend.Notifications.Schemas.{Store}
use nexusflow_backend.Notifications.Sending.{get_flow_owner_id}
use nexusflow_backend.Notifications.Incidents.{
  Subject, subject_of, should_send_incident_notification, suppressed_for,
}
use nexusflow_backend.Notifications.Alerts.{
  get_flow_notification_device_id, find_open_incident, fire_alert_from_rule,
  resolve_incident_from_rule,
}
use nexusflow_backend.Notifications.Alerts.Open.{
  HasOneOpen, fire_alert_from_rule-HasOneOpen, resolve_incident_from_rule_closes,
}
use nexusflow_backend.Notifications.Alerts.CoolOff.{
  next_count, IsNotified, subject, owner_kept, again, fire_alert_from_rule-IsNotified,
  fire_alert_from_rule_waits,
}
use nexusflow_backend.Tests.Samples.{store, signal, firebase}

owned : get_flow_owner_id "1" store ≡ some "u"
unfolding get_flow_owner_id is_empty trim
owned = refl

starts_closed : HasOneOpen store
starts_closed k = omega arith

abbrev gas : Subject
gas = subject firebase 5 signal "u" store owned

abbrev alarmed : Store memory
alarmed = (fire_alert_from_rule firebase 5 signal store).1

sends : should_send_incident_notification (find_open_incident gas store.incidents) 1000 ≡ true
unfolding should_send_incident_notification find_open_incident sort
sends = refl

fire_alert_from_rule-IsNotified_example :
    IsNotified gas 1000 (next_count (find_open_incident gas store.incidents)) alarmed.incidents
fire_alert_from_rule-IsNotified_example =
    fire_alert_from_rule-IsNotified firebase 5 signal "u" store owned sends

fire_alert_from_rule_waits_example :
    (id : String) × (fire_alert_from_rule firebase 9
        (again firebase 5 signal "u" store owned 2000 (whole 500) [])
        alarmed
      ≡ (
        ok (suppressed_for id "Incident notification is still within the cooldown window."),
        alarmed,
      ))
fire_alert_from_rule_waits_example =
    fire_alert_from_rule_waits firebase 5 signal "u" store owned firebase 9 2000 (whole 500) []
      sends (omega arith)

alarmed_once : HasOneOpen alarmed
alarmed_once = fire_alert_from_rule-HasOneOpen firebase 5 signal store starts_closed

still_owned : get_flow_owner_id "1" alarmed ≡ some "u"
still_owned = owner_kept firebase 5 signal "u" store owned sends

resolve_incident_from_rule_closes_example :
    find_open_incident
      (subject_of "u" (get_flow_notification_device_id "1" alarmed) signal)
      (resolve_incident_from_rule firebase 6 signal alarmed).1.incidents
    ≡ none
resolve_incident_from_rule_closes_example =
    resolve_incident_from_rule_closes firebase 6 signal "u" alarmed alarmed_once still_owned
