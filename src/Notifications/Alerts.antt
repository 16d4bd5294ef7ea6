-- ===== src/Notifications/Alerts.antt =====
-- Alerts and resolutions of rules, from notifications.service.ts: `fireAlertFromRule` and
-- `resolveIncidentFromRule` with their helpers.
pub mod Subjects
pub mod CoolOff
pub mod Open
use nexusflow_backend.Prelude.{
  ℕ, zero, suc, ◌+◌, ◌*◌, ◌-◌, ◌<◌, Bool, true, false, not, ◌&&◌, ◌||◌, String, List, [], ◌∷◌,
  Option, none, some, ltb, ◌==◌, ◌===◌, ◌⧺◌, is_empty, is_some, get_or, if◌then◌else◌, Number,
  whole,
}
use nexusflow_backend.Value.{Value}
use nexusflow_backend.Action.{
  internal_server_error, Result, ok, err, Action, pure, ◌>>=◌, ◌>>◌, writes, reads,
}
use nexusflow_backend.Platform.{Doc, Platform}
use nexusflow_backend.Platform.Query.{find_all, find_one, update_by_id, sort, first_of, id_less}
use nexusflow_backend.Notifications.Schemas.{
  Severity, info, NotificationType, alert, resolved, AlertRule, Incident, Notification, Store,
}
use nexusflow_backend.Notifications.Payload.{
  Entries, Notice, build_notification_payload, extract_push_payload, build_default_rule_title,
  build_default_rule_body, build_default_resolved_title, default_resolved_body,
  resolve_notification_ttl,
}
use nexusflow_backend.Notifications.Policy.{normalize_reading_key}
use nexusflow_backend.Notifications.Sending.{
  Firebase, Delivery, Push, get_flow_owner_id, send_alert_to_flow_owner,
}
use nexusflow_backend.Notifications.Incidents.{
  Outcome, Signal, Subject, alerted, base_cooldown, closed, cooldown_of, incident_before, is_about,
  is_open_about, new_incident, notice, resolved_notice, should_send_incident_notification,
  subject_of, suppressed_for,
}

module _ ⦃p : Platform⦄ where
  -- `getFlowNotificationDeviceId`
  unfoldable pub get_flow_notification_device_id : String → Store p → String
  get_flow_notification_device_id flow_id s =
      if not (p.is_object_id flow_id)
      then flow_id
      else elim (find_one
          (λ d. elim d.body.active_flow_id [ none ↦ false | some f ↦ f === flow_id ]) s.devices) [
            | none ↦ flow_id
            | some device ↦ device.id
          ]

  -- `findOpenIncident`
  unfoldable pub find_open_incident : Subject → p.Collection Incident → Option (Doc Incident)
  find_open_incident k c = first_of (sort incident_before (find_all (is_open_about k) c))

  abbrev pub alert_notice : Subject → Signal → String → Notice
  alert_notice k signal incident_id =
      let rule = signal.rule.body in
      let (title, body) = extract_push_payload rule.actions in
      notice k signal incident_id alert rule.severity (get_or title (build_default_rule_title rule))
        (get_or body (build_default_rule_body rule signal.value)) signal.value

  abbrev pub notification_of : Notice → Notification
  notification_of n = record {
    user_id = n.user_id;
    incident_id = n.incident_id;
    device_id = n.device_id;
    rule_id = n.rule_id;
    severity = n.severity;
    title = n.title;
    body = n.body;
    payload = build_notification_payload n;
    sent_at = n.occurred_at;
    received_at = none;
    handled_at = none;
    type = n.type;
  }

  abbrev pub delivered : Notice → String → Delivery → Outcome
  delivered n notification_id delivery = record {
    history_id = n.incident_id;
    incident_id = n.incident_id;
    notification_id = notification_id;
    push_sent = ltb 0 delivery.success_count;
    suppressed = false;
    reason = none;
  }

  -- A notification that is stored has its id put into its data, and the data are sent. `wall` is
  -- the time of day of the sending.
  unfoldable pub send_notice : Firebase → ℕ → Notice → Action (Store p) Outcome
  send_notice firebase wall n s =
      let (d, c) = p.insert (notification_of n) s.notifications in
      let payload = build_notification_payload (record n { notification_id = d.id }) in
      let push : Push = record {
        flow_id = n.flow_id;
        severity = n.severity;
        payload = payload;
        ttl = resolve_notification_ttl n.severity;
        collapse_key = "incident_" ⧺ n.incident_id;
      } in
      (do
        writes (λ s. record s {
          notifications = update_by_id d.id (λ b. record b { payload = payload }) c;
        })
        delivery ← send_alert_to_flow_owner firebase push wall
        pure (delivered n d.id delivery))
        s

  -- The end of `fireAlertFromRule` and `resolveIncidentFromRule`: a notification is not stored
  -- without a title and a body, which its schema requires.
  unfoldable pub notify : Firebase → ℕ → Notice → Action (Store p) Outcome
  unfolding send_notice
  notify firebase wall n s =
      if is_empty n.title || is_empty n.body
      then (err (internal_server_error "Internal server error"), s)
      else send_notice firebase wall n s

  -- `fireAlertFromRule`, from where the notification is allowed.
  unfoldable pub alert_incident :
      Firebase → ℕ → Signal → Subject → Option (Doc Incident) → Action (Store p) Outcome
  alert_incident firebase wall signal k (some d) s =
      (do
        writes (λ s. record s {
          incidents =
              update_by_id d.id (alerted signal.occurred_at signal.rule.body.severity) s.incidents;
        })
        notify firebase wall (alert_notice k signal d.id))
        s
  alert_incident firebase wall signal k none s =
      let (d, c) = p.insert (new_incident k signal) s.incidents in
      notify firebase wall (alert_notice k signal d.id) (record s { incidents = c })

  abbrev pub id_or_blank : Option (Doc Incident) → String
  id_or_blank none = ""
  id_or_blank (some d) = d.id

  unfoldable pub fire_about : Firebase → ℕ → Signal → Subject → Action (Store p) Outcome
  fire_about firebase wall signal k s =
      let found = find_open_incident k s.incidents in
      if should_send_incident_notification found signal.occurred_at
      then alert_incident firebase wall signal k found s
      else (
        ok (
            suppressed_for (id_or_blank found)
              "Incident notification is still within the cooldown window."),
        s,
      )

  -- `fireAlertFromRule`
  unfoldable pub fire_alert_from_rule : Firebase → ℕ → Signal → Action (Store p) Outcome
  fire_alert_from_rule firebase wall signal s = elim (get_flow_owner_id signal.flow_id s) [
    | none ↦ (ok (suppressed_for "" "Flow not found."), s)
    | some user_id ↦
        fire_about firebase wall signal
          (subject_of user_id (get_flow_notification_device_id signal.flow_id s) signal) s
  ]

  unfoldable pub resolve_about :
      Firebase → ℕ → Signal → Subject → Option (Doc Incident) → Action (Store p) Outcome
  resolve_about firebase wall signal k none =
      pure (suppressed_for "" "No active incident found for resolution.")
  resolve_about firebase wall signal k (some d) = do
    writes (λ s. record s { incidents = update_by_id d.id (closed signal.occurred_at) s.incidents })
    notify firebase wall (resolved_notice k signal d.id)

  -- `resolveIncidentFromRule`
  unfoldable pub resolve_incident_from_rule : Firebase → ℕ → Signal → Action (Store p) Outcome
  resolve_incident_from_rule firebase wall signal s = elim (get_flow_owner_id signal.flow_id s) [
    | none ↦ (ok (suppressed_for "" "Flow not found."), s)
    | some user_id ↦
        let k = subject_of user_id (get_flow_notification_device_id signal.flow_id s) signal in
        resolve_about firebase wall signal k (find_open_incident k s.incidents) s
  ]
