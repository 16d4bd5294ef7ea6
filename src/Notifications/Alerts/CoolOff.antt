-- ===== src/Notifications/Alerts/CoolOff.antt =====
-- How often an incident is notified about.
use nexusflow_backend.Prelude.{
  ℕ, ◌+◌, ◌*◌, ◌<◌, ◌≡◌, refl, sym, ap, ◌∙◌, subst, true, false, String, Option, none, some, select,
  select-append, arith, ===_refl, ◌===◌, Number,
}
use nexusflow_backend.Action.{ok}
use nexusflow_backend.Platform.{Doc, Platform}
use nexusflow_backend.Platform.Query.{sort}
use nexusflow_backend.Platform.Query.Laws.{sort-map, first-map, map_some, select-map, edit_keeps}
use nexusflow_backend.Notifications.Schemas.{Severity, Incident, Store}
use nexusflow_backend.Notifications.Payload.{Entries}
use nexusflow_backend.Value.{Value}
use nexusflow_backend.Notifications.Sending.{Firebase, get_flow_owner_id}
use nexusflow_backend.Notifications.Incidents.{
  Subject, Signal, is_open_about, incident_before, subject_of, new_incident, alerted,
  should_send_incident_notification, suppressed_for,
}
use nexusflow_backend.Notifications.Alerts.{
  get_flow_notification_device_id, find_open_incident, alert_incident, fire_about,
  fire_alert_from_rule,
}
use nexusflow_backend.Notifications.Alerts.Subjects.{
  is_about-new, alert_edit, is_open-alerted, find_open-none, Skips, notify-keeps, alerted_incidents,
  incidents-alert_incident, docs-alerted, docs-new,
}

-- An alert keeps the order of incidents.
before-alerted :
    (id : String) (t : ℕ) (v : Severity) (a b : Doc Incident)
    → incident_before (alert_edit id t v a) (alert_edit id t v b) ≡ incident_before a b
before-alerted id t v a b =
    let e = alert_edit id t v in
    let opened : (d : Doc Incident) → (e d).body.opened_at ≡ d.body.opened_at =
      edit_keeps (λ d. d.id === id) (alerted t v) (λ d. d.body.opened_at) (λ e. refl) in
    let named : (d : Doc Incident) → (e d).id ≡ d.id =
      edit_keeps (λ d. d.id === id) (alerted t v) (λ d. d.id) (λ e. refl) in
    rw (opened a, opened b, named a, named b) refl

-- The count of notifications after the next one.
abbrev pub next_count : Option (Doc Incident) → ℕ
next_count none = 1
next_count (some d) = d.body.notification_count + 1

module _ ⦃p : Platform⦄ where
  -- The open incident has been notified about for the last time at `t`.
  pub record IsNotified (k : Subject) (t count : ℕ) (c : p.Collection Incident) : Type 0 where
    pub incident : Doc Incident
    pub is_open : find_open_incident k c ≡ some incident
    pub last : incident.body.last_notification_sent_at ≡ some t
    pub counted : incident.body.notification_count ≡ count

  IsNotified-alerted :
      (signal : Signal) (k : Subject) (found : Option (Doc Incident)) (c : p.Collection Incident)
      → find_open_incident k c ≡ found
      → IsNotified k signal.occurred_at (next_count found) (alerted_incidents signal k found c)
  unfolding find_open_incident sort
  IsNotified-alerted signal k none c h = record {
    incident = record {
      id = (p.insert (new_incident k signal) c).0.id;
      body = new_incident k signal;
    };
    is_open =
        rw
          (
            docs-new signal k c,
            select-append (is_open_about k),
            find_open-none k c h,
            is_about-new k signal,
          )
          refl;
    last = refl;
    counted = refl;
  }
  IsNotified-alerted signal k (some d) c h =
      let e = alert_edit d.id signal.occurred_at signal.rule.body.severity in
      let at_id : e d
          ≡ record d { body = alerted signal.occurred_at signal.rule.body.severity d.body } =
        rw (===_refl d.id) refl in
      record {
        incident = e d;
        is_open =
            rw
              (
                docs-alerted signal k d c,
                select-map (alert_edit d.id signal.occurred_at signal.rule.body.severity)
                    (is_open_about k)
                    (is_open-alerted k d.id signal.occurred_at signal.rule.body.severity)
                    (p.docs c),
                sort-map (alert_edit d.id signal.occurred_at signal.rule.body.severity)
                    incident_before
                    (before-alerted d.id signal.occurred_at signal.rule.body.severity)
                    (select (is_open_about k) (p.docs c)),
                first-map (alert_edit d.id signal.occurred_at signal.rule.body.severity)
                    (sort incident_before (select (is_open_about k) (p.docs c))),
              )
              (ap (map_some e) h);
        last = rw (===_refl d.id) refl;
        counted = rw (===_refl d.id) refl;
      }

  pub owner_of :
      (flow_id : String) (s s' : Store p)
      → s.flows ≡ s'.flows
      → get_flow_owner_id flow_id s ≡ get_flow_owner_id flow_id s'
  unfolding get_flow_owner_id
  owner_of flow_id s s' e = rw e refl

  device_of :
      (flow_id : String) (s s' : Store p)
      → s.devices ≡ s'.devices
      → get_flow_notification_device_id flow_id s ≡ get_flow_notification_device_id flow_id s'
  unfolding get_flow_notification_device_id
  device_of flow_id s s' e = rw e refl

  -- Within five minutes of the last notification none is sent.
  held_back :
      (d : Doc Incident) (occurred_at t : ℕ)
      → d.body.last_notification_sent_at ≡ some t
      → occurred_at < t + 5 * 60 * 1000
      → should_send_incident_notification (some d) occurred_at ≡ false
  unfolding should_send_incident_notification
  held_back d occurred_at t last early = rw last (ground arith)

  alert_incident-keeps :
      {V : Type 0} (view : Store p → V)
      → Skips view
      → ((s : Store p) (c : p.Collection Incident) → view (record s { incidents = c }) ≡ view s)
      → (firebase : Firebase) (wall : ℕ) (signal : Signal) (k : Subject)
        (found : Option (Doc Incident)) (s : Store p)
      → view (alert_incident firebase wall signal k found s).1 ≡ view s
  unfolding alert_incident
  alert_incident-keeps view k k' firebase wall signal j none s =
      notify-keeps view k firebase wall _ _ ∙ k' s _
  alert_incident-keeps view k k' firebase wall signal j (some d) s =
      notify-keeps view k firebase wall _ _ ∙ k' s _

  is_suppressed :
      (firebase : Firebase) (wall : ℕ) (signal : Signal) (user_id device_id : String) (s : Store p)
      (d : Doc Incident)
      → get_flow_owner_id signal.flow_id s ≡ some user_id
      → get_flow_notification_device_id signal.flow_id s ≡ device_id
      → find_open_incident (subject_of user_id device_id signal) s.incidents ≡ some d
      → should_send_incident_notification (some d) signal.occurred_at ≡ false
      → fire_alert_from_rule firebase wall signal s
        ≡ (ok (suppressed_for d.id "Incident notification is still within the cooldown window."), s)
  unfolding fire_alert_from_rule fire_about
  is_suppressed firebase wall signal user_id device_id s d owner device is_open waits =
      rw (fire_alert_from_rule, owner, device, is_open, waits) refl

  module _ (firebase : Firebase) (wall : ℕ) (signal : Signal) (user_id : String) (s : Store p)
      (owner : get_flow_owner_id signal.flow_id s ≡ some user_id) where
    abbrev pub subject : Subject
    subject = subject_of user_id (get_flow_notification_device_id signal.flow_id s) signal

    abbrev pub after : Store p
    after = (fire_alert_from_rule firebase wall signal s).1

    fires :
        should_send_incident_notification
            (find_open_incident subject s.incidents)
            signal.occurred_at
          ≡ true
        → fire_alert_from_rule firebase wall signal s
          ≡ alert_incident firebase wall signal subject (find_open_incident subject s.incidents) s
    unfolding fire_alert_from_rule fire_about
    fires sends = rw (fire_alert_from_rule, owner, sends) refl

    -- An alert of an owned flow that is not held back leaves an open incident as the latest of
    -- its subject, notified about at the time of the alert, with a count of one if none was open
    -- and one more than before otherwise, whether the push is sent or fails.
    pub fire_alert_from_rule-IsNotified :
        should_send_incident_notification
            (find_open_incident subject s.incidents)
            signal.occurred_at
          ≡ true
        → IsNotified subject signal.occurred_at
            (next_count (find_open_incident subject s.incidents))
            after.incidents
    fire_alert_from_rule-IsNotified sends =
        subst
          (IsNotified subject signal.occurred_at
            (next_count (find_open_incident subject s.incidents)))
          (sym (
            ap (λ r. r.1.incidents) (fires sends)
            ∙ incidents-alert_incident firebase wall signal subject
                (find_open_incident subject s.incidents) s))
          (IsNotified-alerted signal subject (find_open_incident subject s.incidents) s.incidents
            refl)

    kept :
        {V : Type 0} (view : Store p → V)
        → Skips view
        → ((s : Store p) (c : p.Collection Incident) → view (record s { incidents = c }) ≡ view s)
        → should_send_incident_notification
            (find_open_incident subject s.incidents)
            signal.occurred_at
          ≡ true
        → view after ≡ view s
    kept view k k' sends =
        ap (λ r. view r.1) (fires sends)
        ∙ alert_incident-keeps view k k' firebase wall signal subject
            (find_open_incident subject s.incidents) s

    -- The flow is owned as before.
    pub owner_kept :
        should_send_incident_notification
            (find_open_incident subject s.incidents)
            signal.occurred_at
          ≡ true
        → get_flow_owner_id signal.flow_id after ≡ some user_id
    owner_kept sends =
        owner_of signal.flow_id after s (
          kept (λ s. s.flows) (record { tokens = λ s c. refl; notifications = λ s c. refl })
            (λ s c. refl) sends)
        ∙ owner

    -- The rule fires again, at another time and with another value.
    abbrev pub again : ℕ → Number → Entries Value → Signal
    again occurred_at value metadata = record signal {
      occurred_at = occurred_at;
      value = value;
      metadata = metadata;
    }

    -- After an alert of an owned flow that was not held back, the next alert of the same rule
    -- within five minutes on the clock of the readings, with any value and metadata, is
    -- suppressed and changes nothing, not even the tokens.
    pub fire_alert_from_rule_waits :
        (firebase' : Firebase) (wall' occurred_at : ℕ) (value : Number) (metadata : Entries Value)
        → should_send_incident_notification
            (find_open_incident subject s.incidents)
            signal.occurred_at
          ≡ true
        → occurred_at < signal.occurred_at + 5 * 60 * 1000
        → (id : String) × (fire_alert_from_rule firebase' wall'
              (again occurred_at value metadata)
              after
            ≡ (
              ok (suppressed_for id "Incident notification is still within the cooldown window."),
              after,
            ))
    fire_alert_from_rule_waits firebase' wall' occurred_at value metadata sends early =
        let flows : after.flows ≡ s.flows =
          kept (λ s. s.flows) (record { tokens = λ s c. refl; notifications = λ s c. refl })
            (λ s c. refl) sends in
        let devices : after.devices ≡ s.devices =
          kept (λ s. s.devices) (record { tokens = λ s c. refl; notifications = λ s c. refl })
            (λ s c. refl) sends in
        let n = fire_alert_from_rule-IsNotified sends in
        let waits = held_back n.incident occurred_at signal.occurred_at n.last early in
        (
          n.incident.id,
          is_suppressed firebase' wall' (again occurred_at value metadata) user_id
              (get_flow_notification_device_id signal.flow_id s) after n.incident
              (owner_of signal.flow_id after s flows ∙ owner)
              (device_of signal.flow_id after s devices) n.is_open waits,
        )
