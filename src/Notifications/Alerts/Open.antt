-- ===== src/Notifications/Alerts/Open.antt =====
-- Which incidents are open after an alert or a resolution.
use nexusflow_backend.Prelude.{
  ℕ, ◌≤◌, ◌≡◌, refl, ap, ◌∙◌, false, String, [], Option, none, some, select, select-append, length,
  length-append, arith, Bool-cases, Option-cases, inl, inr, ===_refl, ◌===◌,
}
use nexusflow_backend.Platform.{Doc, Platform}
use nexusflow_backend.Platform.Query.{sort, find_all, update_by_id}
use nexusflow_backend.Platform.Query.Laws.{
  first-sort-one, select-map, length-map, select-map_twice, length-select-map_le,
}
use nexusflow_backend.Notifications.Schemas.{Incident, Store}
use nexusflow_backend.Notifications.Sending.{Firebase, get_flow_owner_id}
use nexusflow_backend.Notifications.Incidents.{
  Subject, Signal, is_about, is_open_about, incident_before, subject_of, new_incident, closed,
  should_send_incident_notification,
}
use nexusflow_backend.Notifications.Alerts.{
  get_flow_notification_device_id, find_open_incident, fire_about, fire_alert_from_rule,
  resolve_about, resolve_incident_from_rule,
}
use nexusflow_backend.Notifications.Alerts.Subjects.{
  alert_edit, alerted_incidents, close_edit, docs-alerted, docs-new, find_open-none,
  incidents-alert_incident, is_open-alerted, is_open-closed, notify-keeps, same_subject,
}

module _ ⦃p : Platform⦄ where
  -- At most one incident is open for each subject.
  abbrev pub HasOneOpen : Store p → Type 0
  HasOneOpen s = (k : Subject) → length (find_all (is_open_about k) s.incidents) ≤ 1

  -- An alert for the subject leaves at most one open incident for each.
  alerted-OneOpen :
      (signal : Signal) (j k : Subject) (found : Option (Doc Incident)) (c : p.Collection Incident)
      → find_open_incident k c ≡ found
      → length (find_all (is_open_about j) c) ≤ 1
      → length (find_all (is_open_about j) (alerted_incidents signal k found c)) ≤ 1
  alerted-OneOpen signal j k (some d) c h one =
      rw
        (
          docs-alerted signal k d c,
          select-map (alert_edit d.id signal.occurred_at signal.rule.body.severity)
              (is_open_about j)
              (is_open-alerted j d.id signal.occurred_at signal.rule.body.severity) (p.docs c),
          length-map (alert_edit d.id signal.occurred_at signal.rule.body.severity)
              (select (is_open_about j) (p.docs c)),
        )
        one
  alerted-OneOpen signal j k none c h one = elim (Bool-cases (is_about j (new_incident k signal))) [
    | inl same ↦
        rw
          (
            docs-new signal k c,
            select-append (is_open_about j),
            same,
            ← same_subject j k signal same,
            find_open-none k c h,
          )
          (omega arith)
    | inr other ↦
        rw
          (
            docs-new signal k c,
            select-append (is_open_about j),
            other,
            length-append (select (is_open_about j) (p.docs c)) [],
          )
          (omega arith)
  ]

  fire_about-OneOpen :
      (firebase : Firebase) (wall : ℕ) (signal : Signal) (k : Subject) (s : Store p)
      → HasOneOpen s
      → HasOneOpen (fire_about firebase wall signal k s).1
  unfolding fire_about
  fire_about-OneOpen firebase wall signal k s h j =
      elim (Bool-cases
        (should_send_incident_notification (find_open_incident k s.incidents) signal.occurred_at)) [
          | inl sends ↦
              rw
                (
                  sends,
                  incidents-alert_incident firebase wall signal k (find_open_incident k s.incidents)
                      s,
                )
                (alerted-OneOpen signal j k _ s.incidents refl (h j))
          | inr cools ↦ rw cools (h j)
        ]

  -- Firing a rule keeps it so that no subject has more than one open incident, whether the alert
  -- is suppressed, sent, or fails to be sent.
  pub fire_alert_from_rule-HasOneOpen :
      (firebase : Firebase) (wall : ℕ) (signal : Signal) (s : Store p)
      → HasOneOpen s
      → HasOneOpen (fire_alert_from_rule firebase wall signal s).1
  unfolding fire_alert_from_rule
  fire_alert_from_rule-HasOneOpen firebase wall signal s h =
      elim (Option-cases (get_flow_owner_id signal.flow_id s)) [
        | inl missing ↦ rw (fire_alert_from_rule, missing) h
        | inr (user_id, found) ↦
            rw (fire_alert_from_rule, found) (fire_about-OneOpen firebase wall signal _ s h)
      ]

  -- What a resolution does to the incidents of its subject.
  abbrev pub resolved_incidents :
      Signal → Option (Doc Incident) → p.Collection Incident → p.Collection Incident
  resolved_incidents signal none c = c
  resolved_incidents signal (some d) c = update_by_id d.id (closed signal.occurred_at) c

  incidents-resolve_about :
      (firebase : Firebase) (wall : ℕ) (signal : Signal) (k : Subject)
      (found : Option (Doc Incident)) (s : Store p)
      → (resolve_about firebase wall signal k found s).1.incidents
        ≡ resolved_incidents signal found s.incidents
  unfolding resolve_about
  incidents-resolve_about firebase wall signal k none s = refl
  incidents-resolve_about firebase wall signal k (some d) s =
      notify-keeps (λ s. s.incidents) (record { tokens = λ s c. refl; notifications = λ s c. refl })
        firebase wall _ _

  resolved-OneOpen :
      (signal : Signal) (j : Subject) (found : Option (Doc Incident)) (c : p.Collection Incident)
      → length (find_all (is_open_about j) c) ≤ 1
      → length (find_all (is_open_about j) (resolved_incidents signal found c)) ≤ 1
  resolved-OneOpen signal j none c one = one
  resolved-OneOpen signal j (some d) c one =
      rw (p.docs-update_many (λ e. e.id === d.id) (closed signal.occurred_at) c) (
        let less =
          length-select-map_le (close_edit d.id signal.occurred_at) (is_open_about j)
            (is_open-closed j d.id signal.occurred_at) (p.docs c) in
        omega arith)

  -- Resolving a rule keeps it so that no subject has more than one open incident.
  pub resolve_incident_from_rule-HasOneOpen :
      (firebase : Firebase) (wall : ℕ) (signal : Signal) (s : Store p)
      → HasOneOpen s
      → HasOneOpen (resolve_incident_from_rule firebase wall signal s).1
  unfolding resolve_incident_from_rule
  resolve_incident_from_rule-HasOneOpen firebase wall signal s h =
      elim (Option-cases (get_flow_owner_id signal.flow_id s)) [
        | inl missing ↦ rw (resolve_incident_from_rule, missing) h
        | inr (user_id, found) ↦
            rw (resolve_incident_from_rule, found)
              (λ j.
                rw
                  (incidents-resolve_about firebase wall signal
                    (subject_of user_id (get_flow_notification_device_id signal.flow_id s) signal)
                    (find_open_incident
                      (subject_of user_id (get_flow_notification_device_id signal.flow_id s) signal)
                      s.incidents)
                    s)
                  (resolved-OneOpen signal j _ s.incidents (h j)))
      ]

  closed_now :
      (k : Subject) (t : ℕ) (d : Doc Incident) → is_open_about k (close_edit d.id t d) ≡ false
  closed_now k t d = rw (===_refl d.id) (ground arith)

  -- Where one incident is open, closing it leaves none.
  resolved-none :
      (signal : Signal) (k : Subject) (found : Option (Doc Incident)) (c : p.Collection Incident)
      → find_open_incident k c ≡ found
      → length (find_all (is_open_about k) c) ≤ 1
      → find_open_incident k (resolved_incidents signal found c) ≡ none
  unfolding find_open_incident sort
  resolved-none signal k none c h one = h
  resolved-none signal k (some d) c h one =
      rw
        (
          p.docs-update_many (λ e. e.id === d.id) (closed signal.occurred_at) c,
          select-map_twice (close_edit d.id signal.occurred_at) (is_open_about k)
              (is_open-closed k d.id signal.occurred_at) (p.docs c),
          first-sort-one incident_before (select (is_open_about k) (p.docs c)) d h one,
          closed_now k signal.occurred_at d,
        )
        refl

  -- If no subject has more than one open incident, then after the rule of an owned flow is
  -- resolved no incident of its subject is open, also where the push fails.
  pub resolve_incident_from_rule_closes :
      (firebase : Firebase) (wall : ℕ) (signal : Signal) (user_id : String) (s : Store p)
      → HasOneOpen s
      → get_flow_owner_id signal.flow_id s ≡ some user_id
      → find_open_incident
          (subject_of user_id (get_flow_notification_device_id signal.flow_id s) signal)
          (resolve_incident_from_rule firebase wall signal s).1.incidents
        ≡ none
  unfolding resolve_incident_from_rule
  resolve_incident_from_rule_closes firebase wall signal user_id s h owner =
      let k = subject_of user_id (get_flow_notification_device_id signal.flow_id s) signal in
      rw (resolve_incident_from_rule, owner)
        (ap (find_open_incident k)
            (incidents-resolve_about firebase wall signal k (find_open_incident k s.incidents) s)
          ∙ resolved-none signal k (find_open_incident k s.incidents) s.incidents refl (h k))
