-- ===== src/Notifications/Alerts/Subjects.antt =====
-- The incidents of a subject before and after an alert.
use nexusflow_backend.Prelude.{
  ◌||◌, is_empty, ℕ, ◌≡◌, refl, ap, ◌∙◌, true, false, String, [], ◌∷◌, ◌++◌, map, Option, none,
  some, arith, Bool-cases, inl, inr, ===_refl, eq_of_===, ◌===◌,
}
use nexusflow_backend.Action.{Result, ok, err, continue, pure}
use nexusflow_backend.Platform.{Doc, Platform, edit}
use nexusflow_backend.Platform.Query.{find_all, update_by_id}
use nexusflow_backend.Platform.Query.Laws.{first-sort-none, edit_keeps}
use nexusflow_backend.Notifications.Schemas.{
  Severity, Notification, NotificationDeviceToken, Incident, Store,
}
use nexusflow_backend.Notifications.Payload.{Notice}
use nexusflow_backend.Notifications.Sending.{Firebase}
use nexusflow_backend.Notifications.Sending.Laws.{send_alert_to_flow_owner-rest}
use nexusflow_backend.Notifications.Incidents.{
  Subject, Signal, Outcome, is_about, is_open_about, incident_before, new_incident, alerted, closed,
}
use nexusflow_backend.Notifications.Alerts.{
  find_open_incident, delivered, send_notice, notify, alert_incident,
}

-- The new incident is about its subject.
pub is_about-new : (k : Subject) (signal : Signal) → is_about k (new_incident k signal) ≡ true
unfolding is_about
is_about-new k signal =
    rw
      (
        ===_refl k.user_id,
        ===_refl k.flow_id,
        ===_refl k.device_id,
        ===_refl k.rule_id,
        ===_refl k.node_id,
        ===_refl k.module_id,
        ===_refl k.reading_key,
      )
      refl

-- A subject that the new incident is about is its subject.
pub same_subject :
    (j k : Subject) (signal : Signal) → is_about j (new_incident k signal) ≡ true → k ≡ j
unfolding is_about
same_subject j k signal h =
    rw
      (
        eq_of_=== k.user_id j.user_id (ground arith),
        eq_of_=== k.flow_id j.flow_id (ground arith),
        eq_of_=== k.device_id j.device_id (ground arith),
        eq_of_=== k.rule_id j.rule_id (ground arith),
        eq_of_=== k.node_id j.node_id (ground arith),
        eq_of_=== k.module_id j.module_id (ground arith),
        eq_of_=== k.reading_key j.reading_key (ground arith),
      )
      refl

-- The edits of an alert and of a resolution keep what an incident is about.
is_about-alerted :
    (k : Subject) (t : ℕ) (v : Severity) (i : Incident) → is_about k (alerted t v i) ≡ is_about k i
unfolding is_about
is_about-alerted k t v i = refl

abbrev pub alert_edit : String → ℕ → Severity → Doc Incident → Doc Incident
alert_edit id t v = edit (λ d. d.id === id) (alerted t v)

abbrev pub close_edit : String → ℕ → Doc Incident → Doc Incident
close_edit id t = edit (λ d. d.id === id) (closed t)

pub is_open-alerted :
    (k : Subject) (id : String) (t : ℕ) (v : Severity) (d : Doc Incident)
    → is_open_about k (alert_edit id t v d) ≡ is_open_about k d
is_open-alerted k id t v d =
    edit_keeps (λ d. d.id === id) (alerted t v) (is_open_about k)
      (λ e. rw (is_about-alerted k t v e.body) refl) d

pub is_open-closed :
    (k : Subject) (id : String) (t : ℕ) (d : Doc Incident)
    → is_open_about k d ≡ false
    → is_open_about k (close_edit id t d) ≡ false
is_open-closed k id t d h = elim (Bool-cases (d.id === id)) [
  | inl passes ↦ rw passes (ground arith)
  | inr fails ↦ rw fails h
]

module _ ⦃p : Platform⦄ where
  pub find_open-none :
      (k : Subject) (c : p.Collection Incident)
      → find_open_incident k c ≡ none
      → find_all (is_open_about k) c ≡ []
  unfolding find_open_incident
  find_open-none k c h = first-sort-none incident_before _ h

  -- A view of the state that does not see tokens or notifications.
  pub record Skips {V : Type 0} (view : Store p → V) : Type 0 where
    pub tokens :
        (s : Store p) (c : p.Collection NotificationDeviceToken)
        → view (record s { tokens = c }) ≡ view s
    pub notifications :
        (s : Store p) (c : p.Collection Notification)
        → view (record s { notifications = c }) ≡ view s

  continue-pure :
      {A : Type 0} (f : A → Outcome) (r : Result A) (s : Store p)
      → (continue r (λ a. pure (f a)) s).1 ≡ s
  continue-pure f (ok a) s = refl
  continue-pure f (err e) s = refl

  send_notice-keeps :
      {V : Type 0} (view : Store p → V)
      → Skips view
      → (firebase : Firebase) (wall : ℕ) (n : Notice) (s : Store p)
      → view (send_notice firebase wall n s).1 ≡ view s
  unfolding send_notice
  send_notice-keeps view k firebase wall n s =
      ap view (continue-pure (delivered n _) _ _)
      ∙ ap view (send_alert_to_flow_owner-rest firebase _ wall _)
      ∙ k.tokens _ _
      ∙ k.notifications s _

  -- The notification about an incident is written beside the incidents, flows and devices.
  pub notify-keeps :
      {V : Type 0} (view : Store p → V)
      → Skips view
      → (firebase : Firebase) (wall : ℕ) (n : Notice) (s : Store p)
      → view (notify firebase wall n s).1 ≡ view s
  unfolding notify
  notify-keeps view k firebase wall n s = elim (Bool-cases (is_empty n.title || is_empty n.body)) [
    | inl refused ↦ rw refused refl
    | inr fine ↦ rw fine (send_notice-keeps view k firebase wall n s)
  ]

  -- What an alert does to the incidents of its subject.
  abbrev pub alerted_incidents :
      Signal → Subject → Option (Doc Incident) → p.Collection Incident → p.Collection Incident
  alerted_incidents signal k none c = (p.insert (new_incident k signal) c).1
  alerted_incidents signal k (some d) c =
      update_by_id d.id (alerted signal.occurred_at signal.rule.body.severity) c

  pub incidents-alert_incident :
      (firebase : Firebase) (wall : ℕ) (signal : Signal) (k : Subject)
      (found : Option (Doc Incident)) (s : Store p)
      → (alert_incident firebase wall signal k found s).1.incidents
        ≡ alerted_incidents signal k found s.incidents
  unfolding alert_incident
  incidents-alert_incident firebase wall signal k none s =
      notify-keeps (λ s. s.incidents) (record { tokens = λ s c. refl; notifications = λ s c. refl })
        firebase wall _ _
  incidents-alert_incident firebase wall signal k (some d) s =
      notify-keeps (λ s. s.incidents) (record { tokens = λ s c. refl; notifications = λ s c. refl })
        firebase wall _ _

  -- The documents of the incidents after an alert.
  pub docs-alerted :
      (signal : Signal) (k : Subject) (d : Doc Incident) (c : p.Collection Incident)
      → p.docs (alerted_incidents signal k (some d) c)
        ≡ map (alert_edit d.id signal.occurred_at signal.rule.body.severity) (p.docs c)
  docs-alerted signal k d c = p.docs-update_many _ _ c

  pub docs-new :
      (signal : Signal) (k : Subject) (c : p.Collection Incident)
      → p.docs (alerted_incidents signal k none c)
        ≡ p.docs c
          ++ record { id = (p.insert (new_incident k signal) c).0.id; body = new_incident k signal }
            ∷ []
  docs-new signal k c =
      p.docs-insert _ c
      ∙ ap {A = Incident}
          (λ x.
            p.docs c ++ record { id = (p.insert (new_incident k signal) c).0.id; body = x } ∷ [])
          (p.body-insert _ c)
