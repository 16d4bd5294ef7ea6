-- ===== src/Notifications/Readings/Tally.antt =====
-- What the counts that a reading answers stand for.
use nexusflow_backend.Prelude.{
  ℕ, suc, ◌+◌, ◌≤◌, ◌≡◌, refl, ap, ◌∙◌, Bool, true, false, ◌||◌, String, List, [], ◌∷◌, map, Option,
  none, some, is_some, Number, length, length-append, select, arith, Bool-cases, Option-cases, inl,
  inr, get_or, is_empty, trim, ◌⧺◌, if◌then◌else◌,
}
use nexusflow_backend.Action.{Result, ok, err, continue, Action, pure}
use nexusflow_backend.Platform.{Doc, Platform}
use nexusflow_backend.Notifications.Schemas.{AlertRule, Incident, Store}
use nexusflow_backend.Notifications.Payload.{Notice, entry}
use nexusflow_backend.Notifications.Condition.{matches_operator}
use nexusflow_backend.Notifications.Cooldown.{TriggerConfig, should_trigger_rule}
use nexusflow_backend.Notifications.Policy.{normalize_reading_key}
use nexusflow_backend.Notifications.Sending.{Firebase, Delivery, get_flow_owner_id}
use nexusflow_backend.Notifications.Sending.Laws.{send_alert_to_flow_owner-rest}
use nexusflow_backend.Notifications.Incidents.{
  Signal, Subject, Outcome, subject_of, should_send_incident_notification,
}
use nexusflow_backend.Notifications.Alerts.{
  notify, send_notice, notification_of, delivered, alert_incident, fire_about, fire_alert_from_rule,
  find_open_incident, get_flow_notification_device_id,
}
use nexusflow_backend.Notifications.Readings.{
  Reading, Counts, no_rules, Verdict, skipped, evaluated, triggered, counted, finite_reading,
  rule_bounds, notifications_enabled, verdict_of, evaluate_rule, process_rules, rules_for,
  process_sensor_reading,
}

module _ ⦃p : Platform⦄ where
  abbrev pub stored_notifications : Store p → ℕ
  stored_notifications s = length (p.docs s.notifications)

  -- From `n` notifications, an outcome that is not suppressed has stored one more.
  AddsOne : ℕ → Result Outcome × Store p → Type 0
  AddsOne n (ok o, s) = stored_notifications s ≡ n + (if o.suppressed then 0 else 1)
  AddsOne n (err e, s) = n ≤ stored_notifications s

  length-map : {A B : Type 0} (f : A → B) (xs : List A) → length (map f xs) ≡ length xs
  length-map f [] = refl
  length-map f (x ∷ xs) = ap suc (length-map f xs)

  adds :
      (n : Notice) (id : String) (r : Result Delivery) (s : Store p) (m : ℕ)
      → stored_notifications s ≡ suc m
      → AddsOne m (continue r (λ delivery. pure (delivered n id delivery)) s)
  unfolding AddsOne
  adds n id (ok delivery) s m h = omega (arith, h)
  adds n id (err e) s m h = omega (arith, h)

  -- The same for what a reading came to for one rule.
  AddsVerdict : ℕ → Result Verdict × Store p → Type 0
  AddsVerdict n (ok skipped, s) = ⊥
  AddsVerdict n (ok evaluated, s) = stored_notifications s ≡ n
  AddsVerdict n (ok triggered, s) = stored_notifications s ≡ n + 1
  AddsVerdict n (err e, s) = n ≤ stored_notifications s

  AddsVerdict-of :
      (n : ℕ) (r : Result Outcome) (s : Store p)
      → AddsOne n (r, s)
      → AddsVerdict n (continue r (λ fired. pure (verdict_of fired)) s)
  unfolding AddsOne AddsVerdict
  AddsVerdict-of n (err e) s h = h
  AddsVerdict-of n (ok fired) s h = elim (Bool-cases fired.suppressed) [
    | inl held ↦ rw held (ground arith)
    | inr sent ↦ rw sent (ground arith)
  ]

  -- An answer to some rules, from a number of notifications and from counts.
  AreCounted : (rules before : ℕ) → Counts → Result Counts × Store p → Type 0
  AreCounted rules before c (ok c', s) =
      (c'.evaluated_rules ≡ c.evaluated_rules + rules)
      × (stored_notifications s + c.triggered_rules ≡ before + c'.triggered_rules)
      × (c'.triggered_rules + c.evaluated_rules ≤ c'.evaluated_rules + c.triggered_rules)
  AreCounted rules before c (err e, s) = before ≤ stored_notifications s

  one_evaluated :
      (rules n m : ℕ) (c : Counts) (r : Result Counts × Store p)
      → m ≡ n
      → AreCounted rules m (counted evaluated c) r
      → AreCounted (suc rules) n c r
  unfolding AreCounted
  one_evaluated rules n m c (ok c', s) e h =
      (omega (arith, h.0), omega (arith, h.1), omega (arith, h.2))
  one_evaluated rules n m c (err x, s) e h = omega (arith, h)

  one_triggered :
      (rules n m : ℕ) (c : Counts) (r : Result Counts × Store p)
      → m ≡ n + 1
      → AreCounted rules m (counted triggered c) r
      → AreCounted (suc rules) n c r
  unfolding AreCounted
  one_triggered rules n m c (ok c', s) e h =
      (omega (arith, h.0), omega (arith, h.1), omega (arith, h.2))
  one_triggered rules n m c (err x, s) e h = omega (arith, h)

  AreCounted-continue :
      (rules n : ℕ) (c : Counts) (r : Result Verdict) (s : Store p)
      (f : Counts → Action (Store p) Counts)
      → AddsVerdict n (r, s)
      → ((c : Counts) (s : Store p) → AreCounted rules (stored_notifications s) c (f c s))
      → AreCounted (suc rules) n c (continue r (λ v. f (counted v c)) s)
  unfolding AddsVerdict AreCounted
  AreCounted-continue rules n c (ok skipped) s f h k = absurd h
  AreCounted-continue rules n c (ok evaluated) s f h k =
      one_evaluated rules n (stored_notifications s) c _ h (k (counted evaluated c) s)
  AreCounted-continue rules n c (ok triggered) s f h k =
      one_triggered rules n (stored_notifications s) c _ h (k (counted triggered c) s)
  AreCounted-continue rules n c (err e) s f h k = h

  -- The reading has a finite value for the rule.
  abbrev pub has_value : Reading → Doc AlertRule → Bool
  has_value reading d =
      is_some (finite_reading (entry (normalize_reading_key d.body.reading_key) reading.readings))

  -- The counts of the answer: each rule is evaluated, and each that counts as triggered has stored
  -- a notification.
  abbrev pub IsTally : (rules before : ℕ) → Result Counts × Store p → Type 0
  IsTally rules before (ok c, s) =
      (c.evaluated_rules ≡ rules)
      × (stored_notifications s ≡ before + c.triggered_rules)
      × (c.triggered_rules ≤ c.evaluated_rules)
  IsTally rules before (err e, s) = before ≤ stored_notifications s

  tallied :
      (rules before : ℕ) (r : Result Counts × Store p)
      → AreCounted rules before no_rules r
      → IsTally rules before r
  unfolding AreCounted
  tallied rules before (ok c, s) h = (omega (arith, h.0), omega (arith, h.1), omega (arith, h.2))
  tallied rules before (err e, s) h = h

  module _ (firebase : Firebase) (wall : ℕ) where
    send_notice-AddsOne :
        (n : Notice) (s : Store p)
        → AddsOne (stored_notifications s) (send_notice firebase wall n s)
    unfolding send_notice AddsOne
    send_notice-AddsOne n s = adds n _ _ _ _ (
        ap stored_notifications (send_alert_to_flow_owner-rest firebase _ wall _)
        ∙ ap length (p.docs-update_many _ _ _)
        ∙ length-map _ (p.docs (p.insert (notification_of n) s.notifications).1)
        ∙ ap length (p.docs-insert (notification_of n) s.notifications)
        ∙ length-append (p.docs s.notifications) _
        ∙ omega arith)

    notify-AddsOne :
        (n : Notice) (s : Store p) → AddsOne (stored_notifications s) (notify firebase wall n s)
    unfolding notify AddsOne
    notify-AddsOne n s = elim (Bool-cases (is_empty n.title || is_empty n.body)) [
      | inl refused ↦ rw refused (omega arith)
      | inr fine ↦ rw fine (send_notice-AddsOne n s)
    ]

    alert_incident-AddsOne :
        (signal : Signal) (k : Subject) (found : Option (Doc Incident)) (s : Store p)
        → AddsOne (stored_notifications s) (alert_incident firebase wall signal k found s)
    unfolding alert_incident
    alert_incident-AddsOne signal k none s = notify-AddsOne _ _
    alert_incident-AddsOne signal k (some d) s = notify-AddsOne _ _

    fire-AddsOne :
        (signal : Signal) (s : Store p)
        → AddsOne (stored_notifications s) (fire_alert_from_rule firebase wall signal s)
    unfolding fire_alert_from_rule fire_about AddsOne
    fire-AddsOne signal s = elim (Option-cases (get_flow_owner_id signal.flow_id s)) [
      | inl missing ↦ rw (fire_alert_from_rule, missing) (omega arith)
      | inr (user_id, owner) ↦
          let k = subject_of user_id (get_flow_notification_device_id signal.flow_id s) signal in
          let found = find_open_incident k s.incidents in
          elim (Bool-cases (should_send_incident_notification found signal.occurred_at)) [
            | inl sends ↦
                rw (fire_alert_from_rule, owner, sends) (alert_incident-AddsOne signal k found s)
            | inr waits ↦ rw (fire_alert_from_rule, owner, waits) (omega arith)
          ]
    ]

  module _ (firebase : Firebase) (config : TriggerConfig) (wall : ℕ) where
    evaluate_rule-AddsVerdict :
        (reading : Reading) (occurred_at : ℕ) (d : Doc AlertRule) (value : Number) (s : Store p)
        → AddsVerdict
            (stored_notifications s)
            (evaluate_rule firebase config wall reading occurred_at d value s)
    unfolding evaluate_rule AddsVerdict
    evaluate_rule-AddsVerdict reading occurred_at d value s =
        let (fires, triggers) =
          should_trigger_rule config wall (reading.flow_id ⧺ ":" ⧺ d.id) d.body.module_id
            occurred_at s.triggers in
        elim (Bool-cases (matches_operator d.body.operator value (rule_bounds d.body))) [
          | inr fails ↦ rw (evaluate_rule, fails) refl
          | inl matched ↦ elim (Bool-cases fires) [
            | inr waits ↦ rw (evaluate_rule, matched, waits) refl
            | inl due ↦
                rw (evaluate_rule, matched, due)
                  (AddsVerdict-of (stored_notifications s) _ _
                    (fire-AddsOne firebase wall _ (record s { triggers = triggers })))
          ]
        ]

    process_rules-AreCounted :
        (reading : Reading) (occurred_at : ℕ) (ds : List (Doc AlertRule)) (c : Counts) (s : Store p)
        → AreCounted
            (length (select (has_value reading) ds))
            (stored_notifications s)
            c
            (process_rules firebase config wall reading occurred_at ds c s)
    unfolding process_rules AreCounted
    process_rules-AreCounted reading occurred_at [] c s = (omega arith, omega arith, omega arith)
    process_rules-AreCounted reading occurred_at (d ∷ ds) c s =
        elim (Option-cases
          (finite_reading (entry (normalize_reading_key d.body.reading_key) reading.readings))) [
            | inl missing ↦
                rw (process_rules, missing) (process_rules-AreCounted reading occurred_at ds c s)
            | inr (value, given) ↦
                rw (process_rules, given)
                  (AreCounted-continue (length (select (has_value reading) ds)) _ c
                    (evaluate_rule firebase config wall reading occurred_at d value s).0
                    (evaluate_rule firebase config wall reading occurred_at d value s).1
                    (process_rules firebase config wall reading occurred_at ds)
                    (evaluate_rule-AddsVerdict reading occurred_at d value s)
                    (process_rules-AreCounted reading occurred_at ds))
          ]

    -- For a reading of an owned flow whose notifications are on, its id and that of its node
    -- given: if it is answered, as many rules count as evaluated as the node has enabled rules
    -- for which the reading has a finite value, and as many count as triggered as notifications
    -- were stored, which are no more. If it fails, no notification is lost.
    pub process_sensor_reading-IsTally :
        (reading : Reading) (user_id : String) (s : Store p)
        → p.is_object_id reading.flow_id ≡ true
        → is_empty (trim reading.node_id) ≡ false
        → get_flow_owner_id reading.flow_id s ≡ some user_id
        → notifications_enabled reading.flow_id user_id s ≡ true
        → IsTally
            (length (select (has_value reading) (rules_for reading s)))
            (stored_notifications s)
            (process_sensor_reading firebase config wall reading s)
    unfolding process_sensor_reading
    process_sensor_reading-IsTally reading user_id s valid named owner on =
        rw (process_sensor_reading, valid, named, owner, on)
          (tallied _ _ _ (
            process_rules-AreCounted reading (get_or reading.occurred_at wall) (rules_for reading s)
              no_rules s))
