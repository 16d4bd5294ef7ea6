-- ===== src/Notifications/Requests/Laws.antt =====
-- What an internal request can and cannot do, and what a flow without notifications shows.
use nexusflow_backend.Prelude.{
  ℕ, ◌≡◌, refl, sym, ◌∙◌, true, false, String, none, some, Bool-cases, Option-cases, inl, inr, find,
  ◌⊎◌, ap, List, Option,
}
use nexusflow_backend.Notifications.Preferences.{update_notification_preferences}
use nexusflow_backend.Notifications.Preferences.Laws.{update_notification_preferences_takes_effect}
use nexusflow_backend.Notifications.Alerts.CoolOff.{owner_of}
use nexusflow_backend.Action.{HttpError, Result, ok, err}
use nexusflow_backend.Platform.{Doc, Platform}
use nexusflow_backend.Notifications.Schemas.{
  AlertRule, NotificationPreference, NotificationType, alert, resolved, Store,
}
use nexusflow_backend.Notifications.Condition.{validate_rule_condition}
use nexusflow_backend.Notifications.Cooldown.{TriggerConfig}
use nexusflow_backend.Notifications.Sending.{Firebase, get_flow_owner_id}
use nexusflow_backend.Notifications.Alerts.Open.{
  HasOneOpen, fire_alert_from_rule-HasOneOpen, resolve_incident_from_rule-HasOneOpen,
}
use nexusflow_backend.Notifications.Readings.Laws.{continue-pure_keeps, process_off}
use nexusflow_backend.Notifications.Readings.{
  Reading, no_rules, notifications_enabled, process_sensor_reading,
}
use nexusflow_backend.Notifications.Requests.{
  TriggerAlert, TriggerAnswer, answer_event, not_triggered, named_rule, condition_met,
  trigger_alert_from_internal,
}

module _ ⦃p : Platform⦄ (firebase : Firebase) (wall : ℕ) where
  Result-cases : (r : Result (Unit {0})) → (r ≡ ok tt) ⊎ ((e : HttpError) × (r ≡ err e))
  Result-cases (ok u) = inl refl
  Result-cases (err e) = inr (e, refl)

  -- A request is refused, or its rule and preference let it through to its event.
  trigger_cases {ℓ} :
      (P : Result TriggerAnswer × Store p → Type ℓ) (input : TriggerAlert) (s : Store p)
      → ((e : HttpError) → P (err e, s))
      → P (
        ok (not_triggered none (some "Notifications are disabled for this flow via preferences.")),
        s,
      )
      → ((d : Doc AlertRule) (user_id : String)
          → get_flow_owner_id input.flow_id s ≡ some user_id
          → notifications_enabled input.flow_id user_id s ≡ true
          → P (answer_event firebase wall input.event_type input d s))
      → P (trigger_alert_from_internal firebase wall input s)
  unfolding trigger_alert_from_internal
  trigger_cases P input s refused off answered = elim (Bool-cases (p.is_object_id input.rule_id)) [
    | inr bad_id ↦ rw (trigger_alert_from_internal, bad_id) (refused _)
    | inl named ↦ elim (Option-cases (find (named_rule firebase wall input) (p.docs s.rules))) [
      | inl missing ↦ rw (trigger_alert_from_internal, named, missing) (refused _)
      | inr (d, found) ↦
          elim (Result-cases (validate_rule_condition input.operator input.condition)) [
            | inr (e, bad) ↦ rw (trigger_alert_from_internal, named, found, bad) (refused e)
            | inl valid ↦ elim (Option-cases (get_flow_owner_id input.flow_id s)) [
              | inl nobody ↦
                  rw (trigger_alert_from_internal, named, found, valid, nobody) (refused _)
              | inr (user_id, owner) ↦
                  elim (Bool-cases (notifications_enabled input.flow_id user_id s)) [
                    | inl on ↦
                        rw (trigger_alert_from_internal, named, found, valid, owner, on)
                          (answered d user_id owner on)
                    | inr is_off ↦
                        rw (trigger_alert_from_internal, named, found, valid, owner, is_off) off
                  ]
            ]
          ]
    ]
  ]

  answer_event-HasOneOpen :
      (event : NotificationType) (input : TriggerAlert) (d : Doc AlertRule) (s : Store p)
      → HasOneOpen s
      → HasOneOpen (answer_event firebase wall event input d s).1
  answer_event-HasOneOpen resolved input d s h =
      continue-pure_keeps _ _ _ (resolve_incident_from_rule-HasOneOpen firebase wall _ s h)
  answer_event-HasOneOpen alert input d s h = elim (Bool-cases (condition_met input)) [
    | inr unmet ↦ rw unmet h
    | inl met ↦
        rw met (continue-pure_keeps _ _ _ (fire_alert_from_rule-HasOneOpen firebase wall _ s h))
  ]

  -- An internal request for an alert or a resolution keeps the invariant that no subject has more
  -- than one open incident.
  pub trigger_alert_from_internal-HasOneOpen :
      (input : TriggerAlert) (s : Store p)
      → HasOneOpen s
      → HasOneOpen (trigger_alert_from_internal firebase wall input s).1
  trigger_alert_from_internal-HasOneOpen input s h =
      trigger_cases (λ r. HasOneOpen r.1) input s (λ e. h) h
        (λ d user_id owner on. answer_event-HasOneOpen input.event_type input d s h)

  -- A request of another service that has come to nothing.
  abbrev pub IsUnanswered : Store p → Result TriggerAnswer × Store p → Type 0
  IsUnanswered s r =
      ((e : HttpError) × (r ≡ (err e, s)))
      ⊎ (r ≡ (
        ok (not_triggered none (some "Notifications are disabled for this flow via preferences.")),
        s,
      ))

  trigger_off :
      (input : TriggerAlert) (user_id : String) (s : Store p)
      → get_flow_owner_id input.flow_id s ≡ some user_id
      → notifications_enabled input.flow_id user_id s ≡ false
      → IsUnanswered s (trigger_alert_from_internal firebase wall input s)
  trigger_off input user_id s owner off =
      trigger_cases (IsUnanswered s) input s (λ e. inl (e, refl)) (inr refl)
        (λ d other found on. absurd (contradiction other found on))
    where
      contradiction :
          (other : String)
          → get_flow_owner_id input.flow_id s ≡ some other
          → notifications_enabled input.flow_id other s ≡ true
          → ⊥
      contradiction other found on = cc (sym found ∙ owner)

  -- After the owner of a flow has turned its notifications off by a request that was accepted, a
  -- reading of the flow counts nothing and leaves the state as it is, and an internal request for
  -- it is answered with an error or with that notifications are disabled, and leaves the state as
  -- well.
  pub notifications_off_silent :
      (config : TriggerConfig) (reading : Reading) (input : TriggerAlert) (user_id : String)
      (channels : Option (List String)) (s s' : Store p) {d : Doc NotificationPreference}
      → reading.flow_id ≡ input.flow_id
      → get_flow_owner_id input.flow_id s ≡ some user_id
      → update_notification_preferences user_id input.flow_id false channels s ≡ (ok d, s')
      → (process_sensor_reading firebase config wall reading s' ≡ (ok no_rules, s'))
        × IsUnanswered s' (trigger_alert_from_internal firebase wall input s')
  notifications_off_silent config reading input user_id channels s s' {d} same owner saved =
      elim (update_notification_preferences_takes_effect user_id input.flow_id false channels s) [
        | inl (e, refused) ↦ absurd (differs e (sym refused ∙ saved))
        | inr effect ↦
            let off : notifications_enabled input.flow_id user_id s' ≡ false =
              ap (λ r. notifications_enabled input.flow_id user_id r.1) (sym saved)
              ∙ effect.effect in
            let flows : s'.flows ≡ s.flows =
              ap (λ r. r.1.flows) (sym saved) ∙ ap (λ t. t.flows) effect.rest in
            let owner' : get_flow_owner_id input.flow_id s' ≡ some user_id =
              owner_of input.flow_id s' s flows ∙ owner in
            (
              process_off firebase config wall reading user_id s'
                  (ap (λ f. get_flow_owner_id f s') same ∙ owner')
                  (ap (λ f. notifications_enabled f user_id s') same ∙ off),
              trigger_off input user_id s' owner' off,
            )
      ]
    where
      differs :
          (e : HttpError)
          → ◌≡◌ {A = Result (Doc NotificationPreference) × Store p} (err e, s) (ok d, s')
          → ⊥
      differs e k = cc
