-- ===== src/Notifications/Preferences/Laws.antt =====
-- A preference that is saved takes effect.
use nexusflow_backend.Prelude.{
  Bool, true, false, not, ◌&&◌, String, List, [], ◌∷◌, ◌++◌, map, Option, none, some, find, any,
  ◌≡◌, refl, ap, ◌∙◌, sym, ◌⊎◌, inl, inr, ◌===◌, Bool-cases, arith, ===_refl,
}
use nexusflow_backend.Action.{HttpError, bad_request, internal_server_error, Result, err}
use nexusflow_backend.Platform.{Doc, Platform, edit}
use nexusflow_backend.Notifications.Schemas.{NotificationPreference, Store}
use nexusflow_backend.Notifications.Rules.Access.{access_cases}
use nexusflow_backend.Notifications.Readings.{
  build_preference_filter, resolve_preference_enabled, notifications_enabled,
}
use nexusflow_backend.Notifications.Preferences.{
  normalize_channels, preference_clashes, preference, has_alert_rules_for_flow, save_preference,
  update_notification_preferences,
}

-- The saved preference passes the filter of its flow and user.
passes :
    (user_id flow_id id : String) (enabled : Bool) (channels : List String)
    → build_preference_filter flow_id user_id
        (record { id = id; body = preference user_id flow_id enabled channels })
      ≡ true
passes user_id flow_id id enabled channels = rw (===_refl user_id, ===_refl flow_id) refl

-- Behind documents that do not pass, the new one is found.
enabled_last :
    (m : Doc NotificationPreference → Bool) (d : Doc NotificationPreference)
    (ds : List (Doc NotificationPreference))
    → find m ds ≡ none
    → m d ≡ true
    → find m (ds ++ d ∷ []) ≡ some d
enabled_last m d [] h k = rw k refl
enabled_last m d (x ∷ xs) h k = ground (arith, enabled_last m d xs)

module _ (user_id flow_id : String) (enabled : Bool) (channels : List String) where
  abbrev saved : String → Doc NotificationPreference → Doc NotificationPreference
  saved id = edit (λ e. e.id === id) (λ _. preference user_id flow_id enabled channels)

  enabled_edited :
      (d : Doc NotificationPreference) (ds : List (Doc NotificationPreference))
      → find (build_preference_filter flow_id user_id) ds ≡ some d
      → resolve_preference_enabled
          (find (build_preference_filter flow_id user_id) (map (saved d.id) ds))
        ≡ enabled
  enabled_edited d [] h = cc
  enabled_edited d (x ∷ xs) h = elim (Bool-cases (x.id === d.id)) [
    | inl it ↦ rw it (rw (passes user_id flow_id x.id enabled channels) refl)
    | inr other ↦ elim (Bool-cases (build_preference_filter flow_id user_id x)) [
      | inl matches ↦
          let same : x ≡ d = ground arith in
          absurd (differs (sym (===_refl d.id) ∙ sym (ap (λ y. y.id === d.id) same) ∙ other))
      | inr fails ↦ rw (other, fails) (enabled_edited d xs (ground arith))
    ]
  ]
    where
      differs : true ≡ false → ⊥
      differs e = cc

module _ ⦃p : Platform⦄ (user_id flow_id : String) (enabled : Bool)
    (channels : Option (List String)) (s : Store p) where
  -- What an update promises: the flow notifies exactly if it was asked to, it has a rule if it was,
  -- and nothing but the preferences has changed.
  pub record IsInEffect (r : Result (Doc NotificationPreference) × Store p) : Type 0 where
    pub effect : notifications_enabled flow_id user_id r.1 ≡ enabled
    pub has_rules : enabled ≡ true → has_alert_rules_for_flow flow_id user_id s ≡ true
    pub rest : r.1 ≡ record s { preferences = r.1.preferences }

  abbrev wanted : NotificationPreference
  wanted = preference user_id flow_id enabled (normalize_channels channels)

  set_cases :
      (found : Option (Doc NotificationPreference))
      → find (build_preference_filter flow_id user_id) (p.docs s.preferences) ≡ found
      → (enabled && not (has_alert_rules_for_flow flow_id user_id s)) ≡ false
      → ((e : HttpError) × (save_preference found wanted s ≡ (err e, s)))
        ⊎ IsInEffect (save_preference found wanted s)
  unfolding notifications_enabled
  set_cases none h rules =
      elim (Bool-cases (any (λ e. preference_clashes e.body wanted) (p.docs s.preferences))) [
        | inl taken ↦ inl (internal_server_error "Internal server error", rw taken refl)
        | inr free ↦
            let id = (p.insert wanted s.preferences).0.id in
            let docs : p.docs (p.insert wanted s.preferences).1
                ≡ p.docs s.preferences ++ record { id = id; body = wanted } ∷ [] =
              p.docs-insert wanted s.preferences
              ∙ ap {A = NotificationPreference}
                  (λ b. p.docs s.preferences ++ record { id = id; body = b } ∷ [])
                  (p.body-insert wanted s.preferences) in
            inr (
              rw free (record {
                effect =
                    rw
                      (
                        docs,
                        enabled_last (build_preference_filter flow_id user_id)
                            (record { id = id; body = wanted }) (p.docs s.preferences) h
                            (passes user_id flow_id id enabled (normalize_channels channels)),
                      )
                      refl;
                has_rules = λ on. ground arith;
                rest = refl;
              }))
      ]
  set_cases (some d) h rules =
      elim (Bool-cases (
        any (λ e. not (e.id === d.id) && preference_clashes e.body wanted)
          (p.docs s.preferences))) [
            | inl taken ↦ inl (internal_server_error "Internal server error", rw taken refl)
            | inr free ↦ inr (
                rw free (record {
                  effect =
                      rw (p.docs-update_many (λ e. e.id === d.id) (λ _. wanted) s.preferences) (
                        enabled_edited user_id flow_id enabled (normalize_channels channels) d
                          (p.docs s.preferences) h);
                  has_rules = λ on. ground arith;
                  rest = refl;
                }))
          ]

  -- A request to set the preference of a flow either throws and changes nothing, or takes effect:
  -- alerts of the flow are on exactly if asked for, which needs a rule of the user, and only the
  -- preferences change.
  pub update_notification_preferences_takes_effect :
      ((e : HttpError) × (update_notification_preferences user_id flow_id enabled channels s
          ≡ (err e, s)))
      ⊎ IsInEffect (update_notification_preferences user_id flow_id enabled channels s)
  unfolding update_notification_preferences
  update_notification_preferences_takes_effect = elim (access_cases user_id flow_id s) [
    | inl (e, denied) ↦ inl (e, rw (update_notification_preferences, denied) refl)
    | inr (flow, granted, owned, flow_named, flow_stored) ↦
        elim (Bool-cases (enabled && not (has_alert_rules_for_flow flow_id user_id s))) [
          | inl refused ↦ inl (
            bad_request
                "Cannot enable notifications for a flow with no alert rules. Please create an alert rule first.",
            rw (update_notification_preferences, granted, refused) refl,
          )
          | inr fine ↦
              rw (update_notification_preferences, granted, fine)
                (set_cases (find (build_preference_filter flow_id user_id) (p.docs s.preferences))
                  refl fine)
        ]
  ]
