-- ===== src/Notifications/Preferences.antt =====
-- Whether a flow notifies its owner, from notifications.service.ts: `updateNotificationPreferences`,
-- `getNotificationPreferences` and `createDefaultNotificationPreference`.
pub mod Laws
use nexusflow_backend.Prelude.{
  Bool, true, false, not, ◌&&◌, ◌||◌, String, List, [], ◌∷◌, map, Option, none, some, any, select,
  distinct, trim, to_lower_case, is_empty, ◌===◌, if◌then◌else◌,
}
use nexusflow_backend.Action.{
  HttpError, bad_request, not_found, internal_server_error, Result, ok, err, Action, pure, reads,
  throw_if, or_throw, writes, ◌>>=◌, ◌>>◌,
}
use nexusflow_backend.Platform.{Doc, Platform}
use nexusflow_backend.Platform.Query.{find_one, has_some, update_by_id, create}
use nexusflow_backend.Notifications.Schemas.{NotificationPreference, Store}
use nexusflow_backend.Notifications.Rules.{assert_user_can_access_flow}
use nexusflow_backend.Notifications.Readings.{build_preference_filter}

-- `normalizeChannels`
unfoldable pub normalize_channels : Option (List String) → List String
normalize_channels none = "push" ∷ []
normalize_channels (some channels) =
    elim (distinct ◌===◌
      (select (λ c. not (is_empty c)) (map (λ c. to_lower_case (trim c)) channels))) [
        | [] ↦ "push" ∷ []
        | c ∷ cs ↦ c ∷ cs
      ]

-- The unique index of the collection.
abbrev pub preference_clashes : NotificationPreference → NotificationPreference → Bool
preference_clashes a b = a.flow_id === b.flow_id && a.user_id === b.user_id

abbrev pub preference : String → String → Bool → List String → NotificationPreference
preference user_id flow_id enabled channels = record {
  flow_id = flow_id;
  project_id = some flow_id;
  user_id = user_id;
  notifications_enabled = enabled;
  channels = channels;
}

module _ ⦃p : Platform⦄ where
  -- `hasAlertRulesForFlow`
  unfoldable pub has_alert_rules_for_flow : String → String → Store p → Bool
  has_alert_rules_for_flow flow_id user_id s =
      has_some (λ d. d.body.flow_id === flow_id && d.body.user_id === user_id) s.rules

  -- `save` of a new or a found document; an index that is violated makes it throw.
  abbrev pub save_preference :
      Option (Doc NotificationPreference)
      → NotificationPreference
      → Action (Store p) (Doc NotificationPreference)
  save_preference none b s =
      if any (λ e. preference_clashes e.body b) (p.docs s.preferences)
      then (err (internal_server_error "Internal server error"), s)
      else (
        ok (p.insert b s.preferences).0,
        record s { preferences = (p.insert b s.preferences).1 },
      )
  save_preference (some d) b s =
      if any (λ e. not (e.id === d.id) && preference_clashes e.body b) (p.docs s.preferences)
      then (err (internal_server_error "Internal server error"), s)
      else (
        ok (record d { body = b }),
        record s { preferences = update_by_id d.id (λ _. b) s.preferences },
      )

  -- `updateNotificationPreferences`: the document as it was saved.
  unfoldable pub update_notification_preferences :
      String → String → Bool → Option (List String) → Action (Store p) (Doc NotificationPreference)
  update_notification_preferences user_id flow_id enabled channels = do
    assert_user_can_access_flow user_id flow_id
    has_rules ← reads (has_alert_rules_for_flow flow_id user_id)
    throw_if (enabled && not has_rules) (
        bad_request
          "Cannot enable notifications for a flow with no alert rules. Please create an alert rule first.")
    existing ← reads (λ s. find_one (build_preference_filter flow_id user_id) s.preferences)
    save_preference existing (preference user_id flow_id enabled (normalize_channels channels))

  -- `getNotificationPreferences`
  unfoldable pub get_notification_preferences :
      String → String → Action (Store p) (Doc NotificationPreference)
  get_notification_preferences user_id flow_id = do
    assert_user_can_access_flow user_id flow_id
    found ← reads (λ s. find_one (build_preference_filter flow_id user_id) s.preferences)
    or_throw (not_found "Preferences not found for this flow.") found

  -- `createDefaultNotificationPreference`
  unfoldable pub create_default_notification_preference :
      String → String → Action (Store p) (Unit {0})
  create_default_notification_preference user_id flow_id = writes (λ s.
      if has_some (λ d. d.body.flow_id === flow_id && d.body.user_id === user_id) s.preferences
      then s
      else record s {
        preferences = (p.insert (preference user_id flow_id true ("push" ∷ [])) s.preferences).1;
      })
