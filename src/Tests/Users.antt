-- ===== src/Tests/Users.antt =====
-- What a user does with notifications: handling one, and turning them off.
use nexusflow_backend.Prelude.{◌≡◌, ◌⊎◌, true, false, none, [], ◌∷◌, All, refl, is_empty}
use nexusflow_backend.Action.{HttpError, err}
use nexusflow_backend.Platform.{Doc}
use nexusflow_backend.Platform.Memory.{memory, holding}
use nexusflow_backend.Notifications.Schemas.{Notification, Store, critical, alert}
use nexusflow_backend.Notifications.Receipts.{mark_notification_handled}
use nexusflow_backend.Notifications.Receipts.Laws.{
  IsHandled, IsRefused, mark_notification_handled_holds,
}
use nexusflow_backend.Notifications.Preferences.{update_notification_preferences}
use nexusflow_backend.Notifications.Preferences.Laws.{
  IsInEffect, update_notification_preferences_takes_effect,
}
use nexusflow_backend.Tests.Samples.{store}

abbrev pending : Notification
pending = record {
  user_id = "u";
  incident_id = "1";
  device_id = "d";
  rule_id = "1";
  severity = critical;
  title = "Gas";
  body = "Gas";
  payload = [];
  sent_at = 1000;
  received_at = none;
  handled_at = none;
  type = alert;
}

abbrev notified : Store memory
notified = record store { notifications = holding (pending ∷ pending ∷ []) }

named :
    All (λ d. memory.is_object_id d.body.incident_id ≡ true) (memory.docs notified.notifications)
unfolding is_empty
named = (refl, (refl, tt))

mark_notification_handled_example :
    ((e : HttpError) × IsRefused "u" "1" 2000 notified
      × (mark_notification_handled "u" "1" 2000 notified ≡ (err e, notified)))
    ⊎ ((d : Doc Notification) × IsHandled "u" "1" 2000 notified d
          (mark_notification_handled "u" "1" 2000 notified))
mark_notification_handled_example = mark_notification_handled_holds "u" "1" 2000 notified named

update_notification_preferences_example :
    ((e : HttpError) × (update_notification_preferences "u" "1" false none store ≡ (err e, store)))
    ⊎ IsInEffect "u" "1" false none store (update_notification_preferences "u" "1" false none store)
update_notification_preferences_example =
    update_notification_preferences_takes_effect "u" "1" false none store
