-- ===== src/Notifications/Receipts.antt =====
-- What users tell about their notifications, from notifications.service.ts:
-- `recordNotificationReceipts` and `markNotificationHandled`.
pub mod Laws
use nexusflow_backend.Prelude.{
  ℕ, Bool, true, false, not, ◌&&◌, ◌||◌, String, List, [], ◌∷◌, map, Option, none, some, any,
  select, length, distinct, trim, is_empty, is_some, get_or, ◌===◌, if◌then◌else◌,
}
use nexusflow_backend.Action.{
  HttpError, forbidden, not_found, internal_server_error, Result, ok, err, Action, pure, reads,
  writes, throw_if, or_throw, ◌>>=◌, ◌>>◌,
}
use nexusflow_backend.Platform.{Doc, Platform}
use nexusflow_backend.Platform.Query.{find_by_id, find_one, update_by_id}
use nexusflow_backend.Notifications.Schemas.{Notification, Incident, Store}

abbrev pub trimmed_ids : List String → List String
trimmed_ids ids = distinct ◌===◌ (select (λ id. not (is_empty id)) (map trim ids))

abbrev pub received : ℕ → Notification → Notification
received at n = record n { received_at = some at }

-- What handling writes to the notification itself: its first receipt stays.
abbrev pub handled : ℕ → Notification → Notification
handled now n = record n { handled_at = some now; received_at = some (get_or n.received_at now) }

-- What it writes to the other pending notifications of the incident.
abbrev pub swept : ℕ → Notification → Notification
swept now n = record n { handled_at = some now; received_at = some now }

abbrev pub acknowledged : ℕ → Incident → Incident
acknowledged now i = record i { user_acknowledged_at = some now }

-- Another notification of the incident that is still pending.
abbrev pub is_pending_beside : String → Doc Notification → Doc Notification → Bool
is_pending_beside user_id d e =
    e.body.incident_id === d.body.incident_id
    && e.body.user_id === user_id
    && not (is_some e.body.handled_at)
    && not (e.id === d.id)

module _ ⦃p : Platform⦄ where
  abbrev receive : ℕ → List String → Action (Store p) ℕ
  receive at [] = pure 0
  receive at (id ∷ ids) = do
    throw_if (any (λ i. not (p.is_object_id i)) (id ∷ ids))
        (internal_server_error "Internal server error")
    writes (λ s. record s {
      notifications =
          p.update_many (λ d. any (λ i. i === d.id) (id ∷ ids)) (received at) s.notifications;
    })
    pure (length (id ∷ ids))

  -- `recordNotificationReceipts`: the count of the answer.
  unfoldable pub record_notification_receipts : List String → Option ℕ → ℕ → Action (Store p) ℕ
  record_notification_receipts notification_ids received_at now =
      receive (get_or received_at now) (trimmed_ids notification_ids)

  -- `getOwnedNotificationOrThrow`
  unfoldable pub get_owned_notification : String → String → Action (Store p) (Doc Notification)
  get_owned_notification user_id notification_id = do
    throw_if (not (p.is_object_id notification_id)) (not_found "Notification not found.")
    found ← reads (λ s. find_by_id notification_id s.notifications)
    d ← or_throw (not_found "Notification not found.") found
    throw_if (not (d.body.user_id === user_id))
        (forbidden "You are not allowed to update this notification.")
    pure d

  abbrev pub acknowledge : ℕ → Option (Doc Incident) → Store p → Store p
  acknowledge now none s = s
  acknowledge now (some i) s = record s {
    incidents = update_by_id i.id (acknowledged now) s.incidents;
  }

  -- `markNotificationHandled`: the notification as it was saved.
  unfoldable pub mark_notification_handled :
      String → String → ℕ → Action (Store p) (Doc Notification)
  mark_notification_handled user_id notification_id now = do
    d ← get_owned_notification user_id notification_id
    writes (λ s. record s { notifications = update_by_id d.id (handled now) s.notifications })
    throw_if (not (p.is_object_id d.body.incident_id))
        (internal_server_error "Internal server error")
    incident ←
        reads (λ s.
          find_one (λ i. i.id === d.body.incident_id && i.body.user_id === user_id) s.incidents)
    writes (acknowledge now incident)
    writes (λ s. record s {
      notifications = p.update_many (is_pending_beside user_id d) (swept now) s.notifications;
    })
    pure (record d { body = handled now d.body })
