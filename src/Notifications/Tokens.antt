-- ===== src/Notifications/Tokens.antt =====
-- Registering the phones of users, from notifications.service.ts: `registerDeviceToken` and
-- `unregisterDeviceToken`.
pub mod Apart
pub mod Laws
use package.text.Mathlib.Text.{find?}
use nexusflow_backend.Prelude.{
  ℕ, zero, suc, ◌+◌, ◌<◌, Bool, true, false, not, ◌&&◌, ◌||◌, String, List, [], ◌∷◌, ◌++◌, map,
  Option, none, some, trim, is_empty, length, take, drop, any, collect, distinct, is_some, ◌===◌,
  ◌⧺◌, if◌then◌else◌, select, get_or,
}
use nexusflow_backend.Value.{Value, text}
use nexusflow_backend.Action.{
  HttpError, internal_server_error, Result, ok, err, Action, pure, lift, reads, writes, ◌>>=◌, ◌>>◌,
  throw,
}
use nexusflow_backend.Platform.{Doc, Platform}
use nexusflow_backend.Platform.Query.{
  find_all, find_one, find_by_id, has_some, update_by_id, create,
}
use nexusflow_backend.Notifications.Schemas.{
  Severity, critical, warning, info, MobilePlatform, NotificationDeviceToken, Flow, Store,
}
use nexusflow_backend.Notifications.Payload.{
  Entries, put_entry, normalize_data_payload, severity_name,
}

pub record RegisterNotificationDevice : Type 0 where
  pub device_id : String
  pub platform : MobilePlatform
  pub fcm_token : String
  pub app_version : Option String
  pub locale : Option String

-- The unique indexes of the collection: `fcmToken`, and `userId` with `deviceId`.
abbrev pub token_clashes : NotificationDeviceToken → NotificationDeviceToken → Bool
token_clashes a b =
    a.fcm_token === b.fcm_token || a.user_id === b.user_id && a.device_id === b.device_id

-- A token as it is registered now.
abbrev pub registered : String → RegisterNotificationDevice → ℕ → NotificationDeviceToken
registered user_id dto now = record {
  user_id = user_id;
  device_id = dto.device_id;
  platform = dto.platform;
  fcm_token = dto.fcm_token;
  is_active = true;
  last_error = none;
  invalidated_at = none;
  last_seen_at = now;
  app_version = dto.app_version;
  locale = dto.locale;
}

-- A token of the same text that belongs to another user or another device.
abbrev pub is_taken : String → RegisterNotificationDevice → Doc NotificationDeviceToken → Bool
is_taken user_id dto d =
    d.body.fcm_token === dto.fcm_token
    && (not (d.body.user_id === user_id) || not (d.body.device_id === dto.device_id))

abbrev pub is_of : String → String → Doc NotificationDeviceToken → Bool
is_of user_id device_id d = d.body.user_id === user_id && d.body.device_id === device_id

module _ ⦃p : Platform⦄ where
  -- Saves the tokens, or reports a unique index that is violated.
  abbrev saved :
      Option (Doc NotificationDeviceToken × p.Collection NotificationDeviceToken)
      → Action (Store p) String
  saved none s = (err (internal_server_error "Internal server error"), s)
  saved (some (d, c)) s = (ok d.id, record s { tokens = c })

  -- `registerDeviceToken`: the id of the token. An existing one is edited in place.
  unfoldable pub register_device_token :
      String → RegisterNotificationDevice → ℕ → Action (Store p) String
  register_device_token user_id dto now = do
    writes (λ s. record s { tokens = p.delete_many (is_taken user_id dto) s.tokens })
    existing ← reads (λ s. find_one (is_of user_id dto.device_id) s.tokens)
    elim existing [
      | some d ↦ do
        writes (λ s. record s {
          tokens = update_by_id d.id (λ _. registered user_id dto now) s.tokens;
        })
        pure d.id
      | none ↦ λ s. saved (create token_clashes (registered user_id dto now) s.tokens) s
    ]

  -- `unregisterDeviceToken`
  unfoldable pub unregister_device_token : String → String → Action (Store p) Bool
  unregister_device_token user_id device_id = if is_empty (trim device_id) then pure false else (do
    found ← reads (λ s. has_some (is_of user_id (trim device_id)) s.tokens)
    writes (λ s. record s { tokens = p.delete_many (is_of user_id (trim device_id)) s.tokens })
    pure found)
