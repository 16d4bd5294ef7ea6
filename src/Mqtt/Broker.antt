-- ===== src/Mqtt/Broker.antt =====
-- The clients that the broker holds, from mqtt/mqtt.service.ts, and the sessions of devices in the
-- cache, from mqtt/mqtt.handlers.ts.
pub mod Memory
use nexusflow_backend.Prelude.{
  ℕ, ◌≡◌, ◌≢◌, Bool, true, false, not, ◌&&◌, ◌||◌, String, List, [], ◌∷◌, map, Option, none, some,
  is_empty, is_some, any, length, ◌===◌, ◌⧺◌, leb, ltb, if◌then◌else◌, select, trim, get_or,
}
use nexusflow_backend.Mqtt.Topics.{normalize_mac_address}
use nexusflow_backend.Mqtt.Access.{Client}

-- The entries of the cache that are set with a time to live of 0, so without a limit.
pub record SessionCache : Type 1 where
  pub Entries : Type 0
  pub get : String → Entries → Option String
  pub set : String → String → Entries → Entries
  pub del : String → Entries → Entries
  pub get-set_self : (k v : String) (c : Entries) → get k (set k v c) ≡ some v
  pub get-set_ne : (k j v : String) (c : Entries) → k ≢ j → get j (set k v c) ≡ get j c
  pub get-del_self : (k : String) (c : Entries) → get k (del k c) ≡ none
  pub get-del_ne : (k j : String) (c : Entries) → k ≢ j → get j (del k c) ≡ get j c

-- `isClientConnected`
unfoldable pub is_client_connected : List Client → String → Bool
is_client_connected clients id =
    any (λ (c : Client). normalize_mac_address c.id === normalize_mac_address id) clients

-- `value && …` on a text that may be missing.
abbrev pub is_given : Option String → Bool
is_given none = false
is_given (some s) = not (is_empty s)

abbrev pub is_text : String → Option String → Bool
is_text s none = false
is_text s (some t) = t === s

-- `getActiveUserSessionCount`. A client without flags has no user id.
unfoldable pub get_active_user_session_count : List Client → String → ℕ
get_active_user_session_count clients user_id =
    if is_empty (trim user_id)
    then 0
    else length (
        select
          (λ (c : Client).
            not c.is_esp
            && c.is_user_client
            && is_given c.user_id
            && is_given c.mqtt_username
            && not (is_empty c.id)
            && is_text (trim user_id) c.user_id)
          clients)

abbrev is_other_mac : String → Option String → Bool
is_other_mac mac none = false
is_other_mac mac (some m) =
    not (is_empty m) && (is_empty mac || not (normalize_mac_address m === mac))

-- `getActiveOwnerDeviceSessionCount`
unfoldable pub get_active_owner_device_session_count : List Client → String → String → ℕ
get_active_owner_device_session_count clients owner_id mac =
    if is_empty (trim owner_id)
    then 0
    else length (
        select
          (λ (c : Client).
            c.is_esp
            && is_given c.owner_id
            && is_text (trim owner_id) c.owner_id
            && is_other_mac (normalize_mac_address mac) c.device_mac)
          clients)

abbrev pub session_key : String → String
session_key mac = "mqtt:esp:" ⧺ mac

module _ (c : SessionCache) where
  abbrev pub reserve : List Client → String → String → c.Entries → Option String → Bool × c.Entries
  reserve clients key id entries none = (true, c.set key id entries)
  reserve clients key id entries (some active) =
      if is_empty active
      then (true, c.set key id entries)
      else if active === id
      then (true, entries)
      else if not (is_client_connected clients active)
      then (true, c.set key id entries)
      else (false, entries)

  -- `reserveEspSession`
  unfoldable pub reserve_esp_session : List Client → String → String → c.Entries → Bool × c.Entries
  reserve_esp_session clients device_mac client_id entries =
      let key = session_key (normalize_mac_address device_mac) in
      reserve clients key (trim client_id) entries (c.get key entries)

  -- `onClientDisconnect`: what it does to the session of a device.
  unfoldable pub end_session : Client → c.Entries → c.Entries
  end_session client entries =
      let key = session_key (normalize_mac_address (get_or client.device_mac client.id)) in
      if not (is_empty client.id) && client.is_esp && is_text client.id (c.get key entries)
      then c.del key entries
      else entries
