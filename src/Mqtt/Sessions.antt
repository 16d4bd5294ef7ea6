-- ===== src/Mqtt/Sessions.antt =====
-- How the broker lets a client in: `onAuthenticate` of mqtt/mqtt.handlers.ts.
pub mod Owners
pub mod Exclusive
use nexusflow_backend.Prelude.{
  ℕ, ◌≡◌, ◌≢◌, Bool, true, false, not, ◌&&◌, ◌||◌, String, List, [], ◌∷◌, map, Option, none, some,
  is_empty, is_some, any, length, ◌===◌, ◌⧺◌, leb, ltb, if◌then◌else◌, select, trim, get_or,
}
use nexusflow_backend.Action.{HttpError, bad_request, not_found}
use nexusflow_backend.Platform.{Doc, Platform}
use nexusflow_backend.Platform.Query.{find_one}
use nexusflow_backend.Mqtt.Topics.{normalize_mac_address, is_mac_address}
use nexusflow_backend.Mqtt.Access.{Client}
use nexusflow_backend.Mqtt.Broker.{
  SessionCache, is_given, get_active_user_session_count, get_active_owner_device_session_count,
  reserve_esp_session,
}
use nexusflow_backend.Mqtt.Accounts.{
  Device, User, devices_of_user, authenticate_by_mac_and_password, authenticate_mqtt_user,
}

pub record Limits : Type 0 where
  pub max_user_mqtt_sessions : ℕ
  pub max_owner_online_devices : ℕ

-- What `done` gets: the client with what was found out about it, a refusal with its reason, or an
-- exception of a service.
pub data AuthAnswer : Type 0 where
  accepted : Client → AuthAnswer
  rejected : String → AuthAnswer
  failed : HttpError → AuthAnswer

module _ ⦃p : Platform⦄ (c : SessionCache) where
  pub record Mqtt : Type 0 where
    pub devices : p.Collection Device
    pub users : p.Collection User
    pub sessions : c.Entries
    -- The clients that the broker holds.
    pub clients : List Client

module _ ⦃p : Platform⦄ where
  abbrev pub device_client : ℕ → Client → String → Doc Device → Option String → Client
  device_client now client mac d owner_username = record client {
    device_mac = some mac;
    device_id = some d.id;
    device_name = d.body.name;
    owner_id = d.body.owner_id;
    owner_username = owner_username;
    linked_flow_id = d.body.active_flow_id;
    is_esp = true;
    is_user_client = false;
    connected_at = some now;
  }

  abbrev pub user_client : ℕ → Client → Doc User → p.Collection Device → Client
  user_client now client u devices = record client {
    authorized_device_macs =
        map (λ (d : Doc Device). normalize_mac_address d.body.mac_address)
          (devices_of_user u.id devices);
    is_esp = false;
    is_user_client = true;
    user_id = some u.id;
    mqtt_username = some u.body.username;
    connected_at = some now;
  }

  abbrev pub username_of : Option (Doc User) → Option String
  username_of none = none
  username_of (some u) = some u.body.username

-- `compares` is the comparison of a text with a hash by bcrypt.
module _ ⦃p : Platform⦄ (compares : String → String → Bool) where
  module _ (c : SessionCache) (limits : Limits) (now : ℕ) where
    -- The answer, once the session is reserved: the owner's name is looked up.
    abbrev pub welcome : Client → String → Doc Device → Option String → Mqtt c → AuthAnswer
    welcome client mac d none s = accepted (device_client now client mac d none)
    welcome client mac d (some owner) s =
        if is_empty owner
        then accepted (device_client now client mac d none)
        else if not (p.is_object_id owner)
        then failed (not_found "User not found")
        else accepted (
            device_client now client mac d (
              username_of
                (find_one (λ u. u.id === owner && not (is_some u.body.deleted_at)) s.users)))

    abbrev pub has_too_many : List Client → String → Option String → Bool
    has_too_many clients mac none = false
    has_too_many clients mac (some owner) =
        not (is_empty owner)
        && leb limits.max_owner_online_devices
            (get_active_owner_device_session_count clients owner mac)

    abbrev pub enter :
        Client → String → Doc Device → Mqtt c → Bool × c.Entries → AuthAnswer × Mqtt c
    enter client mac d s (false, entries) =
        (rejected "device already has an active mqtt session", record s { sessions = entries })
    enter client mac d s (true, entries) =
        (welcome client mac d d.body.owner_id s, record s { sessions = entries })

    abbrev pub admit_device : Client → String → Mqtt c → Option (Doc Device) → AuthAnswer × Mqtt c
    admit_device client mac s none = (rejected "invalid device credentials", s)
    admit_device client mac s (some d) =
        if d.body.status === "revoked"
        then (rejected "invalid device credentials", s)
        else if has_too_many s.clients mac d.body.owner_id
        then (rejected "owner already has maximum online devices", s)
        else enter client mac d s (reserve_esp_session c s.clients mac (trim client.id) s.sessions)

    -- The path of a device, whose client id is its MAC address.
    unfoldable pub authenticate_device : Client → String → String → Mqtt c → AuthAnswer × Mqtt c
    authenticate_device client username password s =
        let mac = normalize_mac_address (trim client.id) in
        if not (is_empty username) && not (normalize_mac_address username === mac)
        then (rejected "username mismatch", s)
        else admit_device client mac s
            (authenticate_by_mac_and_password compares mac password s.devices)

    abbrev pub admit_user : Client → Mqtt c → Option (Doc User) → AuthAnswer
    admit_user client s none = rejected "invalid user mqtt credentials"
    admit_user client s (some u) =
        if not u.body.is_active
        then rejected "invalid user mqtt credentials"
        else if is_empty u.id
        then rejected "invalid user id"
        else if leb limits.max_user_mqtt_sessions (get_active_user_session_count s.clients u.id)
        then rejected "user already has maximum active mqtt sessions"
        else if not (p.is_object_id u.id)
        then failed (bad_request "Invalid User ID")
        else accepted (user_client now client u s.devices)

    -- The path of a user, whose password is used up even where the answer is a refusal.
    unfoldable pub authenticate_user : Client → String → String → Mqtt c → AuthAnswer × Mqtt c
    authenticate_user client username password s =
        let (found, users) = authenticate_mqtt_user compares username password now s.users in
        (admit_user client s found, record s { users = users })

    -- `onAuthenticate`
    unfoldable pub on_authenticate : Client → String → String → Mqtt c → AuthAnswer × Mqtt c
    on_authenticate client username password s =
        if is_empty (trim client.id) || is_empty (trim password)
        then (rejected "missing credentials", s)
        else if is_mac_address (trim client.id)
        then authenticate_device client (trim username) (trim password) s
        else authenticate_user client (trim username) (trim password) s
