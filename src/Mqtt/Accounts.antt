-- ===== src/Mqtt/Accounts.antt =====
-- The accounts that sign in at the broker: devices, from devices/devices.service.ts, and users, from
-- users/users.service.ts.
pub mod Laws
use nexusflow_backend.Prelude.{
  ℕ, ◌≡◌, ◌≢◌, Bool, true, false, not, ◌&&◌, ◌||◌, String, List, [], ◌∷◌, map, Option, none, some,
  is_empty, is_some, any, length, ◌===◌, ◌⧺◌, leb, ltb, if◌then◌else◌, select, trim, get_or,
}
use nexusflow_backend.Platform.{Doc, Platform}
use nexusflow_backend.Platform.Query.{find_one, find_all, update_by_id, sort}
use nexusflow_backend.Mqtt.Topics.{normalize_mac_address}
use nexusflow_backend.Mqtt.Broker.{is_text}

pub record Device : Type 0 where
  pub mac_address : String
  pub mqtt_pass : Option String
  pub name : Option String
  pub owner_id : Option String
  pub active_flow_id : Option String
  pub status : String
  pub created_at : ℕ

pub record User : Type 0 where
  pub username : String
  pub is_active : Bool
  pub deleted_at : Option ℕ
  pub mqtt_pass_hash : Option String
  pub mqtt_pass_used_at : Option ℕ

module _ ⦃p : Platform⦄ where
  abbrev pub is_user_named : String → Doc User → Bool
  is_user_named username d = d.body.username === username && not (is_some d.body.deleted_at)

  abbrev pub used : ℕ → User → User
  used now u = record u { mqtt_pass_used_at = some now }

  abbrev pub use_password :
      ℕ → p.Collection User → Option (Doc User) → Option (Doc User) × p.Collection User
  use_password now users none = (none, users)
  use_password now users (some u) =
      if is_some u.body.mqtt_pass_used_at
      then (none, users)
      else (some u, update_by_id u.id (used now) users)

  -- `findAllByUserIdRaw`, of an id that is an ObjectId.
  unfoldable pub devices_of_user : String → p.Collection Device → List (Doc Device)
  devices_of_user user_id devices =
      sort (λ (a b : Doc Device). ltb b.body.created_at a.body.created_at)
        (find_all (λ d. is_text user_id d.body.owner_id) devices)

-- `compares` is the comparison of a text with a hash by bcrypt.
module _ ⦃p : Platform⦄ (compares : String → String → Bool) where
  abbrev pub if_matches : {D : Type 0} → String → Doc D → Option String → Option (Doc D)
  if_matches password d none = none
  if_matches password d (some hash) =
      if is_empty hash || not (compares password hash) then none else some d

  abbrev pub if_its_password : String → Option (Doc Device) → Option (Doc Device)
  if_its_password password none = none
  if_its_password password (some d) = if_matches password d d.body.mqtt_pass

  -- `authenticateByMacAndPassword`
  unfoldable pub authenticate_by_mac_and_password :
      String → String → p.Collection Device → Option (Doc Device)
  authenticate_by_mac_and_password mac password devices =
      if_its_password password
        (find_one (λ d. d.body.mac_address === normalize_mac_address mac) devices)

  abbrev pub log_in :
      String → ℕ → p.Collection User → Option (Doc User) → Option (Doc User) × p.Collection User
  log_in password now users none = (none, users)
  log_in password now users (some u) =
      use_password now users (if_matches password u u.body.mqtt_pass_hash)

  -- `authenticateMqttUser`: the password is good for one session.
  unfoldable pub authenticate_mqtt_user :
      String → String → ℕ → p.Collection User → Option (Doc User) × p.Collection User
  authenticate_mqtt_user username password now users =
      if is_empty (trim username) || is_empty password
      then (none, users)
      else log_in password now users (find_one (is_user_named (trim username)) users)
