-- ===== src/Mqtt/Sessions/Owners.antt =====
-- Whom the broker lets in, and which topics they reach.
use nexusflow_backend.Prelude.{
  ℕ, ◌≡◌, refl, ap, ◌∙◌, sym, subst, Bool, true, false, not, ◌&&◌, ◌||◌, String, Option, none, some,
  is_empty, is_some, ◌===◌, if◌then◌else◌, ◌⊎◌, inl, inr, Some, Some-weaken, trim, leb,
  some-injective,
}
use nexusflow_backend.Action.{bad_request}
use nexusflow_backend.Platform.{Doc, Platform}
use nexusflow_backend.Platform.Query.{find_one}
use nexusflow_backend.Mqtt.Topics.{normalize_mac_address, is_mac_address}
use nexusflow_backend.Mqtt.Access.{Client, published, on_authorize_publish, on_authorize_forward}
use nexusflow_backend.Mqtt.Access.Laws.{
  Names, Holds, IsHeld, IsProtected, published-IsHeld, forwarded-IsHeld,
}
use nexusflow_backend.Mqtt.Broker.{SessionCache, reserve_esp_session, get_active_user_session_count}
use nexusflow_backend.Mqtt.Accounts.{
  Device, User, authenticate_by_mac_and_password, authenticate_mqtt_user,
}
use nexusflow_backend.Mqtt.Sessions.{
  Limits, AuthAnswer, accepted, rejected, failed, Mqtt, device_client, username_of, welcome,
  has_too_many, enter, admit_device, authenticate_device, user_client, admit_user,
  authenticate_user, on_authenticate,
}
use nexusflow_backend.Mqtt.Accounts.Laws.{
  Fits, IsDevice, IsUser, authenticate_by_mac-IsDevice, authenticate_mqtt_user-IsUser,
  devices_of_user-Some,
}

-- What holds of a client that is let in.
abbrev Welcomes : (Client → Type 0) → AuthAnswer → Type 0
Welcomes P (accepted client) = P client
Welcomes P (rejected reason) = Unit
Welcomes P (failed e) = Unit

Welcomes-if :
    (P : Client → Type 0) (b : Bool) (r r' : AuthAnswer)
    → Welcomes P r
    → Welcomes P r'
    → Welcomes P (if b then r else r')
Welcomes-if P true r r' h k = h
Welcomes-if P false r r' h k = k

-- The same of an answer with the state behind it.
Welcomes-or :
    {A : Type 0} (P : Client → Type 0) (b : Bool) (r r' : AuthAnswer × A)
    → Welcomes P r.0
    → Welcomes P r'.0
    → Welcomes P (if b then r else r').0
Welcomes-or P true r r' h k = h
Welcomes-or P false r r' h k = k

module _ ⦃p : Platform⦄ (compares : String → String → Bool) where
  -- The documents that a login may use: that of the device that it is, or those of the user's.
  abbrev pub AsDevice : p.Collection Device → String → String → String → Type 0
  AsDevice devices id password mac =
      (normalize_mac_address (normalize_mac_address id) ≡ mac)
      × Some (λ d. (d.body.mac_address ≡ mac) × Fits compares password d.body.mqtt_pass)
          (p.docs devices)

  abbrev pub AsUser : p.Collection Device → p.Collection User → String → String → String → Type 0
  AsUser devices users username password mac =
      Some
        (λ u.
          IsUser compares username password u
          × Some
              (λ d.
                (normalize_mac_address d.body.mac_address ≡ mac) × (d.body.owner_id ≡ some u.id))
              (p.docs devices))
        (p.docs users)

  device_client-Holds :
      (now : ℕ) (client : Client) (id password mac : String) (d : Doc Device)
      (owner : Option String) (devices : p.Collection Device)
      → Some (IsDevice compares (normalize_mac_address id) password) (p.docs devices)
      → Holds (device_client now client (normalize_mac_address id) d owner) mac
      → AsDevice devices id password mac
  device_client-Holds now client id password mac d owner devices known (inl (is_esp, m, same, is)) =
      let held = ap normalize_mac_address (some-injective (normalize_mac_address id) m same) ∙ is in
      (held, Some-weaken (λ d known. (known.0 ∙ held, known.1)) (p.docs devices) known)
  device_client-Holds now client id password mac d owner devices known (inr (is_user, among)) =
      absurd (cc)

  user_client-Holds :
      (now : ℕ) (client : Client) (username password mac : String) (u : Doc User)
      (devices : p.Collection Device) (users : p.Collection User)
      → IsUser compares username password u × Some (λ v. v ≡ u) (p.docs users)
      → Holds (user_client now client u devices) mac
      → AsUser devices users username password mac
  user_client-Holds now client username password mac u devices users (known, kept)
        (inl (is_esp, m, same, is)) =
      absurd (cc)
  user_client-Holds now client username password mac u devices users (known, kept)
        (inr (is_user, among)) =
      let own = devices_of_user-Some mac u.id devices among in
      Some-weaken
        (λ v same.
          subst
            (λ (w : Doc User).
              IsUser compares username password w
              × Some
                  (λ d.
                    (normalize_mac_address d.body.mac_address ≡ mac)
                    × (d.body.owner_id ≡ some w.id))
                  (p.docs devices))
            (sym same) (known, own))
        (p.docs users) kept

  module _ (c : SessionCache) (limits : Limits) (now : ℕ) where
    -- What a client that is let in holds is its own.
    abbrev pub HoldsOwn : Mqtt c → String → String → String → Client → Type 0
    HoldsOwn s id username password client =
        (mac : String)
        → Holds client mac
        → AsDevice s.devices id password mac ⊎ AsUser s.devices s.users username password mac

    welcome-HoldsOwn :
        (client : Client) (id username password : String) (d : Doc Device) (owner : Option String)
        (s : Mqtt c)
        → Some (IsDevice compares (normalize_mac_address id) password) (p.docs s.devices)
        → Welcomes
            (HoldsOwn s id username password)
            (welcome compares c limits now client (normalize_mac_address id) d owner s)
    welcome-HoldsOwn client id username password d none s known =
        λ mac h. inl (device_client-Holds now client id password mac d none s.devices known h)
    welcome-HoldsOwn client id username password d (some owner) s known =
        let own : (name : Option String)
            → HoldsOwn s id username password
                (device_client now client (normalize_mac_address id) d name) =
          λ name mac h.
            inl (device_client-Holds now client id password mac d name s.devices known h) in
        Welcomes-if (HoldsOwn s id username password) (is_empty owner) _ _ (own none) (
          Welcomes-if (HoldsOwn s id username password) (not (p.is_object_id owner)) _ _ tt (
            own (
              username_of
                (find_one (λ u. u.id === owner && not (is_some u.body.deleted_at)) s.users))))

    enter-HoldsOwn :
        (client : Client) (id username password : String) (d : Doc Device) (s : Mqtt c)
        (r : Bool × c.Entries)
        → Some (IsDevice compares (normalize_mac_address id) password) (p.docs s.devices)
        → Welcomes
            (HoldsOwn s id username password)
            (enter compares c limits now client (normalize_mac_address id) d s r).0
    enter-HoldsOwn client id username password d s (false, entries) known = tt
    enter-HoldsOwn client id username password d s (true, entries) known =
        welcome-HoldsOwn client id username password d d.body.owner_id s known

    admit_device-HoldsOwn :
        (client : Client) (username password : String) (s : Mqtt c) (o : Option (Doc Device))
        → ((d : Doc Device)
            → o ≡ some d
            → Some
                (IsDevice compares (normalize_mac_address (trim client.id)) password)
                (p.docs s.devices))
        → Welcomes
            (HoldsOwn s (trim client.id) username password)
            (admit_device compares c limits now client
              (normalize_mac_address (trim client.id))
              s
              o).0
    admit_device-HoldsOwn client username password s none known = tt
    admit_device-HoldsOwn client username password s (some d) known =
        let P = HoldsOwn s (trim client.id) username password in
        let mac = normalize_mac_address (trim client.id) in
        let reserved = reserve_esp_session c s.clients mac (trim client.id) s.sessions in
        let entered = enter compares c limits now client mac d s reserved in
        let full : AuthAnswer × Mqtt c = (rejected "owner already has maximum online devices", s) in
        let has_room = has_too_many compares c limits now s.clients mac d.body.owner_id in
        Welcomes-or P (d.body.status === "revoked") (rejected "invalid device credentials", s)
          (if has_room then full else entered) tt
          (Welcomes-or P has_room full entered tt
            (enter-HoldsOwn client (trim client.id) username password d s reserved (known d refl)))

    authenticate_device-HoldsOwn :
        (client : Client) (name username password : String) (s : Mqtt c)
        → Welcomes
            (HoldsOwn s (trim client.id) username password)
            (authenticate_device compares c limits now client name password s).0
    unfolding authenticate_device
    authenticate_device-HoldsOwn client name username password s =
        let mac = normalize_mac_address (trim client.id) in
        Welcomes-or (HoldsOwn s (trim client.id) username password)
          (not (is_empty name) && not (normalize_mac_address name === mac))
          (rejected "username mismatch", s)
          (admit_device compares c limits now client mac s
            (authenticate_by_mac_and_password compares mac password s.devices))
          tt
          (admit_device-HoldsOwn client username password s
            (authenticate_by_mac_and_password compares mac password s.devices)
            (λ d found. authenticate_by_mac-IsDevice compares mac password s.devices found))

    admit_user-HoldsOwn :
        (client : Client) (id username password : String) (s : Mqtt c) (o : Option (Doc User))
        → ((u : Doc User)
            → o ≡ some u
            → IsUser compares username password u × Some (λ v. v ≡ u) (p.docs s.users))
        → Welcomes (HoldsOwn s id username password) (admit_user compares c limits now client s o)
    admit_user-HoldsOwn client id username password s none known = tt
    admit_user-HoldsOwn client id username password s (some u) known =
        let P = HoldsOwn s id username password in
        let own : P (user_client now client u s.devices) = λ mac h. inr (
          user_client-Holds now client username password mac u s.devices s.users (known u refl)
            h) in
        let is_full =
          leb limits.max_user_mqtt_sessions (get_active_user_session_count s.clients u.id) in
        let let_in = accepted (user_client now client u s.devices) in
        let checked =
          if not (p.is_object_id u.id) then failed (bad_request "Invalid User ID") else let_in in
        let counted =
          if is_full then rejected "user already has maximum active mqtt sessions" else checked in
        let named = if is_empty u.id then rejected "invalid user id" else counted in
        Welcomes-if P (not u.body.is_active) (rejected "invalid user mqtt credentials") named tt (
          Welcomes-if P (is_empty u.id) (rejected "invalid user id") counted tt (
            Welcomes-if P is_full (rejected "user already has maximum active mqtt sessions") checked
              tt
              (Welcomes-if P (not (p.is_object_id u.id)) (failed (bad_request "Invalid User ID"))
                let_in tt own)))

    on_authenticate-HoldsOwn :
        (client : Client) (username password : String) (s : Mqtt c)
        → Welcomes
            (HoldsOwn s (trim client.id) (trim username) (trim password))
            (on_authenticate compares c limits now client username password s).0
    unfolding on_authenticate authenticate_user
    on_authenticate-HoldsOwn client username password s =
        let P = HoldsOwn s (trim client.id) (trim username) (trim password) in
        let as_device =
          authenticate_device compares c limits now client (trim username) (trim password) s in
        let as_user =
          authenticate_user compares c limits now client (trim username) (trim password) s in
        Welcomes-or P (is_empty (trim client.id) || is_empty (trim password))
          (rejected "missing credentials", s)
          (if is_mac_address (trim client.id) then as_device else as_user) tt
          (Welcomes-or P (is_mac_address (trim client.id)) as_device as_user
            (authenticate_device-HoldsOwn client (trim username) (trim username) (trim password) s)
            (admit_user-HoldsOwn client (trim client.id) (trim username) (trim password) s
              (authenticate_mqtt_user compares (trim username) (trim password) now s.users).0
              (λ u found.
                authenticate_mqtt_user-IsUser compares (trim username) (trim password) now s.users
                  found)))

    -- A client that the broker lets in publishes to a topic of a device, or gets its messages,
    -- only if the topic names the device that the client is and whose password it gave, or a
    -- device owned by a user that is not deleted, whose name it gave and whose unused password
    -- fits.
    pub authenticated_client_reaches_own :
        (client client' : Client) (username password topic : String) (s s' : Mqtt c)
        → on_authenticate compares c limits now client username password s ≡ (accepted client', s')
        → IsProtected topic
        → (on_authorize_publish client' topic ≡ published)
          ⊎ (on_authorize_forward client' topic ≡ some topic)
        → (mac : String) × Names topic mac
          × (AsDevice s.devices (trim client.id) (trim password) mac
              ⊎ AsUser s.devices s.users (trim username) (trim password) mac)
    authenticated_client_reaches_own client client' username password topic s s' h protected
          passed =
        let (mac, names, holds) = reached passed in
        (
          mac,
          names,
          subst (λ r. Welcomes (HoldsOwn s (trim client.id) (trim username) (trim password)) r.0) h
              (on_authenticate-HoldsOwn client username password s) mac holds,
        )
      where
        reached :
            (on_authorize_publish client' topic ≡ published)
              ⊎ (on_authorize_forward client' topic ≡ some topic)
            → IsHeld client' topic
        reached (inl publishes) = published-IsHeld client' topic protected publishes
        reached (inr gets) = forwarded-IsHeld client' topic topic protected gets
