-- ===== src/Mqtt/Sessions/Exclusive.antt =====
-- A device has one session at a time: as long as the client that has it is connected, no other
-- client of the device is let in.
use nexusflow_backend.Prelude.{
  ℕ, ◌≡◌, ◌≢◌, refl, ap, ◌∙◌, sym, subst, Bool, true, false, not, ◌&&◌, ◌||◌, String, List, Option,
  none, some, is_empty, ◌===◌, eq_of_===, if◌then◌else◌, arith, trim, trim_idem, Bool-cases, inl,
  inr,
}
use nexusflow_backend.Platform.{Doc, Platform}
use nexusflow_backend.Mqtt.Topics.{normalize_mac_address, is_mac_address}
use nexusflow_backend.Mqtt.Access.{Client}
use nexusflow_backend.Mqtt.Broker.{
  SessionCache, is_client_connected, session_key, reserve, reserve_esp_session,
}
use nexusflow_backend.Mqtt.Accounts.{Device, authenticate_by_mac_and_password}
use nexusflow_backend.Mqtt.Sessions.{
  Limits, AuthAnswer, accepted, rejected, Mqtt, has_too_many, enter, admit_device,
  authenticate_device, authenticate_user, on_authenticate,
}

module _ (c : SessionCache) where
  -- A session that is reserved is in the cache.
  reserve-get :
      (clients : List Client) (key id : String) (entries entries' : c.Entries) (o : Option String)
      → c.get key entries ≡ o
      → reserve c clients key id entries o ≡ (true, entries')
      → c.get key entries' ≡ some id
  reserve-get clients key id entries entries' none e h =
      subst (λ r. c.get key r ≡ some id) (ap (λ r. r.1) h) (c.get-set_self key id entries)
  reserve-get clients key id entries entries' (some active) e h =
      by_guards (is_empty active) (active === id) refl (is_client_connected clients active) h
    where
      by_guards :
          (no_one same : Bool)
          → (active === id) ≡ same
          → (connected : Bool)
          → ◌≡◌ {A = Bool × c.Entries}
              (if no_one
                then (true, c.set key id entries)
                else if same
                then (true, entries)
                else if not connected
                then (true, c.set key id entries)
                else (false, entries))
              (true, entries')
          → c.get key entries' ≡ some id
      by_guards true same s connected k =
          subst (λ r. c.get key r ≡ some id) (ap (λ r. r.1) k) (c.get-set_self key id entries)
      by_guards false true s connected k =
          subst (λ r. c.get key r ≡ some id) (ap (λ r. r.1) k) (e ∙ ap some (eq_of_=== active id s))
      by_guards false false s false k =
          subst (λ r. c.get key r ≡ some id) (ap (λ r. r.1) k) (c.get-set_self key id entries)
      by_guards false false s true k = absurd (cc)

  -- It is refused to another client while that of the cache is connected.
  reserve-refused :
      (clients : List Client) (key id active : String) (entries : c.Entries)
      → is_empty active ≡ false
      → active ≢ id
      → is_client_connected clients active ≡ true
      → reserve c clients key id entries (some active) ≡ (false, entries)
  reserve-refused clients key id active entries given other connected =
      elim (Bool-cases (active === id)) [
        | inl same ↦ absurd (other (eq_of_=== active id same))
        | inr different ↦ rw given (rw different (rw connected refl))
      ]

module _ ⦃p : Platform⦄ (c : SessionCache) where
  -- An answer that lets a client in came past a guard.
  past_guard :
      (b : Bool) (reason : String) (s s' : Mqtt c) (rest : AuthAnswer × Mqtt c) {client : Client}
      → (if b then (rejected reason, s) else rest) ≡ (accepted client, s')
      → (b ≡ false) × (rest ≡ (accepted client, s'))
  past_guard true reason s s' rest h = absurd (cc)
  past_guard false reason s s' rest h = (refl, h)

  abbrev IsRefused : Mqtt c → AuthAnswer × Mqtt c → Type 0
  IsRefused s r = (reason : String) × (r ≡ (rejected reason, s))

  IsRefused-if :
      (b : Bool) (reason : String) (s : Mqtt c) (rest : AuthAnswer × Mqtt c)
      → IsRefused s rest
      → IsRefused s (if b then (rejected reason, s) else rest)
  IsRefused-if true reason s rest h = (reason, refl)
  IsRefused-if false reason s rest h = h

  -- The session of the device is the client's, once it is let in.
  module _ (compares : String → String → Bool) (limits : Limits) (now : ℕ) where
    enter-reserved :
        (client : Client) (mac : String) (d : Doc Device) (s s' : Mqtt c) (r : Bool × c.Entries)
        {client' : Client}
        → enter compares c limits now client mac d s r ≡ (accepted client', s')
        → r ≡ (true, s'.sessions)
    enter-reserved client mac d s s' (false, entries) h = absurd (cc)
    enter-reserved client mac d s s' (true, entries) h = ap (λ r. (true, r.1.sessions)) h

    admit_device-reserved :
        (client : Client) (mac : String) (s s' : Mqtt c) (o : Option (Doc Device))
        {client' : Client}
        → admit_device compares c limits now client mac s o ≡ (accepted client', s')
        → reserve_esp_session c s.clients mac (trim client.id) s.sessions ≡ (true, s'.sessions)
    admit_device-reserved client mac s s' none h = absurd (cc)
    admit_device-reserved client mac s s' (some d) h =
        let reserved = reserve_esp_session c s.clients mac (trim client.id) s.sessions in
        let entered = enter compares c limits now client mac d s reserved in
        let is_full = has_too_many compares c limits now s.clients mac d.body.owner_id in
        let reason : String = "owner already has maximum online devices" in
        let (active, h1) =
          past_guard (d.body.status === "revoked") "invalid device credentials" s s'
            (if is_full then (rejected reason, s) else entered) h in
        let (room, h2) = past_guard is_full reason s s' entered h1 in
        enter-reserved client mac d s s' reserved h2

    on_authenticate-reserved :
        (client : Client) (username password : String) (s s' : Mqtt c) {client' : Client}
        → is_mac_address (trim client.id) ≡ true
        → on_authenticate compares c limits now client username password s ≡ (accepted client', s')
        → (is_empty (trim client.id) ≡ false)
          × (reserve_esp_session c s.clients
                (normalize_mac_address (trim client.id))
                (trim client.id)
                s.sessions
              ≡ (true, s'.sessions))
    unfolding on_authenticate authenticate_device
    on_authenticate-reserved client username password s s' {client'} is_mac h =
        let mac = normalize_mac_address (trim client.id) in
        let as_device =
          authenticate_device compares c limits now client (trim username) (trim password) s in
        let as_user =
          authenticate_user compares c limits now client (trim username) (trim password) s in
        let (given, h1) =
          past_guard (is_empty (trim client.id) || is_empty (trim password)) "missing credentials" s
            s' (if is_mac_address (trim client.id) then as_device else as_user) h in
        let h2 : as_device ≡ (accepted client', s') =
          subst (λ b. (if b then as_device else as_user) ≡ (accepted client', s')) is_mac h1 in
        let found = authenticate_by_mac_and_password compares mac (trim password) s.devices in
        let (named, h3) =
          past_guard
            (not (is_empty (trim username)) && not (normalize_mac_address (trim username) === mac))
            "username mismatch" s s' (admit_device compares c limits now client mac s found) h2 in
        (ground arith, admit_device-reserved client mac s s' found h3)

    admit_device-IsRefused :
        (client : Client) (mac : String) (s : Mqtt c) (o : Option (Doc Device))
        → reserve_esp_session c s.clients mac (trim client.id) s.sessions ≡ (false, s.sessions)
        → IsRefused s (admit_device compares c limits now client mac s o)
    admit_device-IsRefused client mac s none taken = ("invalid device credentials", refl)
    admit_device-IsRefused client mac s (some d) taken =
        let reserved = reserve_esp_session c s.clients mac (trim client.id) s.sessions in
        let entered = enter compares c limits now client mac d s reserved in
        let is_full = has_too_many compares c limits now s.clients mac d.body.owner_id in
        let full : AuthAnswer × Mqtt c = (rejected "owner already has maximum online devices", s) in
        IsRefused-if (d.body.status === "revoked") "invalid device credentials" s
          (if is_full then full else entered)
          (IsRefused-if is_full "owner already has maximum online devices" s entered (
            "device already has an active mqtt session",
            ap (enter compares c limits now client mac d s) taken,
          ))

    on_authenticate-IsRefused :
        (client : Client) (username password : String) (s : Mqtt c)
        → is_mac_address (trim client.id) ≡ true
        → reserve_esp_session c s.clients
            (normalize_mac_address (trim client.id))
            (trim client.id)
            s.sessions
          ≡ (false, s.sessions)
        → IsRefused s (on_authenticate compares c limits now client username password s)
    unfolding on_authenticate authenticate_device
    on_authenticate-IsRefused client username password s is_mac taken =
        let mac = normalize_mac_address (trim client.id) in
        let as_device =
          authenticate_device compares c limits now client (trim username) (trim password) s in
        let as_user =
          authenticate_user compares c limits now client (trim username) (trim password) s in
        let found = authenticate_by_mac_and_password compares mac (trim password) s.devices in
        IsRefused-if (is_empty (trim client.id) || is_empty (trim password)) "missing credentials" s
          (if is_mac_address (trim client.id) then as_device else as_user)
          (subst (λ b. IsRefused s (if b then as_device else as_user)) (sym is_mac)
            (IsRefused-if
              (not (is_empty (trim username))
                && not (normalize_mac_address (trim username) === mac))
              "username mismatch" s (admit_device compares c limits now client mac s found)
              (admit_device-IsRefused client mac s found taken)))

  -- Where the cache keeps the session of the device that a client says it is.
  abbrev pub device_key : Client → String
  device_key client = session_key (normalize_mac_address (normalize_mac_address (trim client.id)))

  -- Once a client whose id is the address of a device is let in, and as long as the cache keeps
  -- what it has for the device and the broker holds the client, a client with another spelling of
  -- the address as its id is refused whatever it gives, and nothing changes.
  pub device_has_one_session :
      (compares : String → String → Bool) (limits : Limits) (now now' : ℕ)
      (client client' other : Client) (username password username' password' : String)
      (s s' t : Mqtt c)
      → on_authenticate compares c limits now client username password s ≡ (accepted client', s')
      → is_mac_address (trim client.id) ≡ true
      → c.get (device_key client) t.sessions ≡ c.get (device_key client) s'.sessions
      → is_client_connected t.clients (trim client.id) ≡ true
      → is_mac_address (trim other.id) ≡ true
      → normalize_mac_address (trim other.id) ≡ normalize_mac_address (trim client.id)
      → trim client.id ≢ trim other.id
      → IsRefused t (on_authenticate compares c limits now' other username' password' t)
  unfolding reserve_esp_session
  device_has_one_session compares limits now now' client client' other username password username'
        password' s s' t h is_mac kept connected other_mac same_mac differs =
      let (given, reserved) =
        on_authenticate-reserved compares limits now client username password s s' is_mac h in
      let mac = normalize_mac_address (trim client.id) in
      let key = session_key (normalize_mac_address mac) in
      let held : c.get key t.sessions ≡ some (trim client.id) =
        kept
        ∙ reserve-get c s.clients key (trim (trim client.id)) s.sessions s'.sessions
            (c.get key s.sessions) refl reserved
        ∙ ap some (trim_idem client.id) in
      let other_key : session_key (normalize_mac_address (normalize_mac_address (trim other.id)))
          ≡ key =
        ap (λ m. session_key (normalize_mac_address m)) same_mac in
      let id = trim (trim other.id) in
      let taken : ◌≡◌ {A = Bool × c.Entries}
          (reserve c t.clients key id t.sessions (c.get key t.sessions)) (false, t.sessions) =
        ap (reserve c t.clients key id t.sessions) held
        ∙ reserve-refused c t.clients key id (trim client.id) t.sessions given
            (λ e. differs (e ∙ trim_idem other.id)) connected in
      on_authenticate-IsRefused compares limits now' other username' password' t other_mac (
        subst
          (λ k.
            ◌≡◌ {A = Bool × c.Entries} (reserve c t.clients k id t.sessions (c.get k t.sessions))
              (false, t.sessions))
          (sym other_key) taken)
