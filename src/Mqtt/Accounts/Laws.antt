-- ===== src/Mqtt/Accounts/Laws.antt =====
-- Which documents a login that is accepted belongs to.
use nexusflow_backend.Prelude.{
  ℕ, ◌≡◌, refl, ap, subst, Bool, true, String, map, Option, none, some, ◌===◌, eq_of_===, arith,
  inl, inr, Some, find-Some, Some-weaken, Some-select, Some-map, find-passes, Option-cases, trim,
  some-injective,
}
use nexusflow_backend.Platform.{Doc, Platform}
use nexusflow_backend.Platform.Query.{find_one}
use nexusflow_backend.Platform.Query.Laws.{Some-sort}
use nexusflow_backend.Mqtt.Topics.{normalize_mac_address}
use nexusflow_backend.Mqtt.Broker.{is_text}
use nexusflow_backend.Mqtt.Accounts.{
  Device, User, if_matches, authenticate_by_mac_and_password, use_password, if_its_password,
  is_user_named, log_in, authenticate_mqtt_user, devices_of_user,
}

-- The password of a login fits a hash that is kept.
abbrev pub Fits : (String → String → Bool) → String → Option String → Type 0
Fits compares password kept = (hash : String) × (kept ≡ some hash) × (compares password hash ≡ true)

module _ ⦃p : Platform⦄ (compares : String → String → Bool) where
  if_matches-Fits :
      {D : Type 0} (password : String) (d : Doc D) (kept : Option String) {e : Doc D}
      → if_matches compares password d kept ≡ some e
      → (d ≡ e) × Fits compares password kept
  if_matches-Fits password d none h = absurd (cc)
  if_matches-Fits password d (some hash) {e} h =
      (some-injective d e (ground arith), (hash, refl, ground arith))

  -- The document of a device whose password fits.
  abbrev pub IsDevice : String → String → Doc Device → Type 0
  IsDevice mac password d =
      (d.body.mac_address ≡ normalize_mac_address mac) × Fits compares password d.body.mqtt_pass

  if_its_password-IsDevice :
      (mac password : String) (devices : p.Collection Device) (o : Option (Doc Device))
      {d : Doc Device}
      → find_one (λ e. e.body.mac_address === normalize_mac_address mac) devices ≡ o
      → if_its_password compares password o ≡ some d
      → Some (IsDevice mac password) (p.docs devices)
  if_its_password-IsDevice mac password devices none e h = absurd (cc)
  if_its_password-IsDevice mac password devices (some x) e h =
      let is_mac : Doc Device → Bool = λ y. y.body.mac_address === normalize_mac_address mac in
      let (same, fits) = if_matches-Fits password x x.body.mqtt_pass h in
      find-Some (IsDevice mac password) is_mac (p.docs devices) e (
        eq_of_=== x.body.mac_address (normalize_mac_address mac)
            (find-passes is_mac (p.docs devices) e),
        fits,
      )

  pub authenticate_by_mac-IsDevice :
      (mac password : String) (devices : p.Collection Device) {d : Doc Device}
      → authenticate_by_mac_and_password compares mac password devices ≡ some d
      → Some (IsDevice mac password) (p.docs devices)
  unfolding authenticate_by_mac_and_password
  authenticate_by_mac-IsDevice mac password devices h =
      if_its_password-IsDevice mac password devices
        (find_one (λ d. d.body.mac_address === normalize_mac_address mac) devices) refl h

  -- The document of a user that is not deleted, whose unused password fits.
  abbrev pub IsUser : String → String → Doc User → Type 0
  IsUser username password u =
      (u.body.username ≡ trim username)
      × (u.body.deleted_at ≡ none)
      × (u.body.mqtt_pass_used_at ≡ none)
      × Fits compares password u.body.mqtt_pass_hash

  use_password-unused :
      (now : ℕ) (users : p.Collection User) (o : Option (Doc User)) {u : Doc User}
      → (use_password now users o).0 ≡ some u
      → (o ≡ some u) × (u.body.mqtt_pass_used_at ≡ none)
  use_password-unused now users none h = absurd (cc)
  use_password-unused now users (some v) {u} h = elim (Option-cases v.body.mqtt_pass_used_at) [
    | inl unused ↦
        let same = some-injective v u (ground arith) in
        (ap some same, subst (λ (w : Doc User). w.body.mqtt_pass_used_at ≡ none) same unused)
    | inr (at, is_used) ↦ absurd (ground arith)
  ]

  is_user_named-is :
      (name : String) (u : Doc User)
      → is_user_named name u ≡ true
      → (u.body.username ≡ name) × (u.body.deleted_at ≡ none)
  is_user_named-is name u h = elim (Option-cases u.body.deleted_at) [
    | inl stays ↦ (eq_of_=== u.body.username name (ground arith), stays)
    | inr (at, deleted) ↦ absurd (ground arith)
  ]

  log_in-IsUser :
      (username password : String) (now : ℕ) (users : p.Collection User) (o : Option (Doc User))
      {u : Doc User}
      → find_one (is_user_named (trim username)) users ≡ o
      → (log_in compares password now users o).0 ≡ some u
      → IsUser username password u × Some (λ v. v ≡ u) (p.docs users)
  log_in-IsUser username password now users none e h = absurd (cc)
  log_in-IsUser username password now users (some x) {u} e h =
      let named = is_user_named (trim username) in
      let (matched, unused) =
        use_password-unused now users (if_matches compares password x x.body.mqtt_pass_hash) h in
      let (same, fits) = if_matches-Fits password x x.body.mqtt_pass_hash matched in
      let (name, stays) = is_user_named-is (trim username) x (find-passes named (p.docs users) e) in
      (
        (
          subst (λ (v : Doc User). (v.body.username ≡ trim username)) same name,
          subst (λ (v : Doc User). v.body.deleted_at ≡ none) same stays,
          unused,
          subst (λ (v : Doc User). Fits compares password v.body.mqtt_pass_hash) same fits,
        ),
        find-Some (λ v. v ≡ u) named (p.docs users) e same,
      )

  pub authenticate_mqtt_user-IsUser :
      (username password : String) (now : ℕ) (users : p.Collection User) {u : Doc User}
      → (authenticate_mqtt_user compares username password now users).0 ≡ some u
      → IsUser username password u × Some (λ v. v ≡ u) (p.docs users)
  unfolding authenticate_mqtt_user
  authenticate_mqtt_user-IsUser username password now users h =
      log_in-IsUser username password now users (find_one (is_user_named (trim username)) users)
        refl (ground arith)

module _ ⦃p : Platform⦄ where
  is_text-is : (s : String) (o : Option String) → is_text s o ≡ true → o ≡ some s
  is_text-is s none h = absurd (cc)
  is_text-is s (some t) h = ap some (eq_of_=== t s h)

  pub devices_of_user-Some :
      (mac user_id : String) (devices : p.Collection Device)
      → Some
          (λ m. m ≡ mac)
          (map
            (λ (d : Doc Device). normalize_mac_address d.body.mac_address)
            (devices_of_user user_id devices))
      → Some
          (λ d. (normalize_mac_address d.body.mac_address ≡ mac) × (d.body.owner_id ≡ some user_id))
          (p.docs devices)
  unfolding devices_of_user
  devices_of_user-Some mac user_id devices h =
      Some-weaken
        {P = λ d.
          (normalize_mac_address d.body.mac_address ≡ mac)
          × (is_text user_id d.body.owner_id ≡ true)}
        (λ d has. (has.0, is_text-is user_id d.body.owner_id has.1)) (p.docs devices)
        (Some-select (λ d. normalize_mac_address d.body.mac_address ≡ mac)
          (λ d. is_text user_id d.body.owner_id) (p.docs devices)
          (Some-sort (λ d. normalize_mac_address d.body.mac_address ≡ mac) _ _
            (Some-map (λ (d : Doc Device). normalize_mac_address d.body.mac_address) (λ m. m ≡ mac)
              _ h)))
