-- ===== src/Mqtt/Access/Laws.antt =====
-- A topic of a device is open only to the clients that hold the device.
use nexusflow_backend.Prelude.{
  ◌≡◌, refl, sym, subst, true, ◌&&◌, ◌||◌, String, List, [], ◌∷◌, Option, none, some, any, ◌===◌,
  eq_of_===, if◌then◌else◌, arith, ◌⊎◌, inl, inr, Some, Bool-cases, some-injective,
}
use nexusflow_backend.Mqtt.Topics.{
  normalize_mac_address, segments, devices_mac, esp_mac, extract_devices_topic_mac,
  extract_esp_topic_mac, is_devices_topic, is_esp_topic,
}
use nexusflow_backend.Mqtt.Access.{
  Client, is_mac_of, is_among, with_mac, passes, passes_devices, passes_esp, published,
  on_authorize_publish, on_authorize_forward, is_authorized_for_devices_topic,
  is_user_authorized_for_devices_topic, is_authorized_for_esp_topic,
  is_user_authorized_for_esp_topic,
}

-- The second part of a topic of the kind is the address, up to blanks around it and its case.
pub record Names (topic mac : String) : Type 0 where
  pub kind : String
  pub segment : String
  pub rest : List String
  pub is_kind : (kind ≡ "devices") ⊎ (kind ≡ "esp")
  pub parts : segments topic ≡ kind ∷ segment ∷ rest
  pub is_mac : normalize_mac_address segment ≡ mac

-- The address is that of the device that the client is, or of one of those that it may use.
abbrev pub Holds : Client → String → Type 0
Holds client mac =
    ((client.is_esp ≡ true)
      × (m : String) × (client.device_mac ≡ some m)
      × (normalize_mac_address m ≡ mac))
    ⊎ ((client.is_user_client ≡ true) × Some (λ m. m ≡ mac) client.authorized_device_macs)

any-Some :
    (mac : String) (macs : List String)
    → any (λ m. m === mac) macs ≡ true
    → Some (λ m. m ≡ mac) macs
any-Some mac [] h = absurd (cc)
any-Some mac (m ∷ ms) h = elim (Bool-cases (m === mac)) [
  | inl same ↦ inl (eq_of_=== m mac same)
  | inr other ↦ inr (any-Some mac ms (subst (λ b. (b || any (λ n. n === mac) ms) ≡ true) other h))
]

esp_holds :
    (device_mac found : Option String)
    → with_mac (λ m. is_mac_of m found) device_mac ≡ true
    → (mac : String) × (found ≡ some mac)
      × (m : String) × (device_mac ≡ some m)
      × (normalize_mac_address m ≡ mac)
esp_holds none found h = absurd (cc)
esp_holds (some m) none h = absurd (ground arith)
esp_holds (some m) (some mac) h =
    (mac, refl, m, refl, sym (eq_of_=== mac (normalize_mac_address m) (ground arith)))

user_holds :
    (macs : List String) (found : Option String)
    → is_among macs found ≡ true
    → (mac : String) × (found ≡ some mac) × Some (λ m. m ≡ mac) macs
user_holds macs none h = absurd (cc)
user_holds macs (some mac) h = (mac, refl, any-Some mac macs (ground arith))

-- Who passes a guard holds the device that the topic names.
passes-Holds :
    (client : Client) (found : Option String)
    → passes (λ m. is_mac_of m found) (is_among client.authorized_device_macs found) client ≡ true
    → (mac : String) × (found ≡ some mac) × Holds client mac
passes-Holds client found h =
    elim (Bool-cases (client.is_esp && with_mac (λ m. is_mac_of m found) client.device_mac)) [
      | inl as_esp ↦
          let (mac, names, m, is, same) = esp_holds client.device_mac found (ground arith) in
          (mac, names, inl ((ground arith), m, is, same))
      | inr not_esp ↦
          let (mac, names, among) = user_holds client.authorized_device_macs found (ground arith) in
          (mac, names, inr ((ground arith), among))
    ]

devices_mac-Names :
    (topic mac : String) (parts : List String)
    → segments topic ≡ parts
    → devices_mac parts ≡ some mac
    → Names topic mac
devices_mac-Names topic mac [] e h = absurd (cc)
devices_mac-Names topic mac (kind ∷ []) e h = absurd (cc)
devices_mac-Names topic mac (kind ∷ segment ∷ rest) e h = elim (Bool-cases (kind === "devices")) [
  | inl same ↦ record {
    kind = kind;
    segment = segment;
    rest = rest;
    is_kind = inl (eq_of_=== kind "devices" same);
    parts = e;
    is_mac = some-injective (normalize_mac_address segment) mac (ground arith);
  }
  | inr other ↦ absurd (ground arith)
]

esp_mac-Names :
    (topic mac : String) (parts : List String)
    → segments topic ≡ parts
    → esp_mac parts ≡ some mac
    → Names topic mac
esp_mac-Names topic mac [] e h = absurd (cc)
esp_mac-Names topic mac (kind ∷ []) e h = absurd (cc)
esp_mac-Names topic mac (kind ∷ segment ∷ rest) e h = elim (Bool-cases (kind === "esp")) [
  | inl same ↦ record {
    kind = kind;
    segment = segment;
    rest = rest;
    is_kind = inr (eq_of_=== kind "esp" same);
    parts = e;
    is_mac = some-injective (normalize_mac_address segment) mac (ground arith);
  }
  | inr other ↦ absurd (ground arith)
]

-- A topic of a device, and a client that holds the device.
abbrev pub IsHeld : Client → String → Type 0
IsHeld client topic = (mac : String) × Names topic mac × Holds client mac

passes_devices-IsHeld :
    (client : Client) (topic : String) → passes_devices client topic ≡ true → IsHeld client topic
unfolding is_authorized_for_devices_topic is_user_authorized_for_devices_topic
    extract_devices_topic_mac
passes_devices-IsHeld client topic h =
    let (mac, names, holds) = passes-Holds client (devices_mac (segments topic)) h in
    (mac, devices_mac-Names topic mac (segments topic) refl names, holds)

passes_esp-IsHeld :
    (client : Client) (topic : String) → passes_esp client topic ≡ true → IsHeld client topic
unfolding is_authorized_for_esp_topic is_user_authorized_for_esp_topic extract_esp_topic_mac
passes_esp-IsHeld client topic h =
    let (mac, names, holds) = passes-Holds client (esp_mac (segments topic)) h in
    (mac, esp_mac-Names topic mac (segments topic) refl names, holds)

abbrev pub IsProtected : String → Type 0
IsProtected topic = (is_devices_topic topic || is_esp_topic topic) ≡ true

-- What may be published to a topic of a device, or is forwarded from one.
guarded-IsHeld :
    (client : Client) (topic : String)
    → IsProtected topic
    → (if is_devices_topic topic then passes_devices client topic else passes_esp client topic)
      ≡ true
    → IsHeld client topic
guarded-IsHeld client topic protected h = elim (Bool-cases (is_devices_topic topic)) [
  | inl devices ↦ passes_devices-IsHeld client topic (
      subst (λ b. (if b then passes_devices client topic else passes_esp client topic) ≡ true)
        devices h)
  | inr esp ↦ passes_esp-IsHeld client topic (
      subst (λ b. (if b then passes_devices client topic else passes_esp client topic) ≡ true) esp
        h)
]

pub published-IsHeld :
    (client : Client) (topic : String)
    → IsProtected topic
    → on_authorize_publish client topic ≡ published
    → IsHeld client topic
unfolding on_authorize_publish
published-IsHeld client topic protected h = guarded-IsHeld client topic protected (grind arith)

pub forwarded-IsHeld :
    (client : Client) (topic packet : String)
    → IsProtected topic
    → on_authorize_forward client topic ≡ some packet
    → IsHeld client topic
unfolding on_authorize_forward
forwarded-IsHeld client topic packet protected h =
    guarded-IsHeld client topic protected (grind arith)
