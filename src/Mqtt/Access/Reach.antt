-- ===== src/Mqtt/Access/Reach.antt =====
-- The topics of its own devices are open to a client.
use Prim.Native.String.{[], ◌∷◌}
use text.Mathlib.TextLemmas.{nil-append, append_assoc}
use text.Mathlib.TextPositions.{starts_with-append}
use text.Mathlib.Text.{starts_with}
use nexusflow_backend.Prelude.{
  ◌≡◌, refl, ap, ◌∙◌, sym, subst, true, false, not, ◌||◌, String, List, [], ◌∷◌, some, is_empty,
  any, ◌===◌, ===_refl, ◌⧺◌, arith, inl, inr, Some, trim, to_upper_case, select, split, has_char,
}
use nexusflow_backend.Mqtt.Topics.{
  normalize_mac_address, segments, devices_mac, extract_devices_topic_mac, is_devices_topic,
  build_function_error_topic, build_function_debug_topic,
}
use nexusflow_backend.Mqtt.Topics.Laws.{IsName, split-first}
use nexusflow_backend.Mqtt.Access.{
  Client, is_mac_of, is_among, passes, passes_devices, published, on_authorize_publish,
  on_authorize_forward, is_authorized_for_devices_topic, is_user_authorized_for_devices_topic,
}
use nexusflow_backend.Mqtt.Access.Laws.{Holds}

-- An address as it is stored.
pub record IsAddress (mac : String) : Type 0 where
  pub name : IsName mac
  pub no_plus : (mac === "+") ≡ false
  pub no_hash : (mac === "#") ≡ false
  pub normal : normalize_mac_address mac ≡ mac

-- The client may publish to the topic, and gets its messages.
abbrev pub IsOpen : Client → String → Type 0
IsOpen client topic =
    (on_authorize_publish client topic ≡ published)
    × (on_authorize_forward client topic ≡ some topic)

Some-any :
    (mac : String) (macs : List String)
    → Some (λ m. m ≡ mac) macs
    → any (λ m. m === mac) macs ≡ true
Some-any mac [] h = absurd h
Some-any mac (m ∷ ms) (inl same) = rw same (rw (===_refl mac) refl)
Some-any mac (m ∷ ms) (inr later) = rw (Some-any mac ms later) (ground arith)

address_given : (m : String) → is_empty (normalize_mac_address m) ≡ false → is_empty m ≡ false
unfolding normalize_mac_address trim to_upper_case is_empty
address_given String.[] h = absurd (cc)
address_given (String.◌∷◌ c s) h = refl

Holds-passes :
    (client : Client) (mac : String)
    → is_empty mac ≡ false
    → Holds client mac
    → passes
        (λ m. is_mac_of m (some mac))
        (is_among client.authorized_device_macs (some mac))
        client
      ≡ true
Holds-passes client mac given (inl (is_esp, m, is, same)) =
    let m_given = address_given m (ap is_empty same ∙ given) in
    let fits = ap (λ t. mac === t) same ∙ ===_refl mac in
    rw is_esp (rw is (rw m_given (rw fits refl)))
Holds-passes client mac given (inr (is_user, among)) =
    let found = Some-any mac client.authorized_device_macs among in ground arith

module _ (mac rest : String) where
  abbrev own_topic : String
  own_topic = "/devices/" ⧺ mac ⧺ "/" ⧺ rest

  own_topic-parts : own_topic ≡ "" ⧺ "/" ⧺ "devices" ⧺ "/" ⧺ mac ⧺ "/" ⧺ rest
  own_topic-parts =
      append_assoc "/devices" "/" (mac ⧺ "/" ⧺ rest)
      ∙ append_assoc "/" "devices" ("/" ⧺ mac ⧺ "/" ⧺ rest)
      ∙ sym (nil-append ("/" ⧺ "devices" ⧺ "/" ⧺ mac ⧺ "/" ⧺ rest))

  split-own_topic : IsName mac → split b'/' own_topic ≡ "" ∷ "devices" ∷ mac ∷ split b'/' rest
  unfolding has_char
  split-own_topic n =
      ap (split b'/') own_topic-parts
      ∙ split-first "" ("devices" ⧺ "/" ⧺ mac ⧺ "/" ⧺ rest) refl
      ∙ ap (λ parts. "" ∷ parts)
          (split-first "devices" (mac ⧺ "/" ⧺ rest) refl
            ∙ ap (λ parts. "devices" ∷ parts) (split-first mac rest n.no_slash))

  own_topic-mac : IsAddress mac → extract_devices_topic_mac own_topic ≡ some mac
  unfolding extract_devices_topic_mac segments is_empty
  own_topic-mac a =
      ap (λ parts. devices_mac (select (λ s. not (is_empty s)) parts)) (split-own_topic a.name)
      ∙ rw a.name.not_empty (rw a.no_plus (rw a.no_hash (ap some a.normal)))

  own_topic-devices : is_devices_topic own_topic ≡ true
  unfolding is_devices_topic
  own_topic-devices =
      ap (λ b. b || starts_with own_topic "devices/")
        (ap (λ t. starts_with t "/devices") (append_assoc "/devices" "/" (mac ⧺ "/" ⧺ rest))
          ∙ starts_with-append "/devices" ("/" ⧺ mac ⧺ "/" ⧺ rest))

  module _ (client : Client) (a : IsAddress mac) (holds : Holds client mac) where
    own_topic-passes : passes_devices client own_topic ≡ true
    unfolding is_authorized_for_devices_topic is_user_authorized_for_devices_topic
    own_topic-passes = rw (own_topic-mac a) (Holds-passes client mac a.name.not_empty holds)

    own_topic-IsOpen : IsOpen client own_topic
    unfolding on_authorize_publish on_authorize_forward
    own_topic-IsOpen = (
      rw own_topic-devices (rw own_topic-passes refl),
      rw own_topic-devices (rw own_topic-passes refl),
    )

-- A client that is a device, or may use it, publishes to the topics for the errors and the debug
-- output of the functions of that device and gets their messages, whatever the node, where the
-- address is stored in normal form, not empty, without a slash and no wildcard.
pub function_topics_reach_own :
    (client : Client) (mac node : String)
    → IsAddress mac
    → Holds client mac
    → IsOpen client (build_function_error_topic mac node)
      × IsOpen client (build_function_debug_topic mac node)
unfolding build_function_error_topic build_function_debug_topic
function_topics_reach_own client mac node a holds = rw a.normal (
  subst (λ t. IsOpen client ("/devices/" ⧺ mac ⧺ t)) (sym (append_assoc "/" "logic/error/" node))
      (own_topic-IsOpen mac ("logic/error/" ⧺ node) client a holds),
  subst (λ t. IsOpen client ("/devices/" ⧺ mac ⧺ t)) (sym (append_assoc "/" "logic/debug/" node))
      (own_topic-IsOpen mac ("logic/debug/" ⧺ node) client a holds),
)
