-- ===== src/Notifications/Sending.antt =====
-- The sending of push messages to the phones of a user, from notifications.service.ts:
-- `sendAlertToFlowOwner` and its helpers.
pub mod Batches
pub mod Reports
pub mod Laws
use package.text.Mathlib.Text.{find?}
use nexusflow_backend.Prelude.{
  ℕ, zero, suc, ◌+◌, ◌<◌, Bool, true, false, not, ◌&&◌, ◌||◌, String, List, [], ◌∷◌, ◌++◌, map,
  Option, none, some, trim, is_empty, length, take, drop, any, collect, distinct, is_some, ◌===◌,
  ◌⧺◌, if◌then◌else◌, select, get_or,
}
use nexusflow_backend.Value.{Value, text}
use nexusflow_backend.Action.{
  HttpError, internal_server_error, Result, ok, err, Action, pure, lift, reads, writes, ◌>>=◌, ◌>>◌,
  throw,
}
use nexusflow_backend.Platform.{Doc, Platform}
use nexusflow_backend.Platform.Query.{
  find_all, find_one, find_by_id, has_some, update_by_id, create,
}
use nexusflow_backend.Notifications.Schemas.{
  Severity, critical, warning, info, MobilePlatform, NotificationDeviceToken, Flow, Store,
}
use nexusflow_backend.Notifications.Payload.{
  Entries, put_entry, normalize_data_payload, severity_name,
}

-- `createTokenBatches`, with the length of the list as its fuel.
pub batches : ℕ → ℕ → List String → List (List String)
batches zero size tokens = []
batches (suc fuel) size [] = []
batches (suc fuel) size (t ∷ ts) = take size (t ∷ ts) ∷ batches fuel size (drop size (t ∷ ts))

unfoldable pub create_token_batches : List String → ℕ → List (List String)
unfolding batches
create_token_batches tokens size = batches (length tokens) size tokens

-- The answer of Firebase for one token: its error code, if it failed with an error.
pub record SendResponse : Type 0 where
  pub success : Bool
  pub error : Option String

pub record BatchResponse : Type 0 where
  pub success_count : ℕ
  pub failure_count : ℕ
  pub responses : List SendResponse

pub record MulticastMessage : Type 0 where
  pub tokens : List String
  pub priority : String
  pub ttl : ℕ
  pub collapse_key : String
  pub apns_priority : String
  pub payload : Entries String

-- The settings of Firebase, and what `sendEachForMulticast` answers,
-- with an error where its promise is rejected.
pub record Firebase : Type 0 where
  pub project_id : Option String
  pub client_email : Option String
  pub private_key : Option String
  pub send_each : MulticastMessage → Result BatchResponse

abbrev pub is_given : Option String → Bool
is_given none = false
is_given (some s) = not (is_empty s)

-- `getMessagingClient`
unfoldable pub get_messaging_client : Firebase → Result (MulticastMessage → Result BatchResponse)
get_messaging_client f =
    if is_given f.project_id && is_given f.client_email && is_given f.private_key
    then ok f.send_each
    else err (
        internal_server_error
          "Firebase credentials are missing. Set FIREBASE_PROJECT_ID, FIREBASE_CLIENT_EMAIL, FIREBASE_PRIVATE_KEY.")

abbrev includes : String → String → Bool
includes s part = is_some (find? s part)

-- The error says that the token is gone.
is_dead_code : String → Bool
is_dead_code code =
    code === "messaging/registration-token-not-registered"
    || code === "messaging/invalid-registration-token"
    || code === "UNREGISTERED"
    || includes code "registration-token-not-registered"
    || includes code "UNREGISTERED"

unfoldable pub is_dead : SendResponse → Bool
unfolding is_dead_code
is_dead r = not r.success && (elim r.error [ none ↦ false | some code ↦ is_dead_code code ])

-- `collectDeadTokens`: the tokens of a batch at the places of the dead answers.
unfoldable pub collect_dead_tokens : List String → List SendResponse → List String
collect_dead_tokens (t ∷ ts) (r ∷ rs) =
    let rest = collect_dead_tokens ts rs in if is_dead r && not (is_empty t) then t ∷ rest else rest
collect_dead_tokens [] rs = []
collect_dead_tokens _ [] = []

pub record Delivery : Type 0 where
  pub requested_tokens : ℕ
  pub success_count : ℕ
  pub failure_count : ℕ
  pub invalidated_tokens : ℕ

abbrev pub nothing_sent : Delivery
nothing_sent = record {
  requested_tokens = 0;
  success_count = 0;
  failure_count = 0;
  invalidated_tokens = 0;
}

-- What the loop over the batches has added up.
pub record Progress : Type 0 where
  pub success_count : ℕ
  pub failure_count : ℕ
  pub dead_tokens : List String

abbrev pub nothing_yet : Progress
nothing_yet = record { success_count = 0; failure_count = 0; dead_tokens = [] }

-- What one round of the loop adds.
abbrev pub added : Progress → List String → BatchResponse → Progress
added done batch result = record {
  success_count = done.success_count + result.success_count;
  failure_count = done.failure_count + result.failure_count;
  dead_tokens = done.dead_tokens ++ collect_dead_tokens batch result.responses;
}

pub record Push : Type 0 where
  pub flow_id : String
  pub severity : Severity
  pub payload : Entries String
  pub ttl : ℕ
  pub collapse_key : String

abbrev android_priority : Severity → String
android_priority info = "normal"
android_priority _ = "high"

abbrev apns_priority : Severity → String
apns_priority info = "5"
apns_priority _ = "10"

abbrev as_values : Entries String → Entries Value
as_values = map {B = String × Value} (λ e. (e.0, text e.1))

module _ ⦃p : Platform⦄ where
  -- The message for one batch.
  unfoldable pub message_for : Push → List String → MulticastMessage
  message_for push batch = record {
    tokens = batch;
    priority = android_priority push.severity;
    ttl = push.ttl;
    collapse_key = push.collapse_key;
    apns_priority = apns_priority push.severity;
    payload = normalize_data_payload (
        put_entry "flow_id" (text push.flow_id)
          (put_entry "severity" (text (severity_name push.severity)) (as_values push.payload)));
  }

  unfoldable pub send_batches :
      (MulticastMessage → Result BatchResponse)
      → Push
      → List (List String)
      → Progress
      → Result Progress
  unfolding message_for
  send_batches send push [] done = ok done
  send_batches send push (batch ∷ rest) done = elim (send (message_for push batch)) [
    | err e ↦ err e
    | ok result ↦ send_batches send push rest (added done batch result)
  ]

  -- `getFlowOwnerId`
  unfoldable pub get_flow_owner_id : String → Store p → Option String
  get_flow_owner_id flow_id s =
      if not (p.is_object_id flow_id) then none else elim (find_by_id flow_id s.flows) [
        | none ↦ none
        | some flow ↦ elim flow.body.user_id [
          | none ↦ none
          | some owner ↦ if is_empty (trim owner) then none else some owner
        ]
      ]

  abbrev pub invalidated : ℕ → NotificationDeviceToken → NotificationDeviceToken
  invalidated now token = record token {
    is_active = false;
    last_error = some "UNREGISTERED";
    invalidated_at = some now;
  }

  -- `invalidateDeviceTokens`
  unfoldable pub invalidate_device_tokens : List String → ℕ → Store p → Store p
  invalidate_device_tokens dead now s = record s {
    tokens =
        p.update_many (λ d. any (λ t. t === d.body.fcm_token) dead && d.body.is_active)
          (invalidated now) s.tokens;
  }

  -- The active tokens of a user, each once.
  unfoldable pub active_tokens : String → Store p → List String
  active_tokens owner s = distinct ◌===◌ (
      select (λ t. not (is_empty t))
        (map (λ d. d.body.fcm_token)
          (find_all (λ d. d.body.user_id === owner && d.body.is_active) s.tokens)))

  abbrev pub finish : List String → Progress → ℕ → Action (Store p) Delivery
  finish tokens done now s =
      let dead = distinct ◌===◌ done.dead_tokens in
      (
        ok (record {
          requested_tokens = length tokens;
          success_count = done.success_count;
          failure_count = done.failure_count;
          invalidated_tokens = length dead;
        }),
        invalidate_device_tokens dead now s,
      )

  -- Sends to the tokens, of which there are some.
  unfoldable pub send_to_tokens : Firebase → Push → ℕ → List String → Action (Store p) Delivery
  send_to_tokens firebase push now [] = pure nothing_sent
  send_to_tokens firebase push now (t ∷ ts) = do
    send ← lift (get_messaging_client firebase)
    done ← lift (send_batches send push (create_token_batches (t ∷ ts) 500) nothing_yet)
    finish (t ∷ ts) done now

  -- `sendAlertToFlowOwner`
  unfoldable pub send_alert_to_flow_owner : Firebase → Push → ℕ → Action (Store p) Delivery
  send_alert_to_flow_owner firebase push now s = elim (get_flow_owner_id push.flow_id s) [
    | none ↦ (ok nothing_sent, s)
    | some owner ↦ send_to_tokens firebase push now (active_tokens owner s) s
  ]
