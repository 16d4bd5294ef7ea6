-- ===== src/Tests/Tokens.antt =====
-- Registering a phone, and sending to one that is gone.
use nexusflow_backend.Prelude.{is_empty, trim, ◌≡◌, refl, String, List, [], ◌∷◌, some, All, arith}
use nexusflow_backend.Platform.Memory.{memory}
use nexusflow_backend.Notifications.Schemas.{critical}
use nexusflow_backend.Notifications.Tokens.{register_device_token}
use nexusflow_backend.Notifications.Sending.{
  create_token_batches, get_flow_owner_id, active_tokens, send_alert_to_flow_owner, Push,
}
use nexusflow_backend.Notifications.Tokens.Laws.{IsRegistered, register_device_token-IsRegistered}
use nexusflow_backend.Notifications.Sending.Batches.{concat, IsBatch}
use nexusflow_backend.Notifications.Sending.Laws.{
  create_token_batches_cut, IsSent, send_alert_to_flow_owner-IsSent,
}
use nexusflow_backend.Tests.Samples.{store, new_phone, firebase}

-- The text of the token belongs to another device of the user before.
register_device_token_example :
    IsRegistered "u" new_phone 5 (register_device_token "u" new_phone 5 store)
register_device_token_example = register_device_token-IsRegistered "u" new_phone 5 store (tt, tt)

abbrev three : List String
three = "a" ∷ "b" ∷ "c" ∷ []

create_token_batches_cut_example :
    (concat (create_token_batches three 2) ≡ three) × All (IsBatch 2) (create_token_batches three 2)
create_token_batches_cut_example = create_token_batches_cut three 2 (omega arith)

abbrev push : Push
push = record {
  flow_id = "1";
  severity = critical;
  payload = [];
  ttl = 300000;
  collapse_key = "incident_1";
}

owned : get_flow_owner_id "1" store ≡ some "u"
unfolding get_flow_owner_id is_empty trim
owned = refl

send_alert_to_flow_owner_example :
    IsSent firebase push 7
      (active_tokens "u" store)
      store
      (send_alert_to_flow_owner firebase push 7 store)
send_alert_to_flow_owner_example = send_alert_to_flow_owner-IsSent firebase push 7 "u" store owned
