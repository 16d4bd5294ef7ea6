-- ===== src/Tests/Rules.antt =====
-- A rule that is created, changed and deleted.
use nexusflow_backend.Prelude.{◌≡◌, ◌⊎◌, true, none, some, []}
use nexusflow_backend.Action.{HttpError, err}
use nexusflow_backend.Notifications.Schemas.{critical, gt}
use nexusflow_backend.Notifications.Rules.{
  CreateAlertRule, UpdateAlertRule, create_alert_rule, delete_alert_rule, update_alert_rule,
}
use nexusflow_backend.Notifications.Rules.Creation.{IsCreated, create_alert_rule_all_or_nothing}
use nexusflow_backend.Notifications.Rules.Deletion.{IsDeleted, delete_alert_rule_all_or_nothing}
use nexusflow_backend.Notifications.Rules.Updates.{IsUpdated, update_alert_rule_all_or_nothing}
use nexusflow_backend.Platform.Memory.{memory}
use nexusflow_backend.Tests.Samples.{store, above_300}

abbrev digital : CreateAlertRule
digital = record {
  node_id = "n";
  module_id = "MQ2-Sensor";
  reading_key = "Digital";
  operator = gt;
  condition = above_300;
  severity = critical;
  enabled = true;
  actions = [];
}

abbrev moved : UpdateAlertRule
moved = record {
  node_id = none;
  module_id = none;
  reading_key = some "digital";
  operator = none;
  threshold = none;
  min = none;
  max = none;
  severity = none;
  enabled = none;
  actions = none;
}

create_alert_rule_all_or_nothing_example :
    ((e : HttpError) × (create_alert_rule "u" "1" digital 7 store ≡ (err e, store)))
    ⊎ IsCreated "u" "1" digital 7 store (create_alert_rule "u" "1" digital 7 store)
create_alert_rule_all_or_nothing_example = create_alert_rule_all_or_nothing "u" "1" digital 7 store

update_alert_rule_all_or_nothing_example :
    ((e : HttpError) × (update_alert_rule "u" "1" "1" moved 7 store ≡ (err e, store)))
    ⊎ IsUpdated "u" "1" "1" moved 7 store (update_alert_rule "u" "1" "1" moved 7 store)
update_alert_rule_all_or_nothing_example =
    update_alert_rule_all_or_nothing "u" "1" "1" moved 7 store

delete_alert_rule_all_or_nothing_example :
    ((e : HttpError) × (delete_alert_rule "u" "1" "1" store ≡ (err e, store)))
    ⊎ IsDeleted "u" "1" "1" store (delete_alert_rule "u" "1" "1" store).1
delete_alert_rule_all_or_nothing_example = delete_alert_rule_all_or_nothing "u" "1" "1" store
