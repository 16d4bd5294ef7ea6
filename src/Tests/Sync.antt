-- ===== src/Tests/Sync.antt =====
-- The rules of a flow after its sensor was replaced.
use nexusflow_backend.Prelude.{
  ◌≡◌, ◌||◌, ◌*◌, ◌^◌, refl, false, List, [], ◌∷◌, All, is_empty, pos, whole,
}
use nexusflow_backend.Platform.Memory.{memory}
use nexusflow_backend.Notifications.Schemas.{gt}
use nexusflow_backend.Notifications.Condition.Laws.{IsCondition}
use nexusflow_backend.Notifications.Sync.{SyncNode, normalized_nodes, sync_rules_for_flow_nodes}
use nexusflow_backend.Notifications.Sync.Nodes.{IsOnNode}
use nexusflow_backend.Notifications.Sync.Laws.{
  IsSound, sync_rules_for_flow_nodes-IsOnNode, sync_rules_for_flow_nodes-IsSound,
}
use nexusflow_backend.Tests.Samples.{store, above_300}

abbrev nodes : List SyncNode
nodes = record { node_id = " m "; module_id = "MQ2-Sensor" } ∷ []

given : (is_empty "1" || is_empty "u") ≡ false
unfolding is_empty
given = refl

sync_rules_for_flow_nodes-IsOnNode_example :
    All
      (λ d. IsOnNode "1" "u" (normalized_nodes nodes) d.body)
      (memory.docs (sync_rules_for_flow_nodes "1" "u" 7 nodes store).1.rules)
sync_rules_for_flow_nodes-IsOnNode_example =
    sync_rules_for_flow_nodes-IsOnNode "1" "u" 7 nodes store given

above_300-IsCondition : IsCondition gt above_300
unfolding whole
above_300-IsCondition = record {
  at = pos (300 * 2 ^ 1074);
  threshold = refl;
  min = refl;
  max = refl;
}

starts-IsSound : All (λ d. IsSound d.body) (memory.docs store.rules)
starts-IsSound = (λ on. above_300-IsCondition, tt)

sync_rules_for_flow_nodes-IsSound_example :
    All
      (λ d. IsSound d.body)
      (memory.docs (sync_rules_for_flow_nodes "1" "u" 7 nodes store).1.rules)
sync_rules_for_flow_nodes-IsSound_example =
    sync_rules_for_flow_nodes-IsSound "1" "u" 7 nodes store starts-IsSound
