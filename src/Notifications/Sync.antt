-- ===== src/Notifications/Sync.antt =====
-- Rules that follow the nodes of a flow, from notifications.service.ts: `syncRulesForFlowNodes` when
-- a flow is saved, and `cleanupFlowNotificationData` when it is deleted.
pub mod Nodes
pub mod Laws
use nexusflow_backend.Prelude.{
  ℕ, Bool, true, false, not, ◌&&◌, ◌||◌, String, List, [], ◌∷◌, ◌++◌, map, Option, none, some, any,
  select, trim, is_empty, ◌===◌, ◌⧺◌, if◌then◌else◌,
}
use nexusflow_backend.Value.{Value, text, object, field, end}
use nexusflow_backend.Action.{
  HttpError, internal_server_error, Result, ok, err, Action, pure, reads, writes, throw_if, ◌>>=◌,
  ◌>>◌,
}
use nexusflow_backend.Platform.{Doc, Platform}
use nexusflow_backend.Platform.Query.{find_all}
use nexusflow_backend.Notifications.Schemas.{
  AlertPolicy, AlertRule, RuleAction, Notification, NotificationPreference, Store,
}
use nexusflow_backend.Notifications.Policy.{normalize_reading_key, resolve_policy_defaults}
use nexusflow_backend.Notifications.Rules.{rule_clashes}
use nexusflow_backend.Notifications.Payload.{entry}

-- A node of the flow with its module.
pub record SyncNode : Type 0 where
  pub node_id : String
  pub module_id : String

abbrev pub trimmed : SyncNode → SyncNode
trimmed n = record { node_id = trim n.node_id; module_id = trim n.module_id }

-- The nodes with texts trimmed, those without an id or a module left out.
abbrev pub normalized_nodes : List SyncNode → List SyncNode
normalized_nodes nodes =
    select (λ n. not (is_empty n.node_id) && not (is_empty n.module_id)) (map trimmed nodes)

abbrev pub rule_key : String → String → String
rule_key node_id reading_key = node_id ⧺ "::" ⧺ reading_key

abbrev default_action : String → RuleAction
default_action label = record {
  payload = object (
      field "title" (text (label ⧺ " Alert"))
        (field "body" (text (label ⧺ " threshold exceeded")) end));
}

abbrev pub is_rule_of : String → String → Doc AlertRule → Bool
is_rule_of flow_id user_id d = d.body.flow_id === flow_id && d.body.user_id === user_id

-- The rule is for one of the nodes.
abbrev pub has_node : List SyncNode → String → Bool
has_node nodes node_id = any (λ n. n.node_id === node_id) nodes

abbrev pub known_keys : List (Doc AlertRule) → List String
known_keys =
    map {A = Doc AlertRule}
      (λ d. rule_key d.body.node_id (normalize_reading_key d.body.reading_key))

module _ ⦃p : Platform⦄ where
  -- `insertMany` that goes on past a violated index: whether one was, and the collection.
  unfoldable pub insert_many :
      List AlertRule → p.Collection AlertRule → Bool × p.Collection AlertRule
  insert_many [] c = (false, c)
  insert_many (r ∷ rs) c =
      let clashes = any (λ d. rule_clashes d.body r) (p.docs c) in
      let skipped = insert_many rs c in
      let inserted = insert_many rs (p.insert r c).1 in
      if clashes then (true, skipped.1) else inserted

  abbrev pub inserted : Bool × p.Collection AlertRule → Action (Store p) (Unit {0})
  inserted (clashed, c) s = (
    if clashed then err (internal_server_error "Internal server error") else ok tt,
    record s { rules = c },
  )

module _ ⦃p : Platform⦄ (flow_id user_id : String) (now : ℕ) where
  -- The rule that a policy asks for on a node.
  unfoldable pub default_rule : SyncNode → AlertPolicy → AlertRule
  default_rule node policy =
      let defaults = resolve_policy_defaults policy in
      record {
        flow_id = flow_id;
        user_id = user_id;
        node_id = node.node_id;
        module_id = node.module_id;
        reading_key = normalize_reading_key policy.reading_key;
        operator = defaults.operator;
        threshold = defaults.bounds.threshold;
        min = defaults.bounds.min;
        max = defaults.bounds.max;
        enabled = policy.default_enabled && defaults.is_valid_condition;
        severity = policy.default_severity;
        actions = default_action policy.label ∷ [];
        updated_at = now;
      }

  -- The rules to insert for one node, and for all.
  unfoldable pub missing_for_node : List String → SyncNode → List (Doc AlertPolicy) → List AlertRule
  unfolding default_rule
  missing_for_node known node [] = []
  missing_for_node known node (d ∷ ds) =
      let rest = missing_for_node known node ds in
      if trim d.body.module_id === node.module_id
        && not (
            any (λ k. k === rule_key node.node_id (normalize_reading_key d.body.reading_key)) known)
      then default_rule node d.body ∷ rest
      else rest

  unfoldable pub missing_rules :
      List String → List SyncNode → List (Doc AlertPolicy) → List AlertRule
  unfolding missing_for_node
  missing_rules known [] policies = []
  missing_rules known (n ∷ ns) policies =
      missing_for_node known n policies ++ missing_rules known ns policies

  -- The rules after the stale ones have gone. The ids are those of the rules that were read.
  abbrev pub without_stale : List SyncNode → Store p → p.Collection AlertRule
  without_stale nodes s =
      let stale =
        select (λ d. not (has_node nodes d.body.node_id))
          (find_all (is_rule_of flow_id user_id) s.rules) in
      p.delete_many (λ d. any (λ e. e.id === d.id) stale) s.rules

  abbrev pub to_insert : List SyncNode → Store p → List AlertRule
  to_insert nodes s =
      missing_rules (known_keys (find_all (is_rule_of flow_id user_id) s.rules)) nodes
        (find_all (λ d. d.body.is_active) s.policies)

  -- `syncRulesForFlowNodes`
  unfoldable pub sync_rules_for_flow_nodes : List SyncNode → Action (Store p) (Unit {0})
  sync_rules_for_flow_nodes nodes s =
      if is_empty flow_id || is_empty user_id
      then (ok tt, s)
      else inserted
          (insert_many (to_insert (normalized_nodes nodes) s)
            (without_stale (normalized_nodes nodes) s))
          s

module _ ⦃p : Platform⦄ where
  -- `cleanupFlowNotificationData`
  unfoldable pub cleanup_flow_notification_data : String → Store p → Store p
  cleanup_flow_notification_data flow_id s = record s {
    rules = p.delete_many (λ d. d.body.flow_id === flow_id) s.rules;
    notifications =
        p.delete_many
          (λ d. elim (entry "flow_id" d.body.payload) [ none ↦ false | some f ↦ f === flow_id ])
          s.notifications;
    preferences =
        p.delete_many
          (λ d.
            d.body.flow_id === flow_id
            || (elim d.body.project_id [ none ↦ false | some f ↦ f === flow_id ]))
          s.preferences;
  }
