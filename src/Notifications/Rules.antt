-- ===== src/Notifications/Rules.antt =====
-- The alert rules of a flow, from notifications.service.ts: listing, creating, changing and deleting
-- rules, and the checks on the flow, the node and the reading key.
pub mod Access
pub mod Creation
pub mod Deletion
pub mod Updates
use nexusflow_backend.Prelude.{
  ℕ, Bool, true, false, not, ◌&&◌, ◌||◌, String, List, [], ◌∷◌, map, Option, none, some, find, any,
  trim, is_empty, get_or, ltb, ◌===◌, ◌⧺◌, if◌then◌else◌, Number,
}
use nexusflow_backend.Action.{
  HttpError, bad_request, forbidden, not_found, internal_server_error, Result, ok, err, Action,
  pure, lift, reads, writes, or_throw, throw_if, ◌>>=◌, ◌>>◌,
}
use nexusflow_backend.Platform.{Doc, Platform}
use nexusflow_backend.Platform.Query.{find_all, find_one, sort, create, update_by_id}
use nexusflow_backend.Notifications.Schemas.{
  Severity, Operator, RuleAction, AlertRule, AlertPolicy, Flow, FlowNode, Store,
}
use nexusflow_backend.Notifications.Condition.{Bounds, symbol, validate_rule_condition}
use nexusflow_backend.Notifications.Policy.{normalize_reading_key}
use nexusflow_backend.Notifications.Policy.Baseline.{module_reading_keys}

pub record CreateAlertRule : Type 0 where
  pub node_id : String
  pub module_id : String
  pub reading_key : String
  pub operator : Operator
  pub condition : Bounds
  pub severity : Severity
  pub enabled : Bool
  pub actions : List RuleAction

-- `undefined` keeps what there is; `null` is `some none`.
pub record UpdateAlertRule : Type 0 where
  pub node_id : Option String
  pub module_id : Option String
  pub reading_key : Option String
  pub operator : Option Operator
  pub threshold : Option (Option Number)
  pub min : Option (Option Number)
  pub max : Option (Option Number)
  pub severity : Option Severity
  pub enabled : Option Bool
  pub actions : Option (List RuleAction)

pub record RuleOutput : Type 0 where
  pub id : String
  pub flow_id : String
  pub node_id : String
  pub module_id : String
  pub reading_key : String
  pub operator : Operator
  pub condition : Bounds
  pub severity : Severity
  pub enabled : Bool
  pub actions : List RuleAction
  pub updated_at : ℕ

abbrev pub bounds_of : AlertRule → Bounds
bounds_of rule = record { threshold = rule.threshold; min = rule.min; max = rule.max }

-- `mapRule`
unfoldable pub map_rule : Doc AlertRule → RuleOutput
map_rule d = record {
  id = d.id;
  flow_id = d.body.flow_id;
  node_id = d.body.node_id;
  module_id = d.body.module_id;
  reading_key = d.body.reading_key;
  operator = d.body.operator;
  condition = bounds_of d.body;
  severity = d.body.severity;
  enabled = d.body.enabled;
  actions = d.body.actions;
  updated_at = d.body.updated_at;
}

-- The unique index of the collection.
abbrev pub rule_clashes : AlertRule → AlertRule → Bool
rule_clashes a b =
    a.flow_id === b.flow_id && a.node_id === b.node_id && a.reading_key === b.reading_key

-- `assertNodeBelongsToFlow`
unfoldable pub assert_node_belongs_to_flow : Flow → String → String → Result (Unit {0})
assert_node_belongs_to_flow flow node_id module_id =
    elim (find (λ n. n.id === trim node_id) flow.nodes) [
      | none ↦ err (bad_request "nodeId does not exist in the provided flow.")
      | some node ↦
          if trim (get_or node.module_id "") === trim module_id
          then ok tt
          else err (bad_request "moduleId does not match the node module in this flow.")
    ]

-- The table lists the reading key for the module.
unfoldable pub is_supported_key : String → String → Bool
is_supported_key module_id reading_key =
    elim (find (λ e. e.0 === trim module_id) module_reading_keys) [
      | none ↦ false
      | some entry ↦ any (λ k. k === normalize_reading_key reading_key) entry.1
    ]

-- `assertReadingKeyAllowed`
unfoldable pub assert_reading_key_allowed : String → String → Result (Unit {0})
assert_reading_key_allowed module_id reading_key =
    if is_supported_key module_id reading_key
    then ok tt
    else err (
        bad_request (
          "readingKey \"" ⧺ reading_key ⧺ "\" is not supported for moduleId \"" ⧺ module_id
          ⧺ "\"."))

-- `policy?.required`
abbrev pub is_required : Option (Doc AlertPolicy) → Bool
is_required none = false
is_required (some d) = d.body.required

abbrev pub is_owned_by : String → Doc Flow → Bool
is_owned_by user_id d = elim d.body.user_id [ none ↦ false | some u ↦ u === user_id ]

-- The rule that `createAlertRule` stores.
abbrev pub new_rule : String → String → CreateAlertRule → ℕ → AlertRule
new_rule user_id flow_id dto now = record {
  flow_id = flow_id;
  user_id = user_id;
  node_id = trim dto.node_id;
  module_id = trim dto.module_id;
  reading_key = normalize_reading_key dto.reading_key;
  operator = dto.operator;
  threshold = dto.condition.threshold;
  min = dto.condition.min;
  max = dto.condition.max;
  enabled = dto.enabled;
  severity = dto.severity;
  actions = dto.actions;
  updated_at = now;
}

-- The candidate of `updateAlertRule`, before its texts are normalised.
abbrev pub candidate : UpdateAlertRule → AlertRule → AlertRule
candidate dto rule = record rule {
  node_id = get_or dto.node_id rule.node_id;
  module_id = get_or dto.module_id rule.module_id;
  reading_key = get_or dto.reading_key rule.reading_key;
  operator = get_or dto.operator rule.operator;
  threshold = get_or dto.threshold rule.threshold;
  min = get_or dto.min rule.min;
  max = get_or dto.max rule.max;
  severity = get_or dto.severity rule.severity;
  enabled = get_or dto.enabled rule.enabled;
  actions = get_or dto.actions rule.actions;
}

abbrev pub normalized : AlertRule → ℕ → AlertRule
normalized rule now = record rule {
  node_id = trim rule.node_id;
  module_id = trim rule.module_id;
  reading_key = normalize_reading_key rule.reading_key;
  updated_at = now;
}

module _ ⦃p : Platform⦄ where
  -- `assertUserCanAccessFlow`
  unfoldable pub assert_user_can_access_flow : String → String → Action (Store p) (Doc Flow)
  assert_user_can_access_flow user_id flow_id s =
      let found = find_one (λ d. d.id === flow_id && is_owned_by user_id d) s.flows in
      or_throw (forbidden "You are not allowed to access this flow alerts.")
        (if p.is_object_id flow_id then found else none) s

  -- `findPolicyForRule`
  unfoldable pub find_policy_for_rule : String → String → Store p → Option (Doc AlertPolicy)
  find_policy_for_rule module_id reading_key s =
      find_one
        (λ d.
          d.body.module_id === trim module_id
          && d.body.reading_key === normalize_reading_key reading_key
          && d.body.is_active)
        s.policies

  -- A rule of the user's flow by its id.
  unfoldable pub find_rule : String → String → String → Action (Store p) (Doc AlertRule)
  find_rule user_id flow_id rule_id = do
    throw_if (not (p.is_object_id rule_id)) (internal_server_error "Internal server error")
    found ← reads (λ s.
        find_one (λ d. d.id === rule_id && d.body.flow_id === flow_id && d.body.user_id === user_id)
          s.rules)
    or_throw (not_found "Alert rule not found.") found

  abbrev pub saved_rule :
      Option (Doc AlertRule × p.Collection AlertRule) → Action (Store p) RuleOutput
  saved_rule none s =
      (err (bad_request "An alert rule for this node and reading key already exists."), s)
  saved_rule (some (d, c)) s = (ok (map_rule d), record s { rules = c })

  -- `createAlertRule`; `now` is the time that Mongoose puts on the document.
  unfoldable pub create_alert_rule :
      String → String → CreateAlertRule → ℕ → Action (Store p) RuleOutput
  create_alert_rule user_id flow_id dto now = do
    flow ← assert_user_can_access_flow user_id flow_id
    lift (assert_node_belongs_to_flow flow.body dto.node_id dto.module_id)
    lift (assert_reading_key_allowed dto.module_id dto.reading_key)
    policy ← reads (find_policy_for_rule dto.module_id dto.reading_key)
    lift (validate_rule_condition (symbol dto.operator) dto.condition)
    throw_if (is_required policy && not dto.enabled)
        (forbidden "This alert rule is required by policy and cannot be disabled.")
    (λ s. saved_rule (create rule_clashes (new_rule user_id flow_id dto now) s.rules) s)

  -- `deleteAlertRule`
  unfoldable pub delete_alert_rule : String → String → String → Action (Store p) (Unit {0})
  delete_alert_rule user_id flow_id rule_id = do
    assert_user_can_access_flow user_id flow_id
    rule ← find_rule user_id flow_id rule_id
    policy ← reads (find_policy_for_rule rule.body.module_id rule.body.reading_key)
    throw_if (is_required policy)
        (forbidden "This alert rule is required by policy and cannot be deleted.")
    writes (λ s. record s { rules = p.delete_many (λ d. d.id === rule.id) s.rules })

  -- `getAlertRule`
  unfoldable pub get_alert_rule : String → String → String → Action (Store p) RuleOutput
  get_alert_rule user_id flow_id rule_id = do
    assert_user_can_access_flow user_id flow_id
    rule ← find_rule user_id flow_id rule_id
    pure (map_rule rule)

  -- The end of `updateAlertRule`: another rule on the node and reading key makes the save throw.
  abbrev pub save_rule : Doc AlertRule → AlertRule → Action (Store p) RuleOutput
  save_rule d rule s =
      if any (λ e. not (e.id === d.id) && rule_clashes e.body rule) (p.docs s.rules)
      then (err (internal_server_error "Internal server error"), s)
      else (
        ok (map_rule (record d { body = rule })),
        record s { rules = update_by_id d.id (λ _. rule) s.rules },
      )

  -- `updateAlertRule`
  unfoldable pub update_alert_rule :
      String → String → String → UpdateAlertRule → ℕ → Action (Store p) RuleOutput
  update_alert_rule user_id flow_id rule_id dto now = do
    flow ← assert_user_can_access_flow user_id flow_id
    rule ← find_rule user_id flow_id rule_id
    lift (
        assert_node_belongs_to_flow flow.body (candidate dto rule.body).node_id
          (candidate dto rule.body).module_id)
    lift (
        assert_reading_key_allowed (candidate dto rule.body).module_id
          (candidate dto rule.body).reading_key)
    lift (
        validate_rule_condition (symbol (candidate dto rule.body).operator)
          (bounds_of (candidate dto rule.body)))
    policy ← reads (
        find_policy_for_rule (candidate dto rule.body).module_id
          (candidate dto rule.body).reading_key)
    throw_if (is_required policy && not (candidate dto rule.body).enabled)
        (forbidden "This alert rule is required by policy and cannot be disabled.")
    save_rule rule (normalized (candidate dto rule.body) now)
