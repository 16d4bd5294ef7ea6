-- ===== src/Notifications/Sync/Laws.antt =====
-- What is left of the rules after a flow was saved.
use nexusflow_backend.Prelude.{
  ℕ, true, false, not, ◌&&◌, ◌||◌, String, List, [], ◌∷◌, any, ◌≡◌, inl, inr, ◌===◌, Bool-cases,
  arith, All, All-append, All-map, All-select, trim, is_empty,
}
use nexusflow_backend.Platform.{Doc, Platform}
use nexusflow_backend.Notifications.Schemas.{AlertPolicy, AlertRule, Store}
use nexusflow_backend.Notifications.Condition.Laws.{IsCondition, known_iff}
use nexusflow_backend.Notifications.Policy.Defaults.{is_valid_condition_iff}
use nexusflow_backend.Notifications.Policy.{resolve_policy_defaults, normalize_reading_key}
use nexusflow_backend.Notifications.Rules.{rule_clashes, bounds_of}
use nexusflow_backend.Notifications.Sync.{
  SyncNode, normalized_nodes, has_node, default_rule, missing_for_node, missing_rules, insert_many,
  without_stale, to_insert, sync_rules_for_flow_nodes, rule_key,
}
use nexusflow_backend.Notifications.Sync.Nodes.{
  IsOnNode, stale_of, without_stale-IsOnNode, default_rule-IsOnNode, every_there,
}

-- The condition of an enabled rule is accepted.
abbrev pub IsSound : AlertRule → Type 0
IsSound r = r.enabled ≡ true → IsCondition r.operator (bounds_of r)

module _ ⦃p : Platform⦄ where
  insert_many-All :
      (P : AlertRule → Type 0) (rs : List AlertRule) (c : p.Collection AlertRule)
      → All P rs
      → All (λ d. P d.body) (p.docs c)
      → All (λ d. P d.body) (p.docs (insert_many rs c).1)
  unfolding insert_many
  insert_many-All P [] c h k = k
  insert_many-All P (r ∷ rs) c h k =
      elim (Bool-cases (any (λ d. rule_clashes d.body r) (p.docs c))) [
        | inl clashes ↦ rw clashes (insert_many-All P rs c h.1 k)
        | inr free ↦ rw free (
            insert_many-All P rs (p.insert r c).1 h.1 (
              rw (p.docs-insert r c) (
                All-append (λ d. P d.body) (p.docs c) ((p.insert r c).0 ∷ []) k
                  (rw (p.body-insert r c) h.0, tt))))
      ]

  module _ (flow_id user_id : String) (now : ℕ) where
    default_rule-IsSound :
        (node : SyncNode) (policy : AlertPolicy)
        → IsSound (default_rule flow_id user_id now node policy)
    unfolding default_rule
    default_rule-IsSound node policy on =
        (known_iff (resolve_policy_defaults policy).operator
            (resolve_policy_defaults policy).bounds).0
          ((is_valid_condition_iff policy).0 (ground arith))

    module _ (P : AlertRule → Type 0) where
      missing_for_node-All :
          (known : List String) (node : SyncNode) (ds : List (Doc AlertPolicy))
          → ((policy : AlertPolicy) → P (default_rule flow_id user_id now node policy))
          → All P (missing_for_node flow_id user_id now known node ds)
      unfolding missing_for_node
      missing_for_node-All known node [] h = tt
      missing_for_node-All known node (d ∷ ds) h =
          elim (Bool-cases (
            trim d.body.module_id === node.module_id
            && not (
                any (λ k. k === rule_key node.node_id (normalize_reading_key d.body.reading_key))
                  known))) [
                    | inl adds ↦ rw adds (h d.body, missing_for_node-All known node ds h)
                    | inr skips ↦ rw skips (missing_for_node-All known node ds h)
                  ]

      missing_rules-All :
          (known : List String) (ns : List SyncNode) (ds : List (Doc AlertPolicy))
          → All (λ n. (policy : AlertPolicy) → P (default_rule flow_id user_id now n policy)) ns
          → All P (missing_rules flow_id user_id now known ns ds)
      unfolding missing_rules
      missing_rules-All known [] ds h = tt
      missing_rules-All known (n ∷ ns) ds h =
          All-append P (missing_for_node flow_id user_id now known n ds)
            (missing_rules flow_id user_id now known ns ds) (missing_for_node-All known n ds h.0)
            (missing_rules-All known ns ds h.1)

    -- After the rules of a flow, its id and the user's given, follow its nodes, every rule of the
    -- flow and the user is for one of the nodes, also where a rule could not be inserted.
    pub sync_rules_for_flow_nodes-IsOnNode :
        (nodes : List SyncNode) (s : Store p)
        → (is_empty flow_id || is_empty user_id) ≡ false
        → All
            (λ d. IsOnNode flow_id user_id (normalized_nodes nodes) d.body)
            (p.docs (sync_rules_for_flow_nodes flow_id user_id now nodes s).1.rules)
    unfolding sync_rules_for_flow_nodes
    sync_rules_for_flow_nodes-IsOnNode nodes s given =
        let ns = normalized_nodes nodes in
        rw given (
          insert_many-All (IsOnNode flow_id user_id ns) (to_insert flow_id user_id now ns s)
            (without_stale flow_id user_id now ns s)
            (missing_rules-All (IsOnNode flow_id user_id ns) _ ns _ (
              All-map (λ n. has_node ns n.node_id ≡ true)
                (λ n.
                  (policy : AlertPolicy)
                  → IsOnNode flow_id user_id ns (default_rule flow_id user_id now n policy))
                ns (λ n h policy. default_rule-IsOnNode flow_id user_id ns now n policy h)
                (every_there flow_id user_id ns ns ns (λ f k. k))))
            (without_stale-IsOnNode flow_id user_id ns now s))

    nodes-IsSound :
        (ns : List SyncNode)
        → All (λ n. (policy : AlertPolicy) → IsSound (default_rule flow_id user_id now n policy)) ns
    nodes-IsSound [] = tt
    nodes-IsSound (n ∷ ns) = (default_rule-IsSound n, nodes-IsSound ns)

    -- If every enabled rule has a condition that is accepted, it is so after the rules follow the
    -- nodes of a flow.
    pub sync_rules_for_flow_nodes-IsSound :
        (nodes : List SyncNode) (s : Store p)
        → All (λ d. IsSound d.body) (p.docs s.rules)
        → All
            (λ d. IsSound d.body)
            (p.docs (sync_rules_for_flow_nodes flow_id user_id now nodes s).1.rules)
    unfolding sync_rules_for_flow_nodes
    sync_rules_for_flow_nodes-IsSound nodes s h =
        elim (Bool-cases (is_empty flow_id || is_empty user_id)) [
          | inl missing ↦ rw missing h
          | inr given ↦
              let ns = normalized_nodes nodes in
              rw given (
                insert_many-All IsSound (to_insert flow_id user_id now ns s)
                  (without_stale flow_id user_id now ns s)
                  (missing_rules-All IsSound _ ns _ (nodes-IsSound ns))
                  (rw
                    (p.docs-delete_many
                      (λ d. any (λ e. e.id === d.id) (stale_of flow_id user_id ns (p.docs s.rules)))
                      s.rules)
                    (All-select (λ d. IsSound d.body)
                      (λ d.
                        not
                          (any (λ e. e.id === d.id) (stale_of flow_id user_id ns (p.docs s.rules))))
                      (p.docs s.rules) h)))
        ]
