-- ===== src/Notifications/Rules/Updates.antt =====
-- A change of a rule happens whole or not at all.
use nexusflow_backend.Prelude.{
  ℕ, true, false, not, ◌&&◌, String, map, some, any, ◌≡◌, refl, ◌⊎◌, inl, inr, ◌===◌, Bool-cases,
  arith, ◌⧺◌,
}
use nexusflow_backend.Action.{
  HttpError, bad_request, forbidden, internal_server_error, Result, ok, err,
}
use nexusflow_backend.Platform.{Doc, Platform, edit}
use nexusflow_backend.Notifications.Schemas.{Operator, AlertRule, Flow, Store}
use nexusflow_backend.Notifications.Condition.{symbol, operator_of, validate_rule_condition}
use nexusflow_backend.Notifications.Condition.Laws.{IsCondition, validate_rule_condition_iff}
use nexusflow_backend.Notifications.Rules.Access.{Result-cases, access_cases, find_rule_cases}
use nexusflow_backend.Notifications.Rules.{
  UpdateAlertRule, candidate, normalized, update_alert_rule, RuleOutput, bounds_of, map_rule,
  rule_clashes, assert_node_belongs_to_flow, assert_reading_key_allowed, is_supported_key,
  is_required, assert_user_can_access_flow, find_policy_for_rule, find_rule,
}

module _ ⦃p : Platform⦄ (user_id flow_id rule_id : String) (dto : UpdateAlertRule) (now : ℕ)
    (s : Store p) where
  -- What a changed rule is: a rule of the user and the flow with that id, saved with its texts
  -- normalised, alone on its node and reading key, with a condition that is accepted, for a reading
  -- key of its module, and enabled if a policy requires it.
  pub record IsUpdated (r : Result RuleOutput × Store p) : Type 0 where
    pub rule : Doc AlertRule
    pub named :
        (rule.id === rule_id && rule.body.flow_id === flow_id && rule.body.user_id === user_id)
        ≡ true
    pub answer :
        r.0 ≡ ok (map_rule (record rule { body = normalized (candidate dto rule.body) now }))
    pub rest : r.1 ≡ record s { rules = r.1.rules }
    pub saved :
        p.docs r.1.rules
        ≡ map
            (edit (λ d. d.id === rule.id) (λ _. normalized (candidate dto rule.body) now))
            (p.docs s.rules)
    pub alone :
        any
          (λ e.
            not (e.id === rule.id)
            && rule_clashes e.body (normalized (candidate dto rule.body) now))
          (p.docs s.rules)
        ≡ false
    pub condition :
        (op : Operator) × (operator_of (symbol (candidate dto rule.body).operator) ≡ some op)
        × IsCondition op (bounds_of (candidate dto rule.body))
    pub key :
        is_supported_key (candidate dto rule.body).module_id (candidate dto rule.body).reading_key
        ≡ true
    pub required :
        is_required (
            find_policy_for_rule
              (candidate dto rule.body).module_id
              (candidate dto rule.body).reading_key
              s)
          ≡ true
        → (candidate dto rule.body).enabled ≡ true

  -- The checks on the rule that was found, in the order of the code.
  checks :
      (flow : Doc Flow) (rule : Doc AlertRule)
      → assert_user_can_access_flow user_id flow_id s ≡ (ok flow, s)
      → find_rule user_id flow_id rule_id s ≡ (ok rule, s)
      → (rule.id === rule_id && rule.body.flow_id === flow_id && rule.body.user_id === user_id)
        ≡ true
      → ((e : HttpError) × (update_alert_rule user_id flow_id rule_id dto now s ≡ (err e, s)))
        ⊎ IsUpdated (update_alert_rule user_id flow_id rule_id dto now s)
  unfolding update_alert_rule assert_reading_key_allowed
  checks flow rule granted found named =
      let c = candidate dto rule.body in
      elim (Result-cases (assert_node_belongs_to_flow flow.body c.node_id c.module_id)) [
        | inr (e, bad_node) ↦ inl (e, rw (update_alert_rule, granted, found, bad_node) refl)
        | inl node ↦ elim (Bool-cases (is_supported_key c.module_id c.reading_key)) [
          | inr bad_key ↦ inl (
            bad_request (
                "readingKey \"" ⧺ c.reading_key ⧺ "\" is not supported for moduleId \""
                ⧺ c.module_id ⧺ "\"."),
            rw (update_alert_rule, granted, found, node, assert_reading_key_allowed, bad_key) refl,
          )
          | inl key ↦
              elim (Result-cases (validate_rule_condition (symbol c.operator) (bounds_of c))) [
                | inr (e, invalid) ↦ inl (
                  e,
                  rw
                      (
                        update_alert_rule, granted, found, node, assert_reading_key_allowed, key,
                        invalid,
                      )
                      refl,
                )
                | inl valid ↦
                    elim (Bool-cases (
                      is_required (find_policy_for_rule c.module_id c.reading_key s)
                      && not c.enabled)) [
                        | inl off ↦ inl (
                          forbidden "This alert rule is required by policy and cannot be disabled.",
                          rw
                              (
                                update_alert_rule, granted, found, node, assert_reading_key_allowed,
                                key, valid, off,
                              )
                              refl,
                        )
                        | inr fine ↦
                            elim (Bool-cases (
                              any
                                (λ e.
                                  not (e.id === rule.id) && rule_clashes e.body (normalized c now))
                                (p.docs s.rules))) [
                                  | inl taken ↦ inl (
                                    internal_server_error "Internal server error",
                                    rw
                                        (
                                          update_alert_rule, granted, found, node,
                                          assert_reading_key_allowed, key, valid, fine, taken,
                                        )
                                        refl,
                                  )
                                  | inr alone ↦ inr (
                                      rw
                                        (
                                          update_alert_rule, granted, found, node,
                                          assert_reading_key_allowed, key, valid, fine, alone,
                                        )
                                        (record {
                                          rule = rule;
                                          named = named;
                                          answer = refl;
                                          rest = refl;
                                          saved =
                                              p.docs-update_many (λ d. d.id === rule.id)
                                                (λ _. normalized c now) s.rules;
                                          alone = alone;
                                          condition =
                                              (validate_rule_condition_iff (symbol c.operator)
                                                  (bounds_of c)).0
                                                valid;
                                          key = key;
                                          required = λ h. ground arith;
                                        }))
                                ]
                      ]
              ]
        ]
      ]

  -- A request to change a rule either throws and changes nothing, or saves the rule of the user
  -- and the flow with normalised texts, alone on its node and reading key, with an accepted
  -- condition, for a reading key of its module, and enabled if a policy requires it.
  pub update_alert_rule_all_or_nothing :
      ((e : HttpError) × (update_alert_rule user_id flow_id rule_id dto now s ≡ (err e, s)))
      ⊎ IsUpdated (update_alert_rule user_id flow_id rule_id dto now s)
  unfolding update_alert_rule
  update_alert_rule_all_or_nothing = elim (access_cases user_id flow_id s) [
    | inl (e, denied) ↦ inl (e, rw (update_alert_rule, denied) refl)
    | inr (flow, granted, owned, flow_named, flow_stored) ↦
        elim (find_rule_cases user_id flow_id rule_id s) [
          | inl (e, missing) ↦ inl (e, rw (update_alert_rule, granted, missing) refl)
          | inr (rule, found, named, rule_stored) ↦ checks flow rule granted found named
        ]
  ]
