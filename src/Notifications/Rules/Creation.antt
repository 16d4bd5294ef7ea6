-- ===== src/Notifications/Rules/Creation.antt =====
-- A rule is created whole or not at all.
use nexusflow_backend.Prelude.{
  ℕ, true, false, not, ◌&&◌, String, [], ◌∷◌, ◌++◌, some, any, ◌≡◌, refl, ◌⊎◌, inl, inr, Bool-cases,
  ◌∙◌, ap, arith, Some, ◌⧺◌,
}
use nexusflow_backend.Action.{HttpError, bad_request, forbidden, Result, ok, err}
use nexusflow_backend.Platform.{Doc, Platform}
use nexusflow_backend.Notifications.Schemas.{Operator, AlertRule, Flow, Store}
use nexusflow_backend.Notifications.Condition.{symbol, operator_of, validate_rule_condition}
use nexusflow_backend.Notifications.Condition.Laws.{IsCondition, validate_rule_condition_iff}
use nexusflow_backend.Notifications.Rules.{
  CreateAlertRule, RuleOutput, map_rule, rule_clashes, assert_node_belongs_to_flow,
  assert_reading_key_allowed, is_supported_key, is_required, is_owned_by, new_rule,
  find_policy_for_rule, create_alert_rule,
}
use nexusflow_backend.Notifications.Rules.Access.{Result-cases, access_cases}

module _ ⦃p : Platform⦄ where
  module _ (user_id flow_id : String) (dto : CreateAlertRule) (now : ℕ) (s : Store p) where
    -- What a created rule is: stored behind the others, alone on its node and reading key in the
    -- flow, with a condition that is accepted, for a reading key of the module, and enabled if a
    -- policy requires it. The flow is the stored one of that id, and the user's.
    pub record IsCreated (r : Result RuleOutput × Store p) : Type 0 where
      pub id : String
      pub flow : Doc Flow
      pub owned : is_owned_by user_id flow ≡ true
      pub flow_named : flow.id ≡ flow_id
      pub flow_stored : Some (λ d. d ≡ flow) (p.docs s.flows)
      pub answer : r.0 ≡ ok (map_rule (record { id = id; body = new_rule user_id flow_id dto now }))
      pub rest : r.1 ≡ record s { rules = r.1.rules }
      pub stored :
          p.docs r.1.rules
          ≡ p.docs s.rules ++ record { id = id; body = new_rule user_id flow_id dto now } ∷ []
      pub alone :
          any (λ d. rule_clashes d.body (new_rule user_id flow_id dto now)) (p.docs s.rules) ≡ false
      pub condition :
          (op : Operator) × (operator_of (symbol dto.operator) ≡ some op)
          × IsCondition op dto.condition
      pub key : is_supported_key dto.module_id dto.reading_key ≡ true
      pub required :
          is_required (find_policy_for_rule dto.module_id dto.reading_key s) ≡ true
          → dto.enabled ≡ true

    -- The parts of a creation that has passed all checks.
    inserted :
        (flow : Doc Flow)
        → is_owned_by user_id flow ≡ true
        → flow.id ≡ flow_id
        → Some (λ d. d ≡ flow) (p.docs s.flows)
        → any (λ d. rule_clashes d.body (new_rule user_id flow_id dto now)) (p.docs s.rules) ≡ false
        → validate_rule_condition (symbol dto.operator) dto.condition ≡ ok tt
        → is_supported_key dto.module_id dto.reading_key ≡ true
        → (is_required (find_policy_for_rule dto.module_id dto.reading_key s) && not dto.enabled)
          ≡ false
        → IsCreated (
          ok (map_rule (p.insert (new_rule user_id flow_id dto now) s.rules).0),
          record s { rules = (p.insert (new_rule user_id flow_id dto now) s.rules).1 },
        )
    inserted flow owned flow_named flow_stored alone valid key required =
        let b = new_rule user_id flow_id dto now in
        let id = (p.insert b s.rules).0.id in
        let same : (p.insert b s.rules).0 ≡ record { id = id; body = b } =
          ap {A = AlertRule} (λ x. record { id = id; body = x }) (p.body-insert b s.rules) in
        record {
          id = id;
          flow = flow;
          owned = owned;
          flow_named = flow_named;
          flow_stored = flow_stored;
          answer = ap (λ d. ok (map_rule d)) same;
          rest = refl;
          stored = p.docs-insert b s.rules ∙ ap (λ d. p.docs s.rules ++ d ∷ []) same;
          alone = alone;
          condition = (validate_rule_condition_iff (symbol dto.operator) dto.condition).0 valid;
          key = key;
          required = λ h. ground arith;
        }

    -- A request to create a rule either throws and changes nothing, or stores it behind the
    -- others, alone on its node and reading key in the flow, with an accepted condition, for a
    -- reading key of the module, in the stored flow of the id that was given, which is the
    -- user's, and enabled if a policy requires it.
    pub create_alert_rule_all_or_nothing :
        ((e : HttpError) × (create_alert_rule user_id flow_id dto now s ≡ (err e, s)))
        ⊎ IsCreated (create_alert_rule user_id flow_id dto now s)
    unfolding create_alert_rule assert_reading_key_allowed
    create_alert_rule_all_or_nothing = elim (access_cases user_id flow_id s) [
      | inl (e, denied) ↦ inl (e, rw (create_alert_rule, denied) refl)
      | inr (flow, granted, owned, flow_named, flow_stored) ↦
          elim (Result-cases (assert_node_belongs_to_flow flow.body dto.node_id dto.module_id)) [
            | inr (e, bad_node) ↦ inl (e, rw (create_alert_rule, granted, bad_node) refl)
            | inl node ↦ elim (Bool-cases (is_supported_key dto.module_id dto.reading_key)) [
              | inr bad_key ↦ inl (
                bad_request (
                    "readingKey \"" ⧺ dto.reading_key ⧺ "\" is not supported for moduleId \""
                    ⧺ dto.module_id ⧺ "\"."),
                rw (create_alert_rule, granted, node, assert_reading_key_allowed, bad_key) refl,
              )
              | inl key ↦
                  elim (Result-cases
                    (validate_rule_condition (symbol dto.operator) dto.condition)) [
                      | inr (e, invalid) ↦ inl (
                        e,
                        rw
                            (
                              create_alert_rule, granted, node, assert_reading_key_allowed, key,
                              invalid,
                            )
                            refl,
                      )
                      | inl valid ↦
                          elim (Bool-cases (
                            is_required (find_policy_for_rule dto.module_id dto.reading_key s)
                            && not dto.enabled)) [
                              | inl off ↦ inl (
                                forbidden
                                    "This alert rule is required by policy and cannot be disabled.",
                                rw
                                    (
                                      create_alert_rule, granted, node, assert_reading_key_allowed,
                                      key, valid, off,
                                    )
                                    refl,
                              )
                              | inr fine ↦
                                  elim (Bool-cases (
                                    any
                                      (λ d. rule_clashes d.body (new_rule user_id flow_id dto now))
                                      (p.docs s.rules))) [
                                        | inl taken ↦ inl (
                                          bad_request
                                              "An alert rule for this node and reading key already exists.",
                                          rw
                                              (
                                                create_alert_rule, granted, node,
                                                assert_reading_key_allowed, key, valid, fine, taken,
                                              )
                                              refl,
                                        )
                                        | inr alone ↦ inr (
                                            rw
                                              (
                                                create_alert_rule, granted, node,
                                                assert_reading_key_allowed, key, valid, fine, alone,
                                              )
                                              (inserted flow owned flow_named flow_stored alone
                                                valid key fine))
                                      ]
                            ]
                    ]
            ]
          ]
    ]
