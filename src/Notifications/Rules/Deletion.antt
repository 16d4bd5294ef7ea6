-- ===== src/Notifications/Rules/Deletion.antt =====
-- A rule is deleted, unless a policy requires it.
use nexusflow_backend.Prelude.{
  true, false, not, ◌&&◌, String, select, ◌≡◌, refl, ◌⊎◌, inl, inr, ◌===◌, Bool-cases, arith,
  eq_of_===, Some,
}
use nexusflow_backend.Action.{HttpError, forbidden, err}
use nexusflow_backend.Platform.{Doc, Platform}
use nexusflow_backend.Notifications.Schemas.{AlertRule, Flow, Store}
use nexusflow_backend.Notifications.Rules.{
  is_owned_by, is_required, find_policy_for_rule, delete_alert_rule,
}
use nexusflow_backend.Notifications.Rules.Access.{access_cases, find_rule_cases}

module _ ⦃p : Platform⦄ where
  -- What a deletion removes: one rule of the user's flow that no policy requires, by its id.
  pub record IsDeleted (user_id flow_id rule_id : String) (s s' : Store p) : Type 0 where
    pub flow : Doc Flow
    pub owned : is_owned_by user_id flow ≡ true
    pub flow_named : flow.id ≡ flow_id
    pub flow_stored : Some (λ d. d ≡ flow) (p.docs s.flows)
    pub rule : Doc AlertRule
    pub rule_stored : Some (λ d. d ≡ rule) (p.docs s.rules)
    pub named :
        (rule.id === rule_id && rule.body.flow_id === flow_id && rule.body.user_id === user_id)
        ≡ true
    pub free :
        is_required (find_policy_for_rule rule.body.module_id rule.body.reading_key s) ≡ false
    pub left : p.docs s'.rules ≡ select (λ d. not (d.id === rule_id)) (p.docs s.rules)
    pub rest : s' ≡ record s { rules = s'.rules }

  -- A request to delete a rule either throws and changes nothing, or exactly the documents of
  -- that id go, among them a stored rule of the user and the flow that no active policy requires,
  -- where the flow is the stored one of the id that was given and the user's.
  pub delete_alert_rule_all_or_nothing :
      (user_id flow_id rule_id : String) (s : Store p)
      → ((e : HttpError) × (delete_alert_rule user_id flow_id rule_id s ≡ (err e, s)))
        ⊎ IsDeleted user_id flow_id rule_id s (delete_alert_rule user_id flow_id rule_id s).1
  unfolding delete_alert_rule
  delete_alert_rule_all_or_nothing user_id flow_id rule_id s =
      elim (access_cases user_id flow_id s) [
        | inl (e, denied) ↦ inl (e, rw (delete_alert_rule, denied) refl)
        | inr (flow, granted, owned, flow_named, flow_stored) ↦
            elim (find_rule_cases user_id flow_id rule_id s) [
              | inl (e, missing) ↦ inl (e, rw (delete_alert_rule, granted, missing) refl)
              | inr (rule, found, named, rule_stored) ↦
                  elim (Bool-cases (
                    is_required
                      (find_policy_for_rule rule.body.module_id rule.body.reading_key s))) [
                        | inl required ↦ inl (
                          forbidden "This alert rule is required by policy and cannot be deleted.",
                          rw (delete_alert_rule, granted, found, required) refl,
                        )
                        | inr free ↦
                            let same : rule.id ≡ rule_id =
                              eq_of_=== rule.id rule_id (ground arith) in
                            inr (
                              rw (delete_alert_rule, granted, found, free)
                                (record {
                                  flow = flow;
                                  owned = owned;
                                  flow_named = flow_named;
                                  flow_stored = flow_stored;
                                  rule = rule;
                                  rule_stored = rule_stored;
                                  named = named;
                                  free = free;
                                  left =
                                      rw (p.docs-delete_many (λ d. d.id === rule.id) s.rules, same)
                                        refl;
                                  rest = refl;
                                }))
                      ]
            ]
      ]
