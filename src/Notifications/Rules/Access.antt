-- ===== src/Notifications/Rules/Access.antt =====
-- Whether a user may reach a flow and a rule.
use nexusflow_backend.Prelude.{
  true, ◌&&◌, String, find, ◌≡◌, refl, ◌⊎◌, inl, inr, ◌===◌, Bool-cases, Option-cases, arith,
  find-passes, find-Some, Some, eq_of_===,
}
use nexusflow_backend.Action.{
  HttpError, forbidden, not_found, internal_server_error, Result, ok, err,
}
use nexusflow_backend.Platform.{Doc, Platform}
use nexusflow_backend.Notifications.Schemas.{AlertRule, Flow, Store}
use nexusflow_backend.Notifications.Rules.{is_owned_by, assert_user_can_access_flow, find_rule}

pub Result-cases : (r : Result (Unit {0})) → (r ≡ ok tt) ⊎ ((e : HttpError) × (r ≡ err e))
Result-cases (ok u) = inl refl
Result-cases (err e) = inr (e, refl)

module _ ⦃p : Platform⦄ where
  -- A document of the collection that `find` answers for the flow of the user.
  pub access_cases :
      (user_id flow_id : String) (s : Store p)
      → ((e : HttpError) × (assert_user_can_access_flow user_id flow_id s ≡ (err e, s)))
        ⊎ ((flow : Doc Flow) × (assert_user_can_access_flow user_id flow_id s ≡ (ok flow, s))
            × (is_owned_by user_id flow ≡ true)
            × (flow.id ≡ flow_id)
            × Some (λ d. d ≡ flow) (p.docs s.flows))
  unfolding assert_user_can_access_flow
  access_cases user_id flow_id s = elim (Bool-cases (p.is_object_id flow_id)) [
    | inr bad ↦ inl (
      forbidden "You are not allowed to access this flow alerts.",
      rw (assert_user_can_access_flow, bad) refl,
    )
    | inl valid ↦
        elim (Option-cases
          (find (λ d. d.id === flow_id && is_owned_by user_id d) (p.docs s.flows))) [
            | inl missing ↦ inl (
              forbidden "You are not allowed to access this flow alerts.",
              rw (assert_user_can_access_flow, valid, missing) refl,
            )
            | inr (flow, found) ↦
                let passes =
                  find-passes (λ d. d.id === flow_id && is_owned_by user_id d) (p.docs s.flows)
                    {x = flow} found in
                inr (
                  flow,
                  rw (assert_user_can_access_flow, valid, found) refl,
                  ground arith,
                  eq_of_=== flow.id flow_id (ground arith),
                  find-Some (λ d. d ≡ flow) (λ d. d.id === flow_id && is_owned_by user_id d)
                      (p.docs s.flows) {x = flow} found refl,
                )
          ]
  ]

  -- A rule of the user's flow, or an error.
  pub find_rule_cases :
      (user_id flow_id rule_id : String) (s : Store p)
      → ((e : HttpError) × (find_rule user_id flow_id rule_id s ≡ (err e, s)))
        ⊎ ((d : Doc AlertRule) × (find_rule user_id flow_id rule_id s ≡ (ok d, s))
            × ((d.id === rule_id && d.body.flow_id === flow_id && d.body.user_id === user_id)
                ≡ true)
            × Some (λ e. e ≡ d) (p.docs s.rules))
  unfolding find_rule
  find_rule_cases user_id flow_id rule_id s = elim (Bool-cases (p.is_object_id rule_id)) [
    | inr bad ↦ inl (internal_server_error "Internal server error", rw (find_rule, bad) refl)
    | inl valid ↦
        elim (Option-cases (
          find (λ d. d.id === rule_id && d.body.flow_id === flow_id && d.body.user_id === user_id)
            (p.docs s.rules))) [
              | inl missing ↦
                  inl (not_found "Alert rule not found.", rw (find_rule, valid, missing) refl)
              | inr (d, found) ↦ inr (
                d,
                rw (find_rule, valid, found) refl,
                find-passes
                    (λ d.
                      d.id === rule_id && d.body.flow_id === flow_id && d.body.user_id === user_id)
                    (p.docs s.rules) {x = d} found,
                find-Some (λ e. e ≡ d)
                    (λ d.
                      d.id === rule_id && d.body.flow_id === flow_id && d.body.user_id === user_id)
                    (p.docs s.rules) {x = d} found refl,
              )
            ]
  ]
