-- ===== src/Notifications/Policy/Catalog/Laws.antt =====
-- What the collection of policies guarantees.
use nexusflow_backend.Prelude.{
  true, ◌≡◌, refl, ap, String, Option, none, some, any, trim, arith, subst,
}
use nexusflow_backend.Value.{text, show_value}
use nexusflow_backend.Action.{ok}
use nexusflow_backend.Platform.{Platform}
use nexusflow_backend.Notifications.Schemas.{
  Operator, gt, lt, ge, le, eq, between, outside, AlertPolicy,
}
use nexusflow_backend.Notifications.Condition.{
  Bounds, operator_of, symbol, same_operator, validate_rule_condition,
  normalize_condition_by_operator,
}
use nexusflow_backend.Notifications.Condition.Laws.{
  IsCondition, validate_rule_condition_iff, known_iff,
}
use nexusflow_backend.Notifications.Policy.{
  normalize_supported_operators, normalize_default_operator, raw_bounds, effective_operator,
  resolve_policy_defaults,
}
use nexusflow_backend.Notifications.Policy.Defaults.{is_valid_condition_iff}
use nexusflow_backend.Notifications.Policy.Catalog.{
  or_blank, validate_supported, validate_policy_default_condition,
}

operator_of-symbol : (op : Operator) → operator_of (symbol op) ≡ some op
unfolding operator_of
operator_of-symbol gt = refl
operator_of-symbol lt = refl
operator_of-symbol ge = refl
operator_of-symbol le = refl
operator_of-symbol eq = refl
operator_of-symbol between = refl
operator_of-symbol outside = refl

-- An accepted condition has nothing that normalising would drop.
normalize-IsCondition :
    (op : Operator) (b : Bounds) → IsCondition op b → normalize_condition_by_operator op b ≡ b
unfolding normalize_condition_by_operator
normalize-IsCondition between b c = ground arith
normalize-IsCondition outside b c = ground arith
normalize-IsCondition gt b c = ground arith
normalize-IsCondition _ b c = ground arith

named_condition :
    (op : Operator) (b : Bounds) → validate_rule_condition (symbol op) b ≡ ok tt → IsCondition op b
named_condition op b h =
    let (op', named, c) = (validate_rule_condition_iff (symbol op) b).0 h in
    let same : op' ≡ op = cc (named, operator_of-symbol op) in subst (λ o. IsCondition o b) same c

module _ ⦃p : Platform⦄ where
  -- The parts of an accepted default condition.
  validated :
      (policy : AlertPolicy) (s : String)
      → policy.default_operator ≡ text s
      → validate_policy_default_condition policy ≡ ok tt
      → (op : Operator) × (operator_of (trim s) ≡ some op)
        × (any (same_operator op) (normalize_supported_operators policy.supported_operators) ≡ true)
        × IsCondition op (raw_bounds policy)
  unfolding validate_policy_default_condition show_value
  validated policy s given accepted = go (operator_of (trim s)) refl (
      subst (λ o. validate_supported policy o ≡ ok tt)
        (ap (λ v. operator_of (trim (show_value p.show_number (or_blank v)))) given) accepted)
    where
      go :
          (o : Option Operator)
          → operator_of (trim s) ≡ o
          → validate_supported policy (operator_of (trim s)) ≡ ok tt
          → (op : Operator) × (operator_of (trim s) ≡ some op)
            × (any (same_operator op) (normalize_supported_operators policy.supported_operators)
                ≡ true)
            × IsCondition op (raw_bounds policy)
      go none e h = absurd (ground arith)
      go (some op) e h =
          (op, e, ground arith, named_condition op (raw_bounds policy) (ground arith))

  keeps_operator :
      (policy : AlertPolicy) (s : String) (op : Operator)
      → policy.default_operator ≡ text s
      → operator_of (trim s) ≡ some op
      → any (same_operator op) (normalize_supported_operators policy.supported_operators) ≡ true
      → effective_operator policy ≡ op
  unfolding effective_operator normalize_default_operator
  keeps_operator policy s op given named among =
      rw (given, normalize_default_operator) (rw named (rw among))

  -- A policy whose default condition is accepted, its operator given as a text, keeps it: the
  -- defaults of a rule have that operator and the same numbers, and are marked valid.
  pub accepted_policy_keeps_defaults :
      (policy : AlertPolicy) (s : String)
      → policy.default_operator ≡ text s
      → validate_policy_default_condition policy ≡ ok tt
      → (operator_of (trim s) ≡ some (resolve_policy_defaults policy).operator)
        × ((resolve_policy_defaults policy).bounds ≡ raw_bounds policy)
        × ((resolve_policy_defaults policy).is_valid_condition ≡ true)
  unfolding resolve_policy_defaults
  accepted_policy_keeps_defaults policy s given accepted =
      let (op, named, among, c) = validated policy s given accepted in
      let kept = keeps_operator policy s op given named among in
      let same = normalize-IsCondition op (raw_bounds policy) c in
      (
        rw kept named,
        rw kept same,
        (is_valid_condition_iff policy).1 (rw (kept, same) ((known_iff op _).1 c)),
      )
